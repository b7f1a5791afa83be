-- ===== src/MovePicker/Skipping.antt =====
-- src/engine/movepick.cpp: what `skip_quiet_moves` drops, wherever in a run it is called.
use stockfish.Base.{ℕ, ◌+◌, ◌≤◌, ◌≡◌, refl, ◌∙◌, inl, Bool, true, false, to_ℕ, if◌then◌else◌, arith}
use stockfish.Base.Filters.{tally}
use stockfish.Base.Int.{ℤ, pos, ltb_ℤ}
use stockfish.Types.Moves.{Move}
use stockfish.MovePicker.Stages.{
  Node, Picker, Stage, new_picker, unset, skip_quiet_moves, is_good, is_bad,
}
use stockfish.MovePicker.Pending.{
  counts, every, fresh, slots, pending, WellFormed, quiets_to_come, good_to_come, bad_to_come,
}
use stockfish.MovePicker.Emission.{is_none, at_stage}
use stockfish.MovePicker.Emission.Calls.{every_move}
use stockfish.MovePicker.Draining.{drain, drain_complete}
use stockfish.MovePicker.Runs.{
  is_known, others, others-le, stage_of, HasNoNone, new_picker-WellFormed,
}

-- The quiet moves that a run has still to give: the whole list before it is generated; then the good
-- ones from `cur` on, and the bad ones among all that were generated; at last the bad ones from `cur`
-- on. A picker of evasions, of captures for the quiescence search or of ProbCut has none.
unfoldable pub quiets_pending : Node → Picker → (Move → Bool) → ℕ
quiets_pending node p f = if p.skip_quiets then 0 else elim p.stage [
  | Stage.main_tt ↦ fresh p f every node.quiets
  | Stage.capture_init ↦ fresh p f every node.quiets
  | Stage.good_capture ↦ fresh p f every node.quiets
  | Stage.quiet_init ↦ fresh p f every node.quiets
  | Stage.good_quiet ↦
      slots p f is_good p.cur p.end_cur + slots p f is_bad p.end_captures p.end_generated
  | Stage.bad_capture ↦ slots p f is_bad p.end_captures p.end_generated
  | Stage.bad_quiet ↦ slots p f is_bad p.cur p.end_cur
  | other ↦ 0
]

skip_at :
    (node : Node) (p : Picker) (s : Stage) (f : Move → Bool)
    → pending node (at_stage s p) f
      ≡ pending node (skip_quiet_moves (at_stage s p)) f + quiets_pending node (at_stage s p) f
unfolding skip_quiet_moves pending quiets_to_come good_to_come bad_to_come quiets_pending
skip_at node p Stage.main_tt f = ground arith
skip_at node p Stage.capture_init f = ground arith
skip_at node p Stage.good_capture f = ground arith
skip_at node p Stage.quiet_init f = ground arith
skip_at node p Stage.good_quiet f = ground arith
skip_at node p Stage.bad_quiet f = ground arith
skip_at node p Stage.bad_capture f = ground arith
skip_at node p other f = ground arith

skip_WellFormed :
    (p : Picker) (s : Stage)
    → WellFormed (at_stage s p)
    → WellFormed (skip_quiet_moves (at_stage s p))
unfolding skip_quiet_moves
skip_WellFormed p Stage.good_quiet w = inl refl
skip_WellFormed p Stage.good_capture w = w
skip_WellFormed p Stage.quiet_init w = w
skip_WellFormed p other w = tt

-- Wherever in a run `skip_quiet_moves` is called, with the members well formed, no move `none` pending
-- and as many calls made after it as moves were pending: these calls give all that was pending but the
-- quiet moves, and of the quiet moves none.
pub skip_quiet_moves-drain :
    (n : ℕ) (node : Node) (p : Picker) (f : Move → Bool)
    → WellFormed p
    → pending node p is_none ≡ 0
    → pending node p every_move ≤ n
    → tally f (drain n node (skip_quiet_moves p)) + quiets_pending node p f ≡ pending node p f
skip_quiet_moves-drain n node p f w z le =
    let run =
      drain_complete n node (skip_quiet_moves p) f (skip_WellFormed p p.stage w)
        (omega (arith, skip_at node p p.stage is_none))
        (omega (arith, skip_at node p p.stage every_move)) in
    omega (arith, run, skip_at node p p.stage f)

-- What a run is to give where quiet moves are skipped from its start.
abbrev pub expected_skipping : Node → Move → (Move → Bool) → ℕ
expected_skipping node ttm f =
    (if is_known node ttm then to_ℕ (f ttm) else 0)
    + (if node.in_check then others ttm f node.evasions else others ttm f node.captures)

skipping_pending :
    (node : Node) (ttm : Move) (d : ℤ) (known check deep : Bool) (f : Move → Bool)
    → pending node (skip_quiet_moves (unset ttm d (pos 0) (stage_of known check deep))) f
      ≡ (if known then to_ℕ (f ttm) else 0)
        + (if check then others ttm f node.evasions else others ttm f node.captures)
unfolding unset skip_quiet_moves pending quiets_to_come counts
skipping_pending node ttm d true true deep f = refl
skipping_pending node ttm d false true deep f = omega arith
skipping_pending node ttm d true false true f = omega arith
skipping_pending node ttm d false false true f = omega arith
skipping_pending node ttm d true false false f = refl
skipping_pending node ttm d false false false f = omega arith

new_picker-skipping :
    (node : Node) (ttm : Move) (d : ℤ) (f : Move → Bool)
    → pending node (skip_quiet_moves (new_picker node ttm d)) f ≡ expected_skipping node ttm f
unfolding new_picker
new_picker-skipping node ttm d f =
    skipping_pending node ttm d (is_known node ttm) node.in_check (ltb_ℤ (pos 0) d) f

skipping-none :
    (node : Node) (ttm : Move)
    → HasNoNone node.captures
    → HasNoNone node.evasions
    → expected_skipping node ttm is_none ≡ 0
skipping-none node ttm a b =
    ground (arith, others-le ttm is_none node.captures, others-le ttm is_none node.evasions)

-- A run of a picker for the search or the quiescence search in which quiet moves are skipped from the
-- start gives the table's move, if it is legal, and each other evasion where the side is in check, or
-- else each other capture of the list of captures, and nothing more, where none of these is the move
-- `none` and as many calls are made as moves are expected.
pub new_picker-skip_quiet_moves :
    (n : ℕ) (node : Node) (ttm : Move) (d : ℤ) (f : Move → Bool)
    → HasNoNone node.captures
    → HasNoNone node.evasions
    → expected_skipping node ttm every_move ≤ n
    → tally f (drain n node (skip_quiet_moves (new_picker node ttm d)))
      ≡ expected_skipping node ttm f
new_picker-skip_quiet_moves n node ttm d f a b le =
    let p = new_picker node ttm d in
    drain_complete n node (skip_quiet_moves p) f
      (skip_WellFormed p p.stage (new_picker-WellFormed node ttm d))
      (new_picker-skipping node ttm d is_none ∙ skipping-none node ttm a b)
      (omega (arith, new_picker-skipping node ttm d every_move))
    ∙ new_picker-skipping node ttm d f
