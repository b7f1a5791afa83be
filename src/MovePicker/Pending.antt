-- ===== src/MovePicker/Pending.antt =====
-- What a `MovePicker` of src/engine/movepick.cpp has still to give: for a test of moves, how many
-- that pass it. This is read off the stage, the lists still to be generated and the slots.
use stockfish.Base.{
  ℕ, zero, suc, ◌+◌, ◌-◌, ◌≤◌, ◌≡◌, ◌⊎◌, Bool, true, false, not, ◌&&◌, ◌==◌, if◌then◌else◌, to_ℕ,
  List,
}
use stockfish.Base.Arrays.{Array, tally_from}
use stockfish.Base.Filters.{tally}
use stockfish.Base.Int.{ltb_ℤ}
use stockfish.Types.Moves.{Move}
use stockfish.MoveGen.{ExtMove}
use stockfish.MovePicker.Stages.{Node, Picker, Stage, is_good, is_bad, good_quiet_depth}

-- A move other than the table's, which its stage's own test lets through and which passes `f`.
unfoldable pub counts : Move → (Move → Bool) → (ExtMove → Bool) → ExtMove → Bool
counts tt f c x = not (x.move == tt) && (c x && f x.move)

abbrev pub every : ExtMove → Bool
every x = true

abbrev pub slots : Picker → (Move → Bool) → (ExtMove → Bool) → ℕ → ℕ → ℕ
slots p f c lo hi = tally_from (counts p.tt_move f c) p.moves lo (hi - lo)

abbrev pub fresh : Picker → (Move → Bool) → (ExtMove → Bool) → List ExtMove → ℕ
fresh p f c xs = tally (counts p.tt_move f c) xs

abbrev pub wins : Node → Picker → ExtMove → Bool
wins node p x = node.see_ge x.move p.threshold

unfoldable pub quiets_to_come : Node → Picker → (Move → Bool) → ℕ
quiets_to_come node p f = if p.skip_quiets then 0 else fresh p f every node.quiets

unfoldable pub bad_to_come : Picker → (Move → Bool) → ℕ
bad_to_come p f = if p.skip_quiets then 0 else slots p f is_bad p.end_captures p.end_generated

unfoldable pub good_to_come : Picker → (Move → Bool) → ℕ
good_to_come p f = if p.skip_quiets then 0 else slots p f is_good p.cur p.end_cur

unfoldable pub pending : Node → Picker → (Move → Bool) → ℕ
unfolding quiets_to_come bad_to_come good_to_come
pending node p f = elim p.stage [
  | Stage.main_tt ↦ to_ℕ (f p.tt_move) + (fresh p f every node.captures + quiets_to_come node p f)
  | Stage.capture_init ↦ fresh p f every node.captures + quiets_to_come node p f
  | Stage.good_capture ↦
      slots p f every 0 p.end_bad_captures
      + slots p f every p.cur p.end_cur
      + quiets_to_come node p f
  | Stage.quiet_init ↦ slots p f every 0 p.end_bad_captures + quiets_to_come node p f
  | Stage.good_quiet ↦ good_to_come p f + (slots p f every 0 p.end_bad_captures + bad_to_come p f)
  | Stage.bad_capture ↦ slots p f every p.cur p.end_cur + bad_to_come p f
  | Stage.bad_quiet ↦ if p.skip_quiets then 0 else slots p f is_bad p.cur p.end_cur
  | Stage.evasion_tt ↦ to_ℕ (f p.tt_move) + fresh p f every node.evasions
  | Stage.evasion_init ↦ fresh p f every node.evasions
  | Stage.evasion ↦ slots p f every p.cur p.end_cur
  | Stage.probcut_tt ↦ to_ℕ (f p.tt_move) + fresh p f (wins node p) node.captures
  | Stage.probcut_init ↦ fresh p f (wins node p) node.captures
  | Stage.probcut ↦ slots p f (wins node p) p.cur p.end_cur
  | Stage.qsearch_tt ↦ to_ℕ (f p.tt_move) + fresh p f every node.captures
  | Stage.qcapture_init ↦ fresh p f every node.captures
  | Stage.qcapture ↦ slots p f every p.cur p.end_cur
]

-- Of the `n` slots from `i` on, none behind one that is not good is good.
abbrev pub AllBad : Array ExtMove → ℕ → ℕ → Type 0
AllBad a i zero = Unit
AllBad a i (suc n) = (is_good (a i) ≡ false) × AllBad a (i + 1) n

abbrev pub GoodFirst : Array ExtMove → ℕ → ℕ → Type 0
GoodFirst a i zero = Unit
GoodFirst a i (suc n) = ((is_good (a i) ≡ true) ⊎ AllBad a (i + 1) n) × GoodFirst a (i + 1) n

abbrev pub IsOrdered : Picker → Type 0
IsOrdered p = (ltb_ℤ p.depth good_quiet_depth ≡ true) ⊎ GoodFirst p.moves p.cur (p.end_cur - p.cur)

-- How the members lie in each stage.
abbrev pub WellFormed : Picker → Type 0
WellFormed p = elim p.stage [
  | Stage.good_capture ↦
      (p.end_bad_captures ≤ p.cur) × (p.cur ≤ p.end_cur) × (p.end_cur ≡ p.end_captures)
  | Stage.quiet_init ↦ (p.end_bad_captures ≤ p.cur) × (p.cur ≡ p.end_captures)
  | Stage.good_quiet ↦ (p.skip_quiets ≡ true) ⊎ IsOrdered p
  | other ↦ Unit
]
