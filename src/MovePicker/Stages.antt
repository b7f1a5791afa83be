-- ===== src/MovePicker/Stages.antt =====
-- src/engine/movepick.h and movepick.cpp: `MovePicker`, its stages and what each call does. What the
-- picker asks of the position and of the history tables is a `Node`; a pointer into `moves` is an
-- index. Members that a constructor leaves unset are zero here, and are set before they are read.
use stockfish.Base.{
  ℕ, zero, suc, ◌+◌, ◌-◌, Bool, true, false, ◌&&◌, ◌==◌, if◌then◌else◌, List, Option, none, some,
}
use stockfish.Base.Lists.{length}
use stockfish.Base.Arrays.{Array, put, write_at}
use stockfish.Base.Int.{ℤ, pos, negsuc, neg, div_ℕ, leb_ℤ, ltb_ℤ, ◌*ℤ◌}
use stockfish.Types.Moves.{Move, no_move, is_some_move}
use stockfish.MoveGen.{ExtMove}
use stockfish.MovePicker.Sorting.{sort_all, partial_insertion_sort}

-- The lists are those that `gen_and_score` writes, in that order and with those values.
pub record Node : Type 0 where
  pub in_check : Bool
  pub captures : List ExtMove
  pub quiets : List ExtMove
  pub evasions : List ExtMove
  pub see_ge : Move → ℤ → Bool
  pub capture_stage : Move → Bool
  pub legal : Move → Bool

pub data Stage : Type 0 where
  main_tt : Stage
  capture_init : Stage
  good_capture : Stage
  quiet_init : Stage
  good_quiet : Stage
  bad_capture : Stage
  bad_quiet : Stage
  evasion_tt : Stage
  evasion_init : Stage
  evasion : Stage
  probcut_tt : Stage
  probcut_init : Stage
  probcut : Stage
  qsearch_tt : Stage
  qcapture_init : Stage
  qcapture : Stage

pub record Picker : Type 0 where
  pub tt_move : Move
  pub depth : ℤ
  pub threshold : ℤ
  pub skip_quiets : Bool
  pub stage : Stage
  pub cur : ℕ
  pub end_cur : ℕ
  pub end_bad_captures : ℕ
  pub end_captures : ℕ
  pub end_generated : ℕ
  pub moves : Array ExtMove

-- `-14000`, and the depth that the code computes from it and from 3560.
abbrev pub good_quiet_threshold : ℤ
good_quiet_threshold = negsuc 13999

abbrev pub good_quiet_depth : ℤ
good_quiet_depth = pos 4

unfoldable pub unset : Move → ℤ → ℤ → Stage → Picker
unset tt_move depth threshold stage = record {
  tt_move = tt_move;
  depth = depth;
  threshold = threshold;
  skip_quiets = false;
  stage = stage;
  cur = 0;
  end_cur = 0;
  end_bad_captures = 0;
  end_captures = 0;
  end_generated = 0;
  moves = λ i. record { move = no_move; value = pos 0 };
}

-- The constructor for the main search and for the quiescence search.
unfoldable pub new_picker : Node → Move → ℤ → Picker
unfolding unset
new_picker node ttm d =
    let known = is_some_move ttm && node.legal ttm in
    unset ttm d (pos 0) (
      if node.in_check
      then if known then Stage.evasion_tt else Stage.evasion_init
      else if ltb_ℤ (pos 0) d
      then if known then Stage.main_tt else Stage.capture_init
      else if known
      then Stage.qsearch_tt
      else Stage.qcapture_init)

-- The constructor for ProbCut.
unfoldable pub new_probcut : Node → Move → ℤ → Picker
unfolding unset
new_probcut node ttm th = unset ttm (pos 0) th (
    if is_some_move ttm && (node.capture_stage ttm && node.legal ttm)
    then Stage.probcut_tt
    else Stage.probcut_init)

abbrev pub here : Picker → ExtMove
here p = p.moves p.cur

-- `*(cur - 1)`.
abbrev pub before_cur : Picker → Move
before_cur p = (p.moves (p.cur - 1)).move

abbrev pub advance : Picker → Picker
advance p = record p { cur = p.cur + 1 }

-- `select`, with `n` the number of moves from `cur` to `endCur`. A filter may change the picker, but
-- not these two.
unfoldable pub select : (Picker → Bool × Picker) → ℕ → Picker → Move × Picker
select filter zero p = (no_move, p)
select filter (suc n) p = elim ((here p).move == p.tt_move) [
  | true ↦ select filter n (advance p)
  | false ↦ elim (filter p).0 [
    | true ↦ ((here (filter p).1).move, advance (filter p).1)
    | false ↦ select filter n (advance (filter p).1)
  ]
]

unfoldable pub select_from : (Picker → Bool × Picker) → Picker → Move × Picker
select_from filter p = select filter (p.end_cur - p.cur) p

-- `if (select(...)) return *(cur - 1);` and what follows it.
unfoldable pub or_next : Move × Picker → (Picker → Move × Picker) → Move × Picker
or_next (m, p) next = if is_some_move m then (before_cur p, p) else next p

-- A filter that looks at the move only.
abbrev pub only : (ExtMove → Bool) → Picker → Bool × Picker
only test p = (test (here p), p)

-- The filter of good captures: what loses material is put with the bad captures.
unfoldable pub wins_or_keeps : Node → Picker → Bool × Picker
wins_or_keeps node p =
    if node.see_ge (here p).move (div_ℕ (neg (here p).value) 18) then (true, p) else (
      false,
      record p {
        moves = put (put p.moves p.end_bad_captures (here p)) p.cur (p.moves p.end_bad_captures);
        end_bad_captures = p.end_bad_captures + 1;
      },
    )

unfoldable pub init_captures : Node → Stage → Picker → Picker
init_captures node next p = record p {
  cur = 0;
  end_bad_captures = 0;
  moves = write_at p.moves 0 (sort_all node.captures);
  end_cur = length node.captures;
  end_captures = length node.captures;
  stage = next;
}

unfoldable pub init_quiets : Node → Picker → Picker
init_quiets node p = record p {
  moves = write_at p.moves p.cur (partial_insertion_sort (neg (pos 3560 *ℤ p.depth)) node.quiets);
  end_cur = p.cur + length node.quiets;
  end_generated = p.cur + length node.quiets;
}

unfoldable pub init_evasions : Node → Picker → Picker
init_evasions node p = record p {
  cur = 0;
  moves = write_at p.moves 0 (sort_all node.evasions);
  end_cur = length node.evasions;
  end_generated = length node.evasions;
  stage = Stage.evasion;
}

-- The loop of `good_quiet` from depth 4 on, which stops at the first move that is not good.
unfoldable pub walk_good : ℕ → Picker → Option Move × Picker
walk_good zero p = (none, p)
walk_good (suc n) p = elim (leb_ℤ (here p).value good_quiet_threshold) [
  | true ↦ (none, p)
  | false ↦ elim ((here p).move == p.tt_move) [
    | true ↦ walk_good n (advance p)
    | false ↦ (some (here p).move, advance p)
  ]
]

abbrev pub is_good : ExtMove → Bool
is_good x = ltb_ℤ good_quiet_threshold x.value

abbrev pub is_bad : ExtMove → Bool
is_bad x = leb_ℤ x.value good_quiet_threshold

-- `if (select(...)) return *(cur - 1);`, with what is returned as an option.
unfoldable pub or_none : Move × Picker → Option Move × Picker
or_none (m, p) = if is_some_move m then (some (before_cur p), p) else (none, p)

unfoldable pub pick_good_quiet : Picker → Option Move × Picker
pick_good_quiet p =
    if p.skip_quiets
    then (none, p)
    else if leb_ℤ good_quiet_depth p.depth
    then walk_good (p.end_cur - p.cur) p
    else or_none (select_from (only is_good) p)

unfoldable pub to_bad_captures : Picker → Picker
to_bad_captures p = record p { cur = 0; end_cur = p.end_bad_captures; stage = Stage.bad_capture }

unfoldable pub to_bad_quiets : Picker → Picker
to_bad_quiets p =
    if p.skip_quiets
    then record p { stage = Stage.bad_quiet }
    else record p { cur = p.end_captures; end_cur = p.end_generated; stage = Stage.bad_quiet }

-- `walk_lists`, from each of its labels.
unfoldable pub walk_bad_quiets : Picker → Move × Picker
walk_bad_quiets p = if p.skip_quiets then (no_move, p) else select_from (only is_bad) p

unfoldable pub walk_bad_captures : Picker → Move × Picker
walk_bad_captures p =
    or_next (select_from (only (λ x. true)) p) (λ q. walk_bad_quiets (to_bad_quiets q))

unfoldable pub walk_good_quiets : Picker → Move × Picker
walk_good_quiets p = elim (pick_good_quiet p).0 [
  | some m ↦ (m, (pick_good_quiet p).1)
  | none ↦ walk_bad_captures (to_bad_captures (pick_good_quiet p).1)
]

-- `QUIET_INIT`.
unfoldable pub start_quiets : Node → Picker → Move × Picker
start_quiets node p =
    walk_good_quiets
      (record (if p.skip_quiets then p else init_quiets node p) { stage = Stage.good_quiet })

-- `GOOD_CAPTURE`.
unfoldable pub pick_good_capture : Node → Picker → Move × Picker
pick_good_capture node p =
    or_next (select_from (wins_or_keeps node) p)
      (λ q. start_quiets node (record q { stage = Stage.quiet_init }))

-- `EVASION` and `QCAPTURE`.
unfoldable pub pick_any : Picker → Move × Picker
pick_any p = select_from (only (λ x. true)) p

-- `PROBCUT`.
unfoldable pub pick_probcut : Node → Picker → Move × Picker
pick_probcut node p = select_from (only (λ x. node.see_ge x.move p.threshold)) p

-- `next_move`, with `generate_stage`: the cases that go back to `top` go on with the next stage's.
unfoldable pub next_move : Node → Picker → Move × Picker
next_move node p = elim p.stage [
  | Stage.main_tt ↦ (p.tt_move, record p { stage = Stage.capture_init })
  | Stage.evasion_tt ↦ (p.tt_move, record p { stage = Stage.evasion_init })
  | Stage.qsearch_tt ↦ (p.tt_move, record p { stage = Stage.qcapture_init })
  | Stage.probcut_tt ↦ (p.tt_move, record p { stage = Stage.probcut_init })
  | Stage.capture_init ↦ pick_good_capture node (init_captures node Stage.good_capture p)
  | Stage.probcut_init ↦ pick_probcut node (init_captures node Stage.probcut p)
  | Stage.qcapture_init ↦ pick_any (init_captures node Stage.qcapture p)
  | Stage.good_capture ↦ pick_good_capture node p
  | Stage.quiet_init ↦ start_quiets node p
  | Stage.good_quiet ↦ walk_good_quiets p
  | Stage.bad_capture ↦ walk_bad_captures p
  | Stage.bad_quiet ↦ walk_bad_quiets p
  | Stage.evasion_init ↦ pick_any (init_evasions node p)
  | Stage.evasion ↦ pick_any p
  | Stage.qcapture ↦ pick_any p
  | Stage.probcut ↦ pick_probcut node p
]

unfoldable pub skip_quiet_moves : Picker → Picker
skip_quiet_moves p = record p { skip_quiets = true }
