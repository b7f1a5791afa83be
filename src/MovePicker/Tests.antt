-- ===== src/MovePicker/Tests.antt =====
-- Instances at small lists and at positions of chess.
use stockfish.Base.{
  ◌+◌, ◌≤◌, ◌≡◌, ◌↔◌, refl, true, false, not, ◌||◌, ◌==◌, ◌*◌, if◌then◌else◌, to_ℕ, List, [], ◌∷◌,
  arith,
}
use stockfish.Base.Filters.{tally, filter_by}
use stockfish.Base.Lists.{length}
use stockfish.Base.Int.{ℤ, pos, negsuc, ◌*ℤ◌}
use stockfish.Types.Moves.{Move}
use stockfish.Position.Keys.{set_state}
use stockfish.Position.Placement.{put_piece}
use stockfish.Position.Attackers.{add_snipers, snipers_of, clear_blockers}
use stockfish.MoveGen.{ExtMove}
use stockfish.MoveGen.Generating.{generate_legal}
use stockfish.MoveGen.Samples.{busy}
use stockfish.MovePicker.Sorting.{
  sort_all, partial_insertion_sort, sort_above, sort_from, insert_before, rotate,
}
use stockfish.MovePicker.Sorting.Order.{Descends, PassFirst}
use stockfish.MovePicker.Sorting.Stability.{
  has_value, reaches, sort_all_stable, partial_insertion_sort_prefix,
}
use stockfish.MovePicker.Scoring.{Histories}
use stockfish.MovePicker.Stages.{
  Node, Picker, next_move, new_picker, new_probcut, skip_quiet_moves, pick_good_capture, or_next,
  select_from, select, init_captures, wins_or_keeps, start_quiets, walk_good_quiets,
  pick_good_quiet, init_quiets, walk_good, walk_bad_captures, to_bad_captures, to_bad_quiets,
  walk_bad_quiets, unset,
}
use stockfish.Base.Arrays.{write_at, put}
use stockfish.MovePicker.Pending.{counts, pending, WellFormed}
use stockfish.MovePicker.Emission.{is_none}
use stockfish.MovePicker.Emission.Calls.{every_move}
use stockfish.MovePicker.Draining.{drain, drain_complete, next_move_takes}
use stockfish.MovePicker.Runs.{expected, expected_probcut, new_picker-drain, new_probcut-drain}
use stockfish.MovePicker.Skipping.{
  quiets_pending, skip_quiet_moves-drain, expected_skipping, new_picker-skip_quiet_moves,
}
use stockfish.MovePicker.AtPosition.{node_at, given, picker_gives_legal_moves}

abbrev valued : Move → ℤ → ExtMove
valued m v = record { move = m; value = v }

abbrev four_moves : List ExtMove
four_moves =
    valued 701 (pos 5) ∷ valued 702 (negsuc 20000) ∷ valued 703 (pos 9) ∷ valued 704 (pos 5) ∷ []

-- Move 800 loses material; move 703 is the table's.
abbrev small_node : Node
small_node = record {
  in_check = false;
  captures = valued 800 (pos 50) ∷ valued 801 (pos 20) ∷ [];
  quiets = four_moves;
  evasions = [];
  see_ge = λ m t. not (m == 800);
  capture_stage = λ m. m == 800 || m == 801;
  legal = λ m. true;
}

-- The capture that loses comes after the good quiet moves, and before the bad one.
order_of_moves :
    drain 9 small_node (new_picker small_node 703 (pos 6)) ≡ 703 ∷ 801 ∷ 701 ∷ 704 ∷ 800 ∷ 702 ∷ []
unfolding drain next_move new_picker pick_good_capture or_next select_from select init_captures
    write_at sort_all wins_or_keeps start_quiets walk_good_quiets pick_good_quiet init_quiets
    walk_good partial_insertion_sort ◌*ℤ◌ walk_bad_captures to_bad_captures to_bad_quiets
    walk_bad_quiets put sort_above sort_from insert_before rotate unset
order_of_moves = refl

sort_all_stable_example :
    Descends (sort_all four_moves)
    × (filter_by (has_value (pos 5)) (sort_all four_moves)
        ≡ filter_by (has_value (pos 5)) four_moves)
sort_all_stable_example = sort_all_stable (pos 5) four_moves

partial_insertion_sort_prefix_example :
    PassFirst (reaches (pos 6)) (partial_insertion_sort (pos 6) four_moves)
    × (filter_by (reaches (pos 6)) (partial_insertion_sort (pos 6) four_moves)
        ≡ sort_all (filter_by (reaches (pos 6)) four_moves))
partial_insertion_sort_prefix_example = partial_insertion_sort_prefix (pos 6) four_moves

abbrev begun : Picker
begun = new_picker small_node 703 (pos 6)

begun-WellFormed : WellFormed begun
unfolding new_picker
begun-WellFormed = tt

begun-none : pending small_node begun is_none ≡ 0
unfolding pending new_picker tally counts
begun-none = refl

begun-all : pending small_node begun every_move ≤ 6
unfolding pending new_picker tally counts
begun-all = omega arith

next_move_takes_example :
    WellFormed (next_move small_node begun).1
    × (pending small_node begun (λ m. m == 801)
        ≡ pending small_node (next_move small_node begun).1 (λ m. m == 801)
          + (if is_none (next_move small_node begun).0
              then 0
              else to_ℕ ((next_move small_node begun).0 == 801)))
    × ((is_none (next_move small_node begun).0 ≡ true) ↔ (pending small_node begun every_move ≡ 0))
next_move_takes_example =
    next_move_takes small_node begun (λ m. m == 801) begun-WellFormed begun-none

drain_complete_example :
    tally (λ m. m == 801) (drain 6 small_node begun) ≡ pending small_node begun (λ m. m == 801)
drain_complete_example =
    drain_complete 6 small_node begun (λ m. m == 801) begun-WellFormed begun-none begun-all

new_picker-drain_example :
    tally (λ m. m == 704) (drain 9 small_node (new_picker small_node 703 (pos 6)))
    ≡ expected small_node 703 (pos 6) (λ m. m == 704)
unfolding tally
new_picker-drain_example =
    new_picker-drain 9 small_node 703 (pos 6) (λ m. m == 704) refl refl refl (omega arith)

new_probcut-drain_example :
    tally (λ m. m == 801) (drain 3 small_node (new_probcut small_node 800 (pos 10)))
    ≡ expected_probcut small_node 800 (pos 10) (λ m. m == 801)
unfolding tally
new_probcut-drain_example =
    new_probcut-drain 3 small_node 800 (pos 10) (λ m. m == 801) refl (omega arith)

skip_quiet_moves-drain_example :
    tally every_move (drain 6 small_node (skip_quiet_moves begun))
      + quiets_pending small_node begun every_move
    ≡ pending small_node begun every_move
skip_quiet_moves-drain_example =
    skip_quiet_moves-drain 6 small_node begun every_move begun-WellFormed begun-none begun-all

-- Quiet moves are pending then.
begun-quiets : 1 ≤ quiets_pending small_node begun every_move
unfolding quiets_pending new_picker tally counts
begun-quiets = omega arith

new_picker-skip_quiet_moves_example :
    tally
      (λ m. m == 703)
      (drain 9 small_node (skip_quiet_moves (new_picker small_node 703 (pos 6))))
    ≡ expected_skipping small_node 703 (λ m. m == 703)
unfolding tally
new_picker-skip_quiet_moves_example =
    new_picker-skip_quiet_moves 9 small_node 703 (pos 6) (λ m. m == 703) refl refl (omega arith)

abbrev no_histories : Histories
no_histories = record {
  main = λ c m. pos 0;
  low_ply = λ ply m. pos 0;
  capture = λ pc s pt. pos 0;
  continuation = λ i pc s. pos 0;
  pawn_entry = λ k pc s. pos 0;
}

-- From the square e2 to a6, where the bishop takes a bishop.
abbrev takes : Move
takes = 12 * 64 + 40

busy-none : tally is_none (generate_legal busy) ≡ 0
unfolding generate_legal set_state put_piece add_snipers snipers_of clear_blockers tally
busy-none = refl

picker_gives_legal_moves_example :
    tally
      (λ m. m == takes)
      (drain
        (length (generate_legal busy) + 1)
        (node_at no_histories 0 (λ i. 0) busy)
        (new_picker (node_at no_histories 0 (λ i. 0) busy) takes (pos 3)))
    ≡ given no_histories 0 (λ i. 0) busy takes (λ m. m == takes)
picker_gives_legal_moves_example =
    picker_gives_legal_moves no_histories 0 (λ i. 0) busy takes (length (generate_legal busy) + 1)
      (pos 3) (λ m. m == takes) refl busy-none (omega arith)
