-- ===== src/Notation/Tests.antt =====
-- Instances at positions of chess.
use stockfish.Base.{ℕ, ◌≡◌, refl, false, List, [], ◌∷◌}
use stockfish.Types.Board.{file_of, rank_of}
use stockfish.Types.Moves.{of_squares, from_sq, to_sq, move_type}
use stockfish.MoveGen.Generating.{generate_legal}
use stockfish.MoveGen.Samples.{start}
use stockfish.Notation.{Finds, to_lower, to_move, to_move-Finds, move_to_uci}

-- "E2e4".
abbrev double_step : List ℕ
double_step = 69 ∷ 50 ∷ 101 ∷ 52 ∷ []

double_step_written : move_to_uci (of_squares 12 28) false ≡ to_lower double_step
unfolding move_to_uci of_squares from_sq to_sq move_type file_of rank_of
double_step_written = refl

to_move-Finds_example :
    Finds (to_lower double_step) false (generate_legal start) (to_move start false double_step)
to_move-Finds_example = to_move-Finds start false double_step
