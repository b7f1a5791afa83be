-- ===== src/Position/MoveTests/Stages.antt =====
-- `capture` and `capture_stage` side by side.
use stockfish.Base.{◌≡◌, ◌&&◌, ◌||◌, ◌==◌, arith}
use stockfish.Types.Board.{queen}
use stockfish.Types.Moves.{Move, move_type, promotion_type, promotion}
use stockfish.Position.State.{Position}
use stockfish.Position.MoveTests.{capture, capture_stage}

-- A move belongs to the stage of captures exactly if it is a capture or a promotion to a queen.
pub capture_stage-capture :
    (p : Position) (m : Move)
    → capture_stage p m ≡ (capture p m || (move_type m == promotion && promotion_type m == queen))
unfolding capture capture_stage
capture_stage-capture p m = ground arith
