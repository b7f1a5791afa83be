-- ===== src/Attacks/Tests.antt =====
-- An instance at a square of the board.
use stockfish.Base.{arith}
use stockfish.Base.Lists.{All}
use stockfish.Attacks.Rays.{Agrees, directions, rays_end}

rays_end_example : All (Agrees 20 27 0xFF00) directions
rays_end_example = rays_end 20 27 0xFF00 (omega arith) (omega arith)
