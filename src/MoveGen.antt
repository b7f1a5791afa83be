-- ===== src/MoveGen.antt =====
-- src/engine/movegen.h and movegen.cpp: the generation of the legal moves of a position. Here: a move
-- with the value that orders it, and the kinds of list.
pub mod Caching
pub mod KingMoves
pub mod Legality
pub mod Pawns
pub mod Pieces
pub mod Samples
pub mod Targets
mod Tests
pub mod Generating
use stockfish.Base.{Bool, true, false}
use stockfish.Base.Int.{ℤ, ltb_ℤ}
use stockfish.Types.Moves.{Move}

-- `ExtMove`.
pub record ExtMove : Type 0 where
  pub move : Move
  pub value : ℤ

-- `operator<`.
abbrev pub less : ExtMove → ExtMove → Bool
less f s = ltb_ℤ f.value s.value

-- `GenType`, but for `ALL`.
pub data GenType : Type 0 where
  captures : GenType
  quiets : GenType
  evasions : GenType

-- The comparisons `Type == CAPTURES`, and so on.
abbrev pub is_captures : GenType → Bool
is_captures GenType.captures = true
is_captures other = false

abbrev pub is_quiets : GenType → Bool
is_quiets GenType.quiets = true
is_quiets other = false

abbrev pub is_evasions : GenType → Bool
is_evasions GenType.evasions = true
is_evasions other = false
