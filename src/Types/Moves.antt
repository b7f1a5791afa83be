-- ===== src/Types/Moves.antt =====
-- src/engine/types.h: `class Move`, a move in 16 bits. A move is its `data` member.
pub mod Encoding
use stockfish.Base.{ℕ, ◌+◌, ◌*◌, ◌/◌, ◌^◌, bit_and, Bool, not, ◌==◌, ◌&&◌}
use stockfish.Base.Int.{sub_ℕ}
use stockfish.Base.Words.{u16, u64, to_unsigned}
use stockfish.Types.Board.{Square, PieceType, knight}

abbrev pub Move : Type 0
Move = ℕ

abbrev pub MoveType : Type 0
MoveType = ℕ

abbrev pub normal : MoveType
normal = 0

abbrev pub promotion : MoveType
promotion = 1 * 2 ^ 14

abbrev pub en_passant : MoveType
en_passant = 2 * 2 ^ 14

abbrev pub castling : MoveType
castling = 3 * 2 ^ 14

-- The constructor from two squares.
unfoldable pub of_squares : Square → Square → Move
of_squares from to = u16 (from * 2 ^ 6 + to)

-- `pt - KNIGHT` is an `int`, so it wraps round where it is negative.
unfoldable pub make : MoveType → Square → Square → PieceType → Move
make t from to pt = u16 (t + to_unsigned (2 ^ 16) (sub_ℕ pt knight) * 2 ^ 12 + from * 2 ^ 6 + to)

unfoldable pub from_sq : Move → Square
from_sq m = bit_and (m / 2 ^ 6) 0x3F

unfoldable pub to_sq : Move → Square
to_sq m = bit_and m 0x3F

unfoldable pub move_type : Move → MoveType
move_type m = bit_and m (3 * 2 ^ 14)

unfoldable pub promotion_type : Move → PieceType
promotion_type m = bit_and (m / 2 ^ 12) 3 + knight

abbrev pub null : Move
null = 65

abbrev pub no_move : Move
no_move = 0

unfoldable pub is_ok : Move → Bool
is_ok m = not (no_move == m) && not (null == m)

-- `operator bool`.
abbrev pub is_some_move : Move → Bool
is_some_move m = not (m == 0)

-- A step of a congruential generator.
unfoldable pub make_key : ℕ → ℕ
make_key seed = u64 (seed * 6364136223846793005 + 1442695040888963407)
