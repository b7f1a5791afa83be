-- ===== src/Types/Board.antt =====
-- src/engine/types.h: colours, squares, files, ranks and pieces. A C++ enumeration with a fixed
-- underlying type is the number that it stores, since the code computes with that number.
pub mod Symmetry
use stockfish.Base.{
  ℕ, ◌+◌, ◌*◌, ◌/◌, ◌^◌, bit_and, bit_xor, Bool, leb, ◌&&◌, ◌==◌, if◌then◌else◌, [], ◌∷◌,
}
use stockfish.Base.Int.{ℤ, pos, negsuc, ◌+ℤ◌, ◌-ℤ◌}
use stockfish.Base.Lists.{get_or}
use stockfish.Base.Words.{u8, to_unsigned}

abbrev pub Color : Type 0
Color = ℕ

abbrev pub white : Color
white = 0

abbrev pub black : Color
black = 1

abbrev pub PieceType : Type 0
PieceType = ℕ

abbrev pub all_pieces : PieceType
all_pieces = 0

abbrev pub pawn : PieceType
pawn = 1

abbrev pub knight : PieceType
knight = 2

abbrev pub bishop : PieceType
bishop = 3

abbrev pub rook : PieceType
rook = 4

abbrev pub queen : PieceType
queen = 5

abbrev pub king : PieceType
king = 6

abbrev pub Piece : Type 0
Piece = ℕ

abbrev pub no_piece : Piece
no_piece = 0

abbrev pub Square : Type 0
Square = ℕ

abbrev pub sq_none : Square
sq_none = 64

-- `operator~(Color)`.
unfoldable pub opposite : Color → Color
opposite c = bit_xor c black

unfoldable pub flip_rank : Square → Square
flip_rank s = bit_xor s 56

unfoldable pub flip_file : Square → Square
flip_file s = bit_xor s 7

-- `operator~(Piece)`.
unfoldable pub swap_color : Piece → Piece
swap_color pc = bit_xor pc 8

unfoldable pub make_square : ℕ → ℕ → Square
make_square f r = u8 (r * 2 ^ 3 + f)

unfoldable pub make_piece : Color → PieceType → Piece
make_piece c pt = u8 (c * 2 ^ 3 + pt)

unfoldable pub type_of : Piece → PieceType
type_of pc = bit_and pc 7

unfoldable pub color_of : Piece → Color
color_of pc = pc / 2 ^ 3

unfoldable pub is_ok : Square → Bool
is_ok s = leb 0 s && leb s 63

unfoldable pub file_of : Square → ℕ
file_of s = bit_and s 7

unfoldable pub rank_of : Square → ℕ
rank_of s = s / 2 ^ 3

unfoldable pub relative_square : Color → Square → Square
relative_square c s = bit_xor s (c * 56)

unfoldable pub relative_rank : Color → ℕ → ℕ
relative_rank c r = bit_xor r (c * 7)

unfoldable pub relative_rank_of : Color → Square → ℕ
relative_rank_of c s = relative_rank c (rank_of s)

-- `pawn_push`: a step of one rank, and the square that it leads to (`operator+` and `operator-`).
abbrev pub pawn_push : Color → ℤ
pawn_push c = if c == white then pos 8 else negsuc 7

unfoldable pub step_by : Square → ℤ → Square
unfolding ◌+ℤ◌
step_by s d = to_unsigned (2 ^ 8) (pos s +ℤ d)

unfoldable pub step_back : Square → ℤ → Square
unfolding ◌-ℤ◌
step_back s d = to_unsigned (2 ^ 8) (pos s -ℤ d)

-- `PieceValue`, indexed by the piece; `VALUE_ZERO` is 0.
unfoldable pub piece_value : Piece → ℤ
piece_value pc =
    get_or
      (pos 0
        ∷ pos 208
        ∷ pos 781
        ∷ pos 825
        ∷ pos 1276
        ∷ pos 2538
        ∷ pos 0
        ∷ pos 0
        ∷ pos 0
        ∷ pos 208
        ∷ pos 781
        ∷ pos 825
        ∷ pos 1276
        ∷ pos 2538
        ∷ pos 0
        ∷ pos 0
        ∷ [])
      pc (pos 0)
