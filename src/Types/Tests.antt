-- ===== src/Types/Tests.antt =====
-- src/engine/types.h and basetypes.h: concrete moves and squares, and the theorems at them.
use stockfish.Base.{ℕ, ◌+◌, ◌-◌, ◌^◌, ◌<◌, ◌≡◌, refl, ◌⊎◌, ◌↔◌, false, arith}
use stockfish.Basetypes.{mul_hi64, mul_hi64_by_halves}
use stockfish.Basetypes.MulHigh.{mul_hi64_by_halves-mul_hi64}
use stockfish.Types.Board.{
  make_square, make_piece, type_of, color_of, file_of, rank_of, swap_color, opposite, flip_rank,
  flip_file, relative_square, relative_rank_of,
}
use stockfish.Types.Board.Symmetry.{
  make_square_fields, make_piece_fields, relative_square_fields, flip_fields,
}
use stockfish.Types.Moves.{
  of_squares, make, from_sq, to_sq, move_type, promotion_type, is_ok, normal, promotion,
}
use stockfish.Types.Moves.Encoding.{make_fields, make_of_fields, of_squares-is_ok}

-- e7e8 with promotion to a queen.
abbrev e7e8q : ℕ
e7e8q = 0x7D3C

e7e8q_made : make promotion 52 60 5 ≡ e7e8q
unfolding make
e7e8q_made = refl

mul_hi64_by_halves-mul_hi64_example :
    mul_hi64_by_halves (2 ^ 64 - 1) (2 ^ 40 + 1) ≡ mul_hi64 (2 ^ 64 - 1) (2 ^ 40 + 1)
mul_hi64_by_halves-mul_hi64_example =
    mul_hi64_by_halves-mul_hi64 (2 ^ 64 - 1) (2 ^ 40 + 1) (omega arith) (omega arith)

make_fields_example :
    (move_type (make promotion 52 60 5) ≡ promotion)
    × (from_sq (make promotion 52 60 5) ≡ 52)
    × (to_sq (make promotion 52 60 5) ≡ 60)
    × (promotion_type (make promotion 52 60 5) ≡ 5)
    × (make promotion 52 60 5 < 2 ^ 16)
make_fields_example =
    make_fields 1 52 60 5 (omega arith) (omega arith) (omega arith) (omega arith) (omega arith)

make_of_fields_example :
    make (move_type e7e8q) (from_sq e7e8q) (to_sq e7e8q) (promotion_type e7e8q) ≡ e7e8q
make_of_fields_example = make_of_fields e7e8q (omega arith)

of_squares-is_ok_example :
    (of_squares 12 28 ≡ make normal 12 28 2)
    × ((is_ok (of_squares 12 28) ≡ false)
        ↔ ((◌≡◌ {A = ℕ} 12 0 × ◌≡◌ {A = ℕ} 28 0) ⊎ (◌≡◌ {A = ℕ} 12 1 × ◌≡◌ {A = ℕ} 28 1)))
of_squares-is_ok_example = of_squares-is_ok 12 28 (omega arith) (omega arith)

make_square_fields_example :
    (file_of (make_square 4 3) ≡ 4)
    × (rank_of (make_square 4 3) ≡ 3)
    × (make_square 4 3 < 64)
    × (make_square (file_of 28) (rank_of 28) ≡ 28)
make_square_fields_example = make_square_fields 4 3 28 (omega arith) (omega arith) (omega arith)

make_piece_fields_example :
    (type_of (make_piece 1 2) ≡ 2)
    × (color_of (make_piece 1 2) ≡ 1)
    × (swap_color (make_piece 1 2) ≡ make_piece (opposite 1) 2)
    × (swap_color (swap_color (make_piece 1 2)) ≡ make_piece 1 2)
make_piece_fields_example = make_piece_fields 1 2 (omega arith) (omega arith)

relative_square_fields_example :
    (file_of (relative_square 1 12) ≡ file_of 12)
    × (rank_of (relative_square 1 12) ≡ 7 - rank_of 12)
    × (relative_rank_of 1 12 ≡ rank_of (relative_square 1 12))
    × (relative_square 1 (relative_square 1 12) ≡ 12)
relative_square_fields_example = relative_square_fields 1 12 (omega arith) (omega arith)

flip_fields_example :
    (flip_rank 12 ≡ make_square (file_of 12) (7 - rank_of 12))
    × (flip_file 12 ≡ make_square (7 - file_of 12) (rank_of 12))
    × (flip_rank (flip_rank 12) ≡ 12)
    × (flip_file (flip_file 12) ≡ 12)
    × (flip_rank (flip_file 12) ≡ flip_file (flip_rank 12))
flip_fields_example = flip_fields 12 (omega arith)
