-- ===== src/Position/Placement.antt =====
-- src/engine/position.h: the squares of `Position`, the sets of squares by type and by colour, and the
-- numbers of pieces, with the four operations that change them. The lists of changed threats, which
-- the evaluation network reads, are not modelled.
pub mod Algebra
pub mod Consistency
pub mod Moving
pub mod Putting
pub mod Removing
use stockfish.Base.{ℕ, bit_or, bit_xor, Bool, not, ◌==◌}
use stockfish.Base.Arrays.{Array, put}
use stockfish.Base.Int.{ℤ, pos, ◌+ℤ◌, ◌-ℤ◌}
use stockfish.Types.Board.{
  Color, PieceType, Piece, Square, all_pieces, no_piece, make_piece, type_of, color_of,
}
use stockfish.Bitboard.{Bitboard, with_square, toggle_square, two_squares}

pub record Placement : Type 0 where
  pub board : Array Piece
  pub by_type_bb : Array Bitboard
  pub by_color_bb : Array Bitboard
  pub piece_count : Array ℤ

unfoldable pub empty : Placement → Square → Bool
empty p s = p.board s == no_piece

-- The two counters of a piece: its own, and the one of all pieces of its colour.
unfoldable pub count_up : Array ℤ → Piece → Array ℤ
unfolding ◌+ℤ◌
count_up n pc =
    let own = put n pc (n pc +ℤ pos 1) in
    let all = make_piece (color_of pc) all_pieces in put own all (own all +ℤ pos 1)

unfoldable pub count_down : Array ℤ → Piece → Array ℤ
unfolding ◌-ℤ◌
count_down n pc =
    let own = put n pc (n pc -ℤ pos 1) in
    let all = make_piece (color_of pc) all_pieces in put own all (own all -ℤ pos 1)

-- The set of the type is changed first, and all of it is joined to the set of all pieces.
unfoldable pub put_piece : Piece → Square → Placement → Placement
put_piece pc s p =
    let t = type_of pc in
    let c = color_of pc in
    let own = with_square (p.by_type_bb t) s in
    let types = put p.by_type_bb t own in
    record {
      board = put p.board s pc;
      by_type_bb = put types all_pieces (bit_or (types all_pieces) own);
      by_color_bb = put p.by_color_bb c (with_square (p.by_color_bb c) s);
      piece_count = count_up p.piece_count pc;
    }

unfoldable pub remove_piece : Square → Placement → Placement
remove_piece s p =
    let pc = p.board s in
    let t = type_of pc in
    let c = color_of pc in
    let types = put p.by_type_bb all_pieces (toggle_square (p.by_type_bb all_pieces) s) in
    record {
      board = put p.board s no_piece;
      by_type_bb = put types t (toggle_square (types t) s);
      by_color_bb = put p.by_color_bb c (toggle_square (p.by_color_bb c) s);
      piece_count = count_down p.piece_count pc;
    }

unfoldable pub move_piece : Square → Square → Placement → Placement
move_piece from to p =
    let pc = p.board from in
    let t = type_of pc in
    let c = color_of pc in
    let from_to = two_squares from to in
    let types = put p.by_type_bb all_pieces (bit_xor (p.by_type_bb all_pieces) from_to) in
    record {
      board = put (put p.board from no_piece) to pc;
      by_type_bb = put types t (bit_xor (types t) from_to);
      by_color_bb = put p.by_color_bb c (bit_xor (p.by_color_bb c) from_to);
      piece_count = p.piece_count;
    }

unfoldable pub swap_piece : Square → Piece → Placement → Placement
swap_piece s pc p = put_piece pc s (remove_piece s p)
