-- ===== src/Position/Keys/FullKey.antt =====
-- The key that a position is meant to have, by a sum over the squares, and how it changes with the
-- pieces.
use stockfish.Base.{ℕ, ◌<◌, ◌≡◌, refl, ap, ◌∙◌, false, ◌==◌, arith, if◌then◌else◌, bit_xor}
use stockfish.Base.Arrays.{Array, put, put_at, put_other, xor_below, xor_below_change}
use stockfish.Base.Bits.Xor.{bit_xor_zero}
use stockfish.Types.Board.{Color, Piece, Square, no_piece, sq_none, black, file_of}
use stockfish.Position.Placement.{Placement, put_piece, remove_piece, move_piece}
use stockfish.Position.Placement.Consistency.{IsPiece, IsConsistent, not_none}
use stockfish.Position.Placement.Algebra.{differs_at, move_piece-put_piece}
use stockfish.Position.State.{Key, Zobrist, Position}

-- What a square adds.
unfoldable pub square_key : Zobrist → Piece → Square → Key
square_key z pc s = if pc == no_piece then 0 else z.psq pc s

unfoldable pub board_key : Zobrist → Array Piece → Key
board_key z b = xor_below 64 (λ s. square_key z (b s) s)

unfoldable pub ep_key : Zobrist → Square → Key
ep_key z s = if s == sq_none then 0 else z.enpassant (file_of s)

unfoldable pub side_key : Zobrist → Color → Key
side_key z c = if c == black then z.side else 0

-- The pieces, the side to move, the en passant square and the castling rights.
unfoldable pub full_key : Zobrist → Position → Key
full_key z p =
    bit_xor
      (bit_xor (bit_xor (board_key z p.placement.board) (side_key z p.side_to_move))
        (ep_key z p.st.ep_square))
      (z.castling p.st.castling_rights)

board_key-put :
    (z : Zobrist) (b : Array Piece) (s : ℕ) (x : Piece)
    → s < 64
    → board_key z (put b s x)
      ≡ bit_xor (bit_xor (board_key z b) (square_key z (b s) s)) (square_key z x s)
unfolding board_key
board_key-put z b s x h =
    xor_below_change 64 s (λ j. square_key z (b j) j) (λ j. square_key z (put b s x j) j) h
      (λ j k. ap (λ y. square_key z y j) (put_other b s j x k))
    ∙ ap (λ y. bit_xor (bit_xor (board_key z b) (square_key z (b s) s)) (square_key z y s))
        (put_at b s x)

square_key-piece : (z : Zobrist) (pc s : ℕ) → IsPiece pc → square_key z pc s ≡ z.psq pc s
unfolding square_key
square_key-piece z pc s v =
    let occupied : (pc == no_piece) ≡ false = ground (arith, not_none pc v) in rw occupied refl

-- A piece put on an empty square adds its key.
pub board_key-put_piece :
    (z : Zobrist) (p : Placement) (pc s : ℕ)
    → s < 64
    → IsPiece pc
    → p.board s ≡ no_piece
    → board_key z (put_piece pc s p).board ≡ bit_xor (board_key z p.board) (z.psq pc s)
unfolding put_piece square_key
board_key-put_piece z p pc s h v e =
    board_key-put z p.board s pc h
    ∙ rw (e, bit_xor_zero (board_key z p.board))
        (ap (bit_xor (board_key z p.board)) (square_key-piece z pc s v))

pub board_key-remove_piece :
    (z : Zobrist) (p : Placement) (s : ℕ)
    → s < 64
    → IsPiece (p.board s)
    → board_key z (remove_piece s p).board ≡ bit_xor (board_key z p.board) (z.psq (p.board s) s)
unfolding remove_piece square_key
board_key-remove_piece z p s h v =
    board_key-put z p.board s no_piece h
    ∙ bit_xor_zero (bit_xor (board_key z p.board) (square_key z (p.board s) s))
    ∙ ap (bit_xor (board_key z p.board)) (square_key-piece z (p.board s) s v)

pub board_key-move_piece :
    (z : Zobrist) (p : Placement) (from to : ℕ)
    → IsConsistent p
    → from < 64
    → to < 64
    → IsPiece (p.board from)
    → p.board to ≡ no_piece
    → board_key z (move_piece from to p).board
      ≡ bit_xor
          (bit_xor (board_key z p.board) (z.psq (p.board from) from))
          (z.psq (p.board from) to)
unfolding remove_piece
board_key-move_piece z p from to c h k v e =
    ap (λ x. board_key z x.board) (move_piece-put_piece p from to c h k v e)
    ∙ board_key-put_piece z (remove_piece from p) (p.board from) to k v
        (put_other p.board from to no_piece (differs_at p.board to from e v) ∙ e)
    ∙ ap (λ y. bit_xor y (z.psq (p.board from) to)) (board_key-remove_piece z p from h v)
