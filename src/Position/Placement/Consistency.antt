-- ===== src/Position/Placement/Consistency.antt =====
-- The squares decide the sets and the numbers, and each operation keeps them in agreement.
use stockfish.Base.{
  ℕ, zero, suc, ◌%◌, ◌≤◌, ◌≡◌, ◌⊎◌, inl, inr, refl, Bool, true, false, not, ◌&&◌, ◌||◌, ◌==◌, arith,
  to_ℕ, Bool-cases, if◌then◌else◌,
}
use stockfish.Base.Arrays.{Array, put, count_below}
use stockfish.Base.Bits.{test_bit}
use stockfish.Base.Int.{ℤ, pos, ◌+ℤ◌, ◌-ℤ◌, +ℤ_zero, -ℤ_zero}
use stockfish.Types.Board.{Color, PieceType, Piece, no_piece, make_piece, type_of, color_of}
use stockfish.Types.Board.Symmetry.{type_of-mod}
use stockfish.Bitboard.{Bitboard}
use stockfish.Position.Placement.{Placement, count_up, count_down}

-- One of the twelve pieces.
pub record IsPiece (pc : Piece) : Type 0 where
  pub typed : not (type_of pc == 0) ≡ true
  pub type_le : type_of pc ≤ 6
  pub color_le : color_of pc ≤ 1
  pub made : make_piece (color_of pc) (type_of pc) ≡ pc

-- Whether a square that holds the piece is in the set of a type, or of a colour; type 0 is all pieces.
unfoldable pub of_type : PieceType → Piece → Bool
of_type t pc = not (pc == no_piece) && (t == 0 || type_of pc == t)

unfoldable pub of_color : Color → Piece → Bool
of_color c pc = not (pc == no_piece) && color_of pc == c

-- Whether a counter counts a square that holds the piece.
unfoldable pub counted : ℕ → Piece → Bool
counted i pc = not (pc == no_piece) && (i == pc || i == make_piece (color_of pc) 0)

pub record IsConsistent (p : Placement) : Type 0 where
  pub on_board : (s : ℕ) → 64 ≤ s → p.board s ≡ no_piece
  pub pieces : (s : ℕ) → (p.board s ≡ no_piece) ⊎ IsPiece (p.board s)
  pub types : (t s : ℕ) → test_bit (p.by_type_bb t) s ≡ of_type t (p.board s)
  pub colors : (c s : ℕ) → test_bit (p.by_color_bb c) s ≡ of_color c (p.board s)
  pub counts : (i : ℕ) → p.piece_count i ≡ pos (count_below 64 (λ s. counted i (p.board s)))

-- The digits of an array of sets with one set replaced.
pub test_bit-put :
    (a : Array Bitboard) (i b t s : ℕ)
    → test_bit (put a i b t) s ≡ (if t == i then test_bit b s else test_bit (a t) s)
unfolding put
test_bit-put a i b t s = elim (Bool-cases (t == i)) [ inl e ↦ rw e refl | inr e ↦ rw e refl ]

pub not_none : (pc : Piece) → IsPiece pc → not (pc == no_piece) ≡ true
unfolding type_of
not_none zero v = absurd (ground (arith, v.typed))
not_none (suc pc) v = ground arith

-- The counter of all pieces of a colour is that of no piece.
pub total_other : (pc : Piece) → IsPiece pc → (make_piece (color_of pc) 0 == pc) ≡ false
unfolding make_piece color_of
total_other pc v =
    let typed : not (pc % 8 == 0) ≡ true = rw (← type_of-mod pc) v.typed in ground arith

pub count_up-counted :
    (n : Array ℤ) (pc i : ℕ) → IsPiece pc → count_up n pc i ≡ n i +ℤ pos (to_ℕ (counted i pc))
unfolding count_up put counted
count_up-counted n pc i v =
    let all = make_piece (color_of pc) 0 in
    elim (Bool-cases (i == all)) [
      | inl e ↦
          let total : i ≡ all = ground arith in
          rw (e, total, total_other pc v, not_none pc v) (ground arith)
      | inr e ↦ elim (Bool-cases (i == pc)) [
        | inl q ↦ let own : i ≡ pc = ground arith in rw (e, own) (ground (arith, not_none pc v))
        | inr q ↦ rw (e, q) (ground (arith, not_none pc v, +ℤ_zero (n i)))
      ]
    ]

pub count_down-counted :
    (n : Array ℤ) (pc i : ℕ) → IsPiece pc → count_down n pc i ≡ n i -ℤ pos (to_ℕ (counted i pc))
unfolding count_down put counted
count_down-counted n pc i v =
    let all = make_piece (color_of pc) 0 in
    elim (Bool-cases (i == all)) [
      | inl e ↦
          let total : i ≡ all = ground arith in
          rw (e, total, total_other pc v, not_none pc v) (ground arith)
      | inr e ↦ elim (Bool-cases (i == pc)) [
        | inl q ↦ let own : i ≡ pc = ground arith in rw (e, own) (ground (arith, not_none pc v))
        | inr q ↦ rw (e, q) (ground (arith, not_none pc v, -ℤ_zero (n i)))
      ]
    ]
