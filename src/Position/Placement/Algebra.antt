-- ===== src/Position/Placement/Algebra.antt =====
-- Placements that agree with themselves are equal where their squares are, and the laws of the
-- operations that follow.
use stockfish.Base.{ℕ, ◌<◌, ◌≡◌, inl, inr, refl, sym, ap, ◌∙◌, false, ◌==◌, arith, Bool-cases}
use stockfish.Base.Arrays.{Array, put, count_below, put_other, put_at}
use stockfish.Base.Bits.Xor.{eq_of_digits}
use stockfish.Base.Int.{pos}
use stockfish.Types.Board.{Piece, no_piece}
use stockfish.Position.Placement.{Placement, put_piece, remove_piece, move_piece}
use stockfish.Position.Placement.Consistency.{
  IsPiece, IsConsistent, of_type, of_color, counted, not_none,
}
use stockfish.Position.Placement.Putting.{put_piece-IsConsistent}
use stockfish.Position.Placement.Removing.{remove_piece-IsConsistent}
use stockfish.Position.Placement.Moving.{move_piece-IsConsistent}

-- The squares decide the sets and the numbers: two placements in which the three agree, and whose
-- squares hold the same pieces, are equal.
pub eq_of_board :
    (p q : Placement) → IsConsistent p → IsConsistent q → ((s : ℕ) → p.board s ≡ q.board s) → p ≡ q
eq_of_board p q c d h =
    let boards : p.board ≡ q.board = λ i s. h s i in
    let types : p.by_type_bb ≡ q.by_type_bb = λ i t.
      eq_of_digits (p.by_type_bb t) (q.by_type_bb t)
        (λ s. c.types t s ∙ ap (of_type t) (h s) ∙ sym (d.types t s)) i in
    let colors : p.by_color_bb ≡ q.by_color_bb = λ i k.
      eq_of_digits (p.by_color_bb k) (q.by_color_bb k)
        (λ s. c.colors k s ∙ ap (of_color k) (h s) ∙ sym (d.colors k s)) i in
    let counts : p.piece_count ≡ q.piece_count = λ i n.
      (c.counts n
          ∙ ap (λ (b : Array Piece). pos (count_below 64 (λ s. counted n (b s)))) boards
          ∙ sym (d.counts n))
        i in
    λ i. record {
      board = boards i;
      by_type_bb = types i;
      by_color_bb = colors i;
      piece_count = counts i;
    }

-- A square in an array that was changed elsewhere, or that differs by its content.
pub differs_at : (b : Array Piece) (s t : ℕ) → b s ≡ no_piece → IsPiece (b t) → (s == t) ≡ false
differs_at b s t e v = elim (Bool-cases (s == t)) [
  | inl q ↦
      let same : t ≡ s = ground arith in absurd (ground (arith, not_none (b t) v, ap b same ∙ e))
  | inr q ↦ q
]

module _ (p : Placement) (s : ℕ) (c : IsConsistent p) (h : s < 64) where
  -- A piece put back where it was removed.
  pub put_piece-remove_piece : IsPiece (p.board s) → put_piece (p.board s) s (remove_piece s p) ≡ p
  unfolding put_piece remove_piece put
  put_piece-remove_piece v =
      eq_of_board (put_piece (p.board s) s (remove_piece s p)) p
        (put_piece-IsConsistent (remove_piece s p) (p.board s) s
          (remove_piece-IsConsistent p s c h v) v h (put_at p.board s no_piece))
        c same_board
    where
      same_board : (i : ℕ) → put (put p.board s no_piece) s (p.board s) i ≡ p.board i
      same_board i = elim (Bool-cases (i == s)) [
        | inl q ↦
            let at : i ≡ s = ground arith in rw at (put_at (put p.board s no_piece) s (p.board s))
        | inr q ↦
            put_other (put p.board s no_piece) s i (p.board s) q ∙ put_other p.board s i no_piece q
      ]

  -- A piece removed where it was put.
  pub remove_piece-put_piece :
      (pc : Piece) → IsPiece pc → p.board s ≡ no_piece → remove_piece s (put_piece pc s p) ≡ p
  unfolding put_piece remove_piece put
  remove_piece-put_piece pc v e =
      let placed = put_piece-IsConsistent p pc s c v h e in
      let here : put p.board s pc s ≡ pc = put_at p.board s pc in
      eq_of_board (remove_piece s (put_piece pc s p)) p
        (remove_piece-IsConsistent (put_piece pc s p) s placed h (rw here v)) c same_board
    where
      same_board : (i : ℕ) → put (put p.board s pc) s no_piece i ≡ p.board i
      same_board i = elim (Bool-cases (i == s)) [
        | inl q ↦
            let at : i ≡ s = ground arith in rw at (put_at (put p.board s pc) s no_piece ∙ sym e)
        | inr q ↦ put_other (put p.board s pc) s i no_piece q ∙ put_other p.board s i pc q
      ]

-- A piece moved to an empty square is removed, and put there.
pub move_piece-put_piece :
    (p : Placement) (from to : ℕ)
    → IsConsistent p
    → from < 64
    → to < 64
    → IsPiece (p.board from)
    → p.board to ≡ no_piece
    → move_piece from to p ≡ put_piece (p.board from) to (remove_piece from p)
unfolding put_piece remove_piece move_piece put
move_piece-put_piece p from to c h k v e =
    let other : (to == from) ≡ false = differs_at p.board to from e v in
    eq_of_board (move_piece from to p) (put_piece (p.board from) to (remove_piece from p))
      (move_piece-IsConsistent p from to c h k v e)
      (put_piece-IsConsistent (remove_piece from p) (p.board from) to
        (remove_piece-IsConsistent p from c h v) v k (rw other e))
      (λ i. refl)

-- Two pieces put on two empty squares, in either order.
pub put_piece-put_piece :
    (p : Placement) (a b s t : ℕ)
    → IsConsistent p
    → s < 64
    → t < 64
    → IsPiece a
    → IsPiece b
    → (s == t) ≡ false
    → p.board s ≡ no_piece
    → p.board t ≡ no_piece
    → put_piece a s (put_piece b t p) ≡ put_piece b t (put_piece a s p)
unfolding put_piece put
put_piece-put_piece p a b s t c h k v w apart e f =
    let apart' : (t == s) ≡ false = ground (arith, apart) in
    eq_of_board (put_piece a s (put_piece b t p)) (put_piece b t (put_piece a s p))
      (put_piece-IsConsistent (put_piece b t p) a s (put_piece-IsConsistent p b t c w k f) v h
        (rw apart e))
      (put_piece-IsConsistent (put_piece a s p) b t (put_piece-IsConsistent p a s c v h e) w k
        (rw apart' f))
      (λ i. put-put p.board a b s t i apart)
  where
    put-put :
        (x : Array Piece) (a b s t i : ℕ)
        → (s == t) ≡ false
        → put (put x t b) s a i ≡ put (put x s a) t b i
    put-put x a b s t i apart = ground (arith, apart)
