-- ===== src/Position/Placement/Putting.antt =====
-- `put_piece` keeps the squares, the sets and the numbers in agreement.
use stockfish.Base.{
  ℕ, ◌+◌, bit_or, ◌<◌, ◌≡◌, inl, inr, refl, ap, true, false, not, ◌||◌, ◌==◌, arith, to_ℕ,
  Bool-cases, if◌then◌else◌,
}
use stockfish.Base.Arrays.{put, count_below, count_below_change, put_other, put_at}
use stockfish.Base.Bits.{test_bit, test_bit-bit_or}
use stockfish.Base.Int.{pos, ◌+ℤ◌}
use stockfish.Types.Board.{no_piece, type_of, color_of}
use stockfish.Bitboard.{with_square}
use stockfish.Bitboard.Squares.{test_bit-with_square}
use stockfish.Position.Placement.{Placement, put_piece}
use stockfish.Position.Placement.Consistency.{
  IsPiece, IsConsistent, of_type, of_color, counted, test_bit-put, not_none, count_up-counted,
}

of_type-put :
    (pc q t s i : ℕ)
    → not (pc == no_piece) ≡ true
    → not (type_of pc == 0) ≡ true
    → ((s == i) ≡ true → q ≡ no_piece)
    → (if t == 0
        then (if 0 == type_of pc then of_type (type_of pc) q || s == i else of_type 0 q)
          || (of_type (type_of pc) q || s == i)
        else if t == type_of pc
        then of_type (type_of pc) q || s == i
        else of_type t q)
      ≡ of_type t (if i == s then pc else q)
unfolding of_type
of_type-put pc q t s i h k e = elim (Bool-cases (s == i)) [
  | inl at ↦ let same : s ≡ i = ground arith in rw (e at, same) (ground arith)
  | inr other ↦ ground arith
]

pos_add : (a b n : ℕ) → n ≡ a + b → pos a +ℤ pos b ≡ pos n
unfolding ◌+ℤ◌
pos_add a b n h = ground arith

-- A piece put on an empty square of the board.
module _ (p : Placement) (pc s : ℕ) (c : IsConsistent p) (v : IsPiece pc) (h : s < 64)
    (e : p.board s ≡ no_piece) where
  put_piece-types :
      (t i : ℕ)
      → test_bit ((put_piece pc s p).by_type_bb t) i ≡ of_type t ((put_piece pc s p).board i)
  unfolding put_piece put
  put_piece-types t i =
      let ty = type_of pc in
      let own = with_square (p.by_type_bb ty) s in
      let types = put p.by_type_bb ty own in
      rw
        (
          test_bit-put types 0 (bit_or (types 0) own) t i,
          test_bit-bit_or i (types 0) own,
          test_bit-put p.by_type_bb ty own 0 i,
          test_bit-put p.by_type_bb ty own t i,
          test_bit-with_square (p.by_type_bb ty) s i,
          c.types ty i,
          c.types t i,
          c.types 0 i,
        )
        (of_type-put pc (p.board i) t s i (not_none pc v) v.typed
          (λ k. let same : s ≡ i = ground arith in rw (← same) e))

  put_piece-colors :
      (k i : ℕ)
      → test_bit ((put_piece pc s p).by_color_bb k) i ≡ of_color k ((put_piece pc s p).board i)
  unfolding put_piece put of_color
  put_piece-colors k i =
      let own = with_square (p.by_color_bb (color_of pc)) s in
      rw
        (
          test_bit-put p.by_color_bb (color_of pc) own k i,
          test_bit-with_square (p.by_color_bb (color_of pc)) s i,
          c.colors (color_of pc) i,
          c.colors k i,
        )
        (elim (Bool-cases (s == i)) [
          | inl at ↦
              let same : s ≡ i = ground arith in
              let vacant : p.board i ≡ no_piece = rw (← same) e in
              rw (vacant, same) (ground (arith, not_none pc v))
          | inr other ↦ ground arith
        ])

  put_piece-counts :
      (i : ℕ)
      → (put_piece pc s p).piece_count i
        ≡ pos (count_below 64 (λ j. counted i ((put_piece pc s p).board j)))
  unfolding put_piece counted
  put_piece-counts i =
      let before = p.board in
      let after = put p.board s pc in
      let change =
        count_below_change 64 s (λ j. counted i (before j)) (λ j. counted i (after j)) h
          (λ j k. ap (counted i) (put_other before s j pc k)) in
      let gone : to_ℕ (counted i (before s)) ≡ 0 = rw e refl in
      let come : counted i (after s) ≡ counted i pc = ap (counted i) (put_at before s pc) in
      rw (count_up-counted p.piece_count pc i v, c.counts i)
        (pos_add (count_below 64 (λ j. counted i (before j))) (to_ℕ (counted i pc))
          (count_below 64 (λ j. counted i (after j))) (omega (arith, change, gone, ap to_ℕ come)))

  -- A piece put on an empty square of the board keeps squares, sets and numbers in agreement.
  pub put_piece-IsConsistent : IsConsistent (put_piece pc s p)
  unfolding put_piece put
  put_piece-IsConsistent = record {
    on_board = λ i k. let other : (i == s) ≡ false = ground arith in rw other (c.on_board i k);
    pieces = λ i. elim (Bool-cases (i == s)) [ inl k ↦ rw k (inr v) | inr k ↦ rw k (c.pieces i) ];
    types = put_piece-types;
    colors = put_piece-colors;
    counts = put_piece-counts;
  }
