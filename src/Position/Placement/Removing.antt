-- ===== src/Position/Placement/Removing.antt =====
-- `remove_piece` keeps the squares, the sets and the numbers in agreement.
use stockfish.Base.{
  ℕ, ◌+◌, ◌<◌, ◌≡◌, inl, inr, refl, sym, ap, true, false, not, ◌==◌, arith, to_ℕ, Bool-cases,
  if◌then◌else◌,
}
use stockfish.Base.Arrays.{put, count_below, count_below_change, put_other, put_at}
use stockfish.Base.Bits.{test_bit}
use stockfish.Base.Int.{pos, ◌-ℤ◌}
use stockfish.Base.Tests.{differs}
use stockfish.Types.Board.{no_piece, type_of, color_of}
use stockfish.Bitboard.{toggle_square}
use stockfish.Bitboard.Squares.{test_bit-toggle_square}
use stockfish.Position.Placement.{Placement, remove_piece}
use stockfish.Position.Placement.Consistency.{
  IsPiece, IsConsistent, of_type, of_color, counted, test_bit-put, not_none, count_down-counted,
}

of_type-remove :
    (pc t s i : ℕ)
    → (q : ℕ) → not (q == no_piece) ≡ true
    → not (type_of q == 0) ≡ true
    → ((s == i) ≡ true → pc ≡ q)
    → (if t == type_of q
        then differs
            (if type_of q == 0 then differs (of_type 0 pc) (s == i) else of_type (type_of q) pc)
            (s == i)
        else if t == 0
        then differs (of_type 0 pc) (s == i)
        else of_type t pc)
      ≡ of_type t (if i == s then no_piece else pc)
unfolding of_type
of_type-remove pc t s i q h k e = elim (Bool-cases (s == i)) [
  | inl at ↦ let same : s ≡ i = ground arith in rw (e at, same) (ground arith)
  | inr other ↦ ground arith
]

pos_sub : (a b n : ℕ) → a ≡ n + b → pos a -ℤ pos b ≡ pos n
unfolding ◌-ℤ◌
pos_sub a b n h = ground arith

-- A piece removed from its square.
module _ (p : Placement) (s : ℕ) (c : IsConsistent p) (h : s < 64) (v : IsPiece (p.board s)) where
  remove_piece-types :
      (t i : ℕ)
      → test_bit ((remove_piece s p).by_type_bb t) i ≡ of_type t ((remove_piece s p).board i)
  unfolding remove_piece put
  remove_piece-types t i =
      let ty = type_of (p.board s) in
      let all = toggle_square (p.by_type_bb 0) s in
      let types = put p.by_type_bb 0 all in
      rw
        (
          test_bit-put types ty (toggle_square (types ty) s) t i,
          test_bit-toggle_square (types ty) s i,
          test_bit-put p.by_type_bb 0 all ty i,
          test_bit-put p.by_type_bb 0 all t i,
          test_bit-toggle_square (p.by_type_bb 0) s i,
          c.types ty i,
          c.types t i,
          c.types 0 i,
        )
        (of_type-remove (p.board i) t s i (p.board s) (not_none (p.board s) v) v.typed
          (λ k. let same : s ≡ i = ground arith in ap p.board (sym same)))

  remove_piece-colors :
      (k i : ℕ)
      → test_bit ((remove_piece s p).by_color_bb k) i ≡ of_color k ((remove_piece s p).board i)
  unfolding remove_piece put of_color
  remove_piece-colors k i =
      let us = color_of (p.board s) in
      rw
        (
          test_bit-put p.by_color_bb us (toggle_square (p.by_color_bb us) s) k i,
          test_bit-toggle_square (p.by_color_bb us) s i,
          c.colors us i,
          c.colors k i,
        )
        (elim (Bool-cases (s == i)) [
          | inl at ↦
              let same : s ≡ i = ground arith in
              rw (← same) (ground (arith, not_none (p.board s) v))
          | inr other ↦ ground arith
        ])

  remove_piece-counts :
      (i : ℕ)
      → (remove_piece s p).piece_count i
        ≡ pos (count_below 64 (λ j. counted i ((remove_piece s p).board j)))
  unfolding remove_piece counted
  remove_piece-counts i =
      let before = p.board in
      let after = put p.board s no_piece in
      let change =
        count_below_change 64 s (λ j. counted i (before j)) (λ j. counted i (after j)) h
          (λ j k. ap (counted i) (put_other before s j no_piece k)) in
      let gone : to_ℕ (counted i (after s)) ≡ 0 = rw (put_at before s no_piece) refl in
      rw (count_down-counted p.piece_count (p.board s) i v, c.counts i)
        (pos_sub (count_below 64 (λ j. counted i (before j))) (to_ℕ (counted i (before s)))
          (count_below 64 (λ j. counted i (after j))) (omega (arith, change, gone)))

  -- A piece removed from its square keeps squares, sets and numbers in agreement.
  pub remove_piece-IsConsistent : IsConsistent (remove_piece s p)
  unfolding remove_piece put
  remove_piece-IsConsistent = record {
    on_board = λ i k. let other : (i == s) ≡ false = ground arith in rw other (c.on_board i k);
    pieces =
        λ i. elim (Bool-cases (i == s)) [ inl k ↦ rw k (inl refl) | inr k ↦ rw k (c.pieces i) ];
    types = remove_piece-types;
    colors = remove_piece-colors;
    counts = remove_piece-counts;
  }
