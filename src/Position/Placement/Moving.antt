-- ===== src/Position/Placement/Moving.antt =====
-- `move_piece` keeps the squares, the sets and the numbers in agreement, and is a removal and a placing.
use stockfish.Base.{
  ℕ, bit_xor, ◌<◌, ◌≡◌, inl, inr, refl, sym, ap, ◌∙◌, true, false, not, ◌||◌, ◌==◌, arith, to_ℕ,
  Bool-cases, if◌then◌else◌,
}
use stockfish.Base.Arrays.{put, count_below, count_below_change, put_other, put_at}
use stockfish.Base.Bits.{test_bit, test_bit-bit_xor}
use stockfish.Base.Int.{pos}
use stockfish.Base.Tests.{differs}
use stockfish.Types.Board.{no_piece, type_of, color_of}
use stockfish.Bitboard.{two_squares}
use stockfish.Bitboard.Squares.{test_bit-two_squares}
use stockfish.Position.Placement.{Placement, move_piece}
use stockfish.Position.Placement.Consistency.{
  IsPiece, IsConsistent, of_type, of_color, counted, test_bit-put, not_none,
}

of_type-move :
    (pc x t from to i : ℕ)
    → not (x == no_piece) ≡ true
    → not (type_of x == 0) ≡ true
    → (from == to) ≡ false
    → ((from == i) ≡ true → pc ≡ x)
    → ((to == i) ≡ true → pc ≡ no_piece)
    → (if t == type_of x
        then differs
            (if type_of x == 0
              then differs (of_type 0 pc) (from == i || to == i)
              else of_type (type_of x) pc)
            (from == i || to == i)
        else if t == 0
        then differs (of_type 0 pc) (from == i || to == i)
        else of_type t pc)
      ≡ of_type t (if i == to then x else if i == from then no_piece else pc)
unfolding of_type
of_type-move pc x t from to i h k apart e f = elim (Bool-cases (from == i)) [
  | inl at ↦ let same : from ≡ i = ground arith in rw (e at, same) (ground arith)
  | inr a ↦ elim (Bool-cases (to == i)) [
    | inl at ↦ let same : to ≡ i = ground arith in rw (f at, same) (ground arith)
    | inr b ↦ ground arith
  ]
]

-- A piece moved to an empty square.
module _ (p : Placement) (from to : ℕ) (c : IsConsistent p) (h : from < 64) (k : to < 64)
    (v : IsPiece (p.board from)) (e : p.board to ≡ no_piece) where
  apart : (from == to) ≡ false
  apart = elim (Bool-cases (from == to)) [
    | inl q ↦
        let same : from ≡ to = ground arith in
        let vacant : p.board from ≡ no_piece = ap p.board same ∙ e in
        absurd (ground (arith, vacant, not_none (p.board from) v))
    | inr q ↦ q
  ]

  move_piece-types :
      (t i : ℕ)
      → test_bit ((move_piece from to p).by_type_bb t) i
        ≡ of_type t ((move_piece from to p).board i)
  unfolding move_piece put
  move_piece-types t i =
      let ty = type_of (p.board from) in
      let both = two_squares from to in
      let all = bit_xor (p.by_type_bb 0) both in
      let types = put p.by_type_bb 0 all in
      rw
        (
          test_bit-put types ty (bit_xor (types ty) both) t i,
          test_bit-bit_xor i (types ty) both,
          test_bit-put p.by_type_bb 0 all ty i,
          test_bit-put p.by_type_bb 0 all t i,
          test_bit-bit_xor i (p.by_type_bb 0) both,
          test_bit-two_squares from to i,
          c.types ty i,
          c.types t i,
          c.types 0 i,
        )
        (of_type-move (p.board i) (p.board from) t from to i (not_none (p.board from) v) v.typed
          apart (λ q. let same : from ≡ i = ground arith in ap p.board (sym same))
          (λ q. let same : to ≡ i = ground arith in ap p.board (sym same) ∙ e))

  move_piece-colors :
      (k i : ℕ)
      → test_bit ((move_piece from to p).by_color_bb k) i
        ≡ of_color k ((move_piece from to p).board i)
  unfolding move_piece put of_color
  move_piece-colors k i =
      let us = color_of (p.board from) in
      let both = two_squares from to in
      rw
        (
          test_bit-put p.by_color_bb us (bit_xor (p.by_color_bb us) both) k i,
          test_bit-bit_xor i (p.by_color_bb us) both,
          test_bit-two_squares from to i,
          c.colors us i,
          c.colors k i,
        )
        (elim (Bool-cases (from == i)) [
          | inl at ↦
              let same : from ≡ i = ground arith in
              rw (← same) (ground (arith, not_none (p.board from) v, apart))
          | inr a ↦ elim (Bool-cases (to == i)) [
            | inl at ↦
                let same : to ≡ i = ground arith in
                let vacant : p.board i ≡ no_piece = ap p.board (sym same) ∙ e in
                rw (vacant, same) (ground (arith, not_none (p.board from) v))
            | inr b ↦ ground arith
          ]
        ])

  move_piece-counts :
      (i : ℕ)
      → (move_piece from to p).piece_count i
        ≡ pos (count_below 64 (λ j. counted i ((move_piece from to p).board j)))
  unfolding move_piece counted
  move_piece-counts i =
      let before = p.board in
      let lifted = put before from no_piece in
      let after = put lifted to (before from) in
      let lift =
        count_below_change 64 from (λ j. counted i (before j)) (λ j. counted i (lifted j)) h
          (λ j q. ap (counted i) (put_other before from j no_piece q)) in
      let drop =
        count_below_change 64 to (λ j. counted i (lifted j)) (λ j. counted i (after j)) k
          (λ j q. ap (counted i) (put_other lifted to j (before from) q)) in
      let lifted_from : to_ℕ (counted i (lifted from)) ≡ 0 =
        rw (put_at before from no_piece) refl in
      let lifted_to : to_ℕ (counted i (lifted to)) ≡ 0 =
        rw (put_other before from to no_piece (ground (arith, apart)), e) refl in
      let come : to_ℕ (counted i (after to)) ≡ to_ℕ (counted i (before from)) =
        ap (λ x. to_ℕ (counted i x)) (put_at lifted to (before from)) in
      c.counts i ∙ ap pos (omega (arith, lift, drop, lifted_from, lifted_to, come))

  -- A piece moved to an empty square keeps squares, sets and numbers in agreement.
  pub move_piece-IsConsistent : IsConsistent (move_piece from to p)
  unfolding move_piece put
  move_piece-IsConsistent = record {
    on_board = λ i q.
        let off_from : (i == from) ≡ false = ground arith in
        let off_to : (i == to) ≡ false = ground arith in rw (off_to, off_from) (c.on_board i q);
    pieces = λ i. elim (Bool-cases (i == to)) [
      | inl q ↦ rw q (inr v)
      | inr q ↦
          rw q
            (elim (Bool-cases (i == from)) [ inl r ↦ rw r (inl refl) | inr r ↦ rw r (c.pieces i) ])
    ];
    types = move_piece-types;
    colors = move_piece-colors;
    counts = move_piece-counts;
  }
