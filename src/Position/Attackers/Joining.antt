-- ===== src/Position/Attackers/Joining.antt =====
-- src/engine/position.h: `xattacks_by` and the attacks of the pieces that it joins.
use stockfish.Base.{
  ℕ, ◌≤◌, ◌<◌, ◌≡◌, ◌≢◌, refl, sym, ap, ◌∙◌, inl, inr, true, false, ◌==◌, Bool-cases, ltb, List, [],
  ◌∷◌, bit_or, arith,
}
use stockfish.Base.Filters.{tally}
use stockfish.Base.Bits.{test_bit, test_bit-bit_and, test_bit-bit_or}
use stockfish.Types.Board.{
  Color, PieceType, Square, no_piece, pawn, white, black, type_of, color_of,
}
use stockfish.Bitboard.{Bitboard, pawn_attacks_bb, squares_of}
use stockfish.Bitboard.Within.{pawn_attacks-Within}
use stockfish.Bitboard.Scanning.{squares_of-tally}
use stockfish.Attacks.{attacks_bb, pawn_attacks, piece_attacks_bb}
use stockfish.Position.Placement.{Placement}
use stockfish.Position.Placement.Consistency.{IsConsistent, of_type, of_color}
use stockfish.Position.State.{colored_of}
use stockfish.Position.Attackers.{join_attacks, xattacks_by}

module _ (pt : PieceType) (occupied : Bitboard) (i : ℕ) where
  join_attacks-nil : (threats : Bitboard) → join_attacks pt occupied [] threats ≡ threats
  unfolding join_attacks
  join_attacks-nil threats = refl

  join_attacks-cons :
      (s : Square) (ss : List Square) (threats : Bitboard)
      → join_attacks pt occupied (s ∷ ss) threats
        ≡ join_attacks pt occupied ss (bit_or threats (attacks_bb pt s occupied))
  unfolding join_attacks
  join_attacks-cons s ss threats = refl

  join_attacks-keeps :
      (ss : List Square) (threats : Bitboard)
      → test_bit threats i ≡ true
      → test_bit (join_attacks pt occupied ss threats) i ≡ true
  join_attacks-keeps [] threats h = ap (λ b. test_bit b i) (join_attacks-nil threats) ∙ h
  join_attacks-keeps (s ∷ ss) threats h =
      ap (λ b. test_bit b i) (join_attacks-cons s ss threats)
      ∙ join_attacks-keeps ss (bit_or threats (attacks_bb pt s occupied))
          (ground (arith, test_bit-bit_or i threats (attacks_bb pt s occupied)))

  join_attacks-covers :
      (ss : List Square) (threats : Bitboard) (s : Square)
      → 1 ≤ tally (λ t. t == s) ss
      → test_bit (attacks_bb pt s occupied) i ≡ true
      → test_bit (join_attacks pt occupied ss threats) i ≡ true
  unfolding tally
  join_attacks-covers [] threats s h e = absurd (omega arith)
  join_attacks-covers (t ∷ ts) threats s h e =
      ap (λ b. test_bit b i) (join_attacks-cons t ts threats) ∙ elim (Bool-cases (t == s)) [
        | inl k ↦
            let same : t ≡ s = ground arith in
            let here : test_bit (attacks_bb pt t occupied) i ≡ true =
              ap (λ x. test_bit (attacks_bb pt x occupied) i) same ∙ e in
            join_attacks-keeps ts (bit_or threats (attacks_bb pt t occupied))
              (ground (arith, test_bit-bit_or i threats (attacks_bb pt t occupied)))
        | inr k ↦
            join_attacks-covers ts (bit_or threats (attacks_bb pt t occupied)) s (ground arith) e
      ]

of_color-none : (c : Color) → of_color c no_piece ≡ false
unfolding of_color
of_color-none c = refl

module _ (p : Placement) (c : IsConsistent p) (them : Color) (occupied : Bitboard) where
  piece_there :
      (s : Square)
      → p.board s ≢ 0
      → color_of (p.board s) ≡ them
      → test_bit (colored_of p them (type_of (p.board s))) s ≡ true
  unfolding colored_of
  piece_there s some own =
      test_bit-bit_and s (p.by_color_bb them) (p.by_type_bb (type_of (p.board s)))
      ∙ rw (c.colors them s, c.types (type_of (p.board s)) s)
          (unfold of_color in unfold of_type in ground arith)

  colored_digit :
      (pt : PieceType) (i : ℕ)
      → test_bit (colored_of p them pt) i ≡ true
      → test_bit (p.by_color_bb them) i ≡ true
  unfolding colored_of
  colored_digit pt i h = ground (arith, test_bit-bit_and i (p.by_color_bb them) (p.by_type_bb pt))

  own_OnBoard : (pt : PieceType) (i : ℕ) → test_bit (colored_of p them pt) i ≡ true → i < 64
  own_OnBoard pt i h = elim (Bool-cases (ltb i 64)) [
    | inl k ↦ ground arith
    | inr k ↦ absurd (off (ground arith) (colored_digit pt i h))
  ]
    where
      off : 64 ≤ i → test_bit (p.by_color_bb them) i ≡ true → ⊥
      off le e =
          let none = c.colors them i ∙ ap (of_color them) (c.on_board i le) ∙ of_color-none them in
          ground (arith, sym none ∙ e)

  xattacks_by-others :
      (pt : PieceType)
      → (pt == pawn) ≡ false
      → xattacks_by p pt them occupied
        ≡ join_attacks pt occupied (squares_of (colored_of p them pt)) 0
  unfolding xattacks_by
  xattacks_by-others pt h = rw h refl

  xattacks_by-pawn :
      them ≤ 1 → xattacks_by p pawn them occupied ≡ pawn_attacks_bb them (colored_of p them pawn)
  unfolding xattacks_by
  xattacks_by-pawn le = elim (Bool-cases (them == white)) [
    | inl e ↦ let at : them ≡ white = ground arith in rw (e, at) refl
    | inr e ↦ let at : them ≡ black = ground arith in rw (e, at) refl
  ]

  piece_attacks_bb-pawn :
      (pc s : ℕ) → type_of pc ≡ pawn → piece_attacks_bb pc s occupied ≡ pawn_attacks (color_of pc) s
  unfolding piece_attacks_bb
  piece_attacks_bb-pawn pc s h = rw h refl

  piece_attacks_bb-others :
      (pc s : ℕ)
      → (type_of pc == pawn) ≡ false
      → piece_attacks_bb pc s occupied ≡ attacks_bb (type_of pc) s occupied
  unfolding piece_attacks_bb
  piece_attacks_bb-others pc s h = rw h refl

  -- What a piece attacks, pieces of its type and colour attack.
  pub xattacks_by-covers :
      (s i : ℕ)
      → them ≤ 1
      → p.board s ≢ 0
      → color_of (p.board s) ≡ them
      → test_bit (piece_attacks_bb (p.board s) s occupied) i ≡ true
      → test_bit (xattacks_by p (type_of (p.board s)) them occupied) i ≡ true
  xattacks_by-covers s i le some own e =
      let there = piece_there s some own in
      let pt = type_of (p.board s) in
      elim (Bool-cases (pt == pawn)) [
        | inl h ↦
            let same : pt ≡ pawn = ground arith in
            let pawns = piece_attacks_bb-pawn (p.board s) s same ∙ ap (λ k. pawn_attacks k s) own in
            ap (λ t. test_bit (xattacks_by p t them occupied) i) same
            ∙ ap (λ b. test_bit b i) (xattacks_by-pawn le)
            ∙ pawn_attacks-Within them (colored_of p them pawn) s
                (ap (λ t. test_bit (colored_of p them t) s) (sym same) ∙ there) i
                (ap (λ b. test_bit b i) (sym pawns) ∙ e)
        | inr h ↦
            ap (λ b. test_bit b i) (xattacks_by-others pt h)
            ∙ join_attacks-covers pt occupied i (squares_of (colored_of p them pt)) 0 s
                (ground (arith, squares_of-tally (colored_of p them pt) s (own_OnBoard pt), there))
                (ap (λ b. test_bit b i) (sym (piece_attacks_bb-others (p.board s) s h)) ∙ e)
      ]
