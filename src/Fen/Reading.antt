-- ===== src/Fen/Reading.antt =====
-- What `Position::set` reads: where the cursor is, and that the pieces agree with the sets and numbers.
use stockfish.Base.{
  ℕ, suc, ◌+◌, ◌-◌, ◌*◌, ◌≤◌, ◌<◌, ◌≡◌, ◌≢◌, refl, ap, ◌∙◌, Bool, true, false, not, ◌&&◌, ◌||◌,
  ◌==◌, ltb, leb, if◌then◌else◌, List, [], ◌∷◌, Option, none, some, ◌⊎◌, inl, inr, arith,
  Bool-cases,
}
use stockfish.Base.Lists.{length}
use stockfish.Base.Bits.Tables.{passes_below, passes_below_sound}
use stockfish.Base.Arrays.{put_other}
use stockfish.Types.Board.{type_of, color_of, make_piece, make_square, no_piece}
use stockfish.Position.Placement.{put_piece}
use stockfish.Position.Placement.Consistency.{IsPiece, IsConsistent}
use stockfish.Position.Placement.Putting.{put_piece-IsConsistent}
use stockfish.Fen.{
  FenError, Cursor, skip_squares, end_rank, place_piece, place_token, find_from, char_at,
  piece_to_char, is_digit, is_space,
}

-- The pieces agree with the sets and numbers; the squares that the cursor has not passed are empty.
pub record IsSound (c : Cursor) : Type 0 where
  pub consistent : IsConsistent c.placement
  pub file_le : c.file ≤ 8
  pub rank_le : c.rank ≤ 7
  pub ahead :
      (s : ℕ)
      → s < 8 * c.rank + 8
      → (s < 8 * c.rank) ⊎ (8 * c.rank + c.file ≤ s)
      → c.placement.board s ≡ no_piece

pub make_square-lem : (f r : ℕ) → f < 8 → r ≤ 7 → make_square f r ≡ 8 * r + f
unfolding make_square
make_square-lem f r h k = omega arith

-- A result that is no error is sound.
unfoldable pub Keeps : FenError ⊎ Cursor → Type 0
Keeps (inl e) = Unit
Keeps (inr c) = IsSound c

Keeps-if :
    (b : Bool) (r q : FenError ⊎ Cursor)
    → (b ≡ true → Keeps r)
    → (b ≡ false → Keeps q)
    → Keeps (if b then r else q)
Keeps-if true r q h k = h refl
Keeps-if false r q h k = k refl

-- A letter that is found is that of a piece.
piece_test : ℕ → Bool
piece_test pc =
    is_space (char_at pc piece_to_char)
    || (not (type_of pc == 0)
        && (leb (type_of pc) 6
            && (leb (color_of pc) 1 && make_piece (color_of pc) (type_of pc) == pc)))

pub letter-IsPiece : (pc : ℕ) → pc < 15 → is_space (char_at pc piece_to_char) ≡ false → IsPiece pc
unfolding type_of color_of make_piece
letter-IsPiece pc lt h =
    let test = passes_below_sound 15 piece_test pc table lt in
    let holds : (not (type_of pc == 0)
          && (leb (type_of pc) 6
              && (leb (color_of pc) 1 && make_piece (color_of pc) (type_of pc) == pc)))
        ≡ true =
      unfold piece_test in ground arith in
    record {
      typed = ground arith;
      type_le = ground arith;
      color_le = ground arith;
      made = ground arith;
    }
  where
    table : passes_below 15 piece_test ≡ true
    table = unfold passes_below in unfold piece_test in unfold char_at in refl

found_at :
    (token i : ℕ) (xs : List ℕ) (k : ℕ)
    → find_from i token xs ≡ some k
    → (j : ℕ) × (k ≡ i + j) × (j < length xs) × (char_at j xs ≡ token)
unfolding find_from char_at
found_at token i [] k e = absurd (ground arith)
found_at token i (x ∷ xs) k e = elim (Bool-cases (x == token)) [
  | inl h ↦ (0, ground arith, omega arith, ground arith)
  | inr h ↦
      let rest = found_at token (i + 1) xs k (ground arith) in
      (suc rest.0, omega (arith, rest.1), omega (arith, rest.2), rest.3)
]

found-IsPiece :
    (token pc : ℕ) → is_space token ≡ false → find_from 0 token piece_to_char ≡ some pc → IsPiece pc
found-IsPiece token pc h e =
    let at = found_at token 0 piece_to_char pc e in
    let same : pc ≡ at.0 = omega (arith, at.1) in
    letter-IsPiece pc (omega (arith, at.2))
      (ap is_space (ap (λ k. char_at k piece_to_char) same ∙ at.3) ∙ h)

module _ (c : Cursor) (s : IsSound c) where
  skip_squares-Keeps : (diff : ℕ) → Keeps (skip_squares diff c)
  unfolding skip_squares Keeps
  skip_squares-Keeps diff =
      Keeps-if (ltb diff 1 || ltb 8 diff) (inl FenError.bad_skip) _ (λ e. tt)
        (λ e.
          Keeps-if (ltb 8 (c.file + diff)) (inl FenError.bad_file)
            (inr (record c { file = c.file + diff })) (λ k. tt)
            (λ k. record {
              consistent = s.consistent;
              file_le = ground arith;
              rank_le = s.rank_le;
              ahead = λ i l a. s.ahead i l (further c.file diff c.rank i a);
            }))
    where
      further : (f d r i : ℕ) → (i < 8 * r) ⊎ (8 * r + (f + d) ≤ i) → (i < 8 * r) ⊎ (8 * r + f ≤ i)
      further f d r i (inl l) = inl l
      further f d r i (inr l) = inr (omega arith)

  end_rank-Keeps : Keeps (end_rank c)
  unfolding end_rank Keeps
  end_rank-Keeps =
      Keeps-if (not (c.file == 8)) (inl FenError.early_rank_end) _ (λ e. tt)
        (λ e.
          Keeps-if (c.rank == 0) (inl FenError.bad_rank)
            (inr (record c { rank = c.rank - 1; file = 0 })) (λ k. tt)
            (λ k.
              let some_rank : c.rank ≢ 0 = λ z. absurd (ground arith) in
              record {
                consistent = s.consistent;
                file_le = omega arith;
                rank_le = omega (arith, s.rank_le);
                ahead = λ i l a. s.ahead i (omega arith) (inl (omega arith));
              }))

  place_piece-Keeps :
      (token : ℕ) (idx : Option ℕ)
      → c.file < 8
      → ((pc : ℕ) → idx ≡ some pc → IsPiece pc)
      → Keeps (place_piece token idx c)
  unfolding place_piece Keeps put_piece
  place_piece-Keeps token none lt h = tt
  place_piece-Keeps token (some pc) lt h =
      let at = make_square-lem c.file c.rank lt s.rank_le in
      let square = make_square c.file c.rank in
      let free : c.placement.board square ≡ no_piece =
        s.ahead square (omega (arith, at)) (inr (omega (arith, at))) in
      let next : Cursor = record {
        file = c.file + 1;
        rank = c.rank;
        num_pieces = c.num_pieces + 1;
        placement = put_piece pc square c.placement;
      } in
      Keeps-if (ltb 32 (c.num_pieces + 1)) (inl FenError.too_many_pieces) (inr next) (λ k. tt)
        (λ k. record {
          consistent =
              put_piece-IsConsistent c.placement pc square s.consistent (h pc refl)
                (omega (arith, at, s.rank_le)) free;
          file_le = omega arith;
          rank_le = s.rank_le;
          ahead = λ i l a.
              put_other c.placement.board square i pc (elsewhere at i a)
              ∙ s.ahead i l (passed at i a);
        })
    where
      elsewhere :
          make_square c.file c.rank ≡ 8 * c.rank + c.file
          → (i : ℕ) → (i < 8 * c.rank) ⊎ (8 * c.rank + (c.file + 1) ≤ i)
          → (i == make_square c.file c.rank) ≡ false
      elsewhere at i (inl l) = ground arith
      elsewhere at i (inr l) = ground arith

      passed :
          make_square c.file c.rank ≡ 8 * c.rank + c.file
          → (i : ℕ) → (i < 8 * c.rank) ⊎ (8 * c.rank + (c.file + 1) ≤ i)
          → (i < 8 * c.rank) ⊎ (8 * c.rank + c.file ≤ i)
      passed at i (inl l) = inl l
      passed at i (inr l) = inr (omega arith)

  pub place_token-Keeps : (token : ℕ) → is_space token ≡ false → Keeps (place_token token c)
  unfolding place_token
  place_token-Keeps token h =
      Keeps-if (is_digit token) (skip_squares (token - 48) c) _
        (λ e. skip_squares-Keeps (token - 48))
        (λ e.
          Keeps-if (token == 47) (end_rank c) _ (λ k. end_rank-Keeps)
            (λ k.
              Keeps-if (leb 8 c.file) (inl FenError.bad_file)
                (place_piece token (find_from 0 token piece_to_char) c) (λ l. unfold Keeps in tt)
                (λ l.
                  place_piece-Keeps token (find_from 0 token piece_to_char) (ground arith)
                    (λ pc e. found-IsPiece token pc h e))))
