-- ===== src/Fen/Copying.antt =====
-- What `Position::set` reads of what `Position::fen` wrote: the same placement.
use stockfish.Base.{
  ℕ, zero, suc, ◌+◌, ◌≤◌, ◌≡◌, refl, sym, ap, ◌∙◌, Bool, true, false, not, if◌then◌else◌, List, ◌∷◌,
  ◌++◌, inl, inr, arith, Bool-cases, to_ℕ,
}
use native.Mathlib.Nat.{add-zero}
use mathlib.Core.List.{append_assoc}
use stockfish.Types.Board.{make_square}
use stockfish.Position.Placement.{Placement, put_piece, empty}
use stockfish.Position.Placement.Consistency.{IsPiece}
use stockfish.Fen.{read_placement, char_at, piece_to_char, write_count, write_rank, write_ranks}
use stockfish.Fen.Writing.{cursor, skip_read, letter_read, slash_read, space_read}

-- The pieces of a placement put on another one, square by square along a rank, and how many they are.
unfoldable pub place_rank : Placement → ℕ → ℕ → ℕ → Placement → Placement
place_rank q r zero f p = p
place_rank q r (suc n) f p = place_rank q r n (f + 1) (
    if empty q (make_square f r)
    then p
    else put_piece (q.board (make_square f r)) (make_square f r) p)

unfoldable pub men_in_rank : Placement → ℕ → ℕ → ℕ → ℕ
men_in_rank q r zero f = 0
men_in_rank q r (suc n) f = to_ℕ (not (empty q (make_square f r))) + men_in_rank q r n (f + 1)

module _ (q : Placement) (r : ℕ) where
  -- What `write_rank` writes from a square that is empty, or not.
  written : ℕ → ℕ → ℕ → Bool → List ℕ
  written n f count true = write_rank q r n (f + 1) (count + 1)
  written n f count false =
      write_count count
      ++ char_at (q.board (make_square f r)) piece_to_char ∷ write_rank q r n (f + 1) 0

  write_rank-written :
      (n f count : ℕ)
      → write_rank q r (suc n) f count ≡ written n f count (empty q (make_square f r))
  unfolding write_rank written
  write_rank-written n f count = refl

  write_empty :
      (n f count : ℕ)
      → empty q (make_square f r) ≡ true
      → write_rank q r (suc n) f count ≡ write_rank q r n (f + 1) (count + 1)
  unfolding written
  write_empty n f count h = write_rank-written n f count ∙ ap (written n f count) h

  write_piece :
      (n f count : ℕ)
      → empty q (make_square f r) ≡ false
      → write_rank q r (suc n) f count
        ≡ write_count count
          ++ char_at (q.board (make_square f r)) piece_to_char ∷ write_rank q r n (f + 1) 0
  unfolding written
  write_piece n f count h = write_rank-written n f count ∙ ap (written n f count) h

  pub place_empty :
      (n f : ℕ) (p : Placement)
      → empty q (make_square f r) ≡ true
      → place_rank q r (suc n) f p ≡ place_rank q r n (f + 1) p
  unfolding place_rank
  place_empty n f p h = rw h refl

  pub place_some :
      (n f : ℕ) (p : Placement)
      → empty q (make_square f r) ≡ false
      → place_rank q r (suc n) f p
        ≡ place_rank q r n (f + 1) (put_piece (q.board (make_square f r)) (make_square f r) p)
  unfolding place_rank
  place_some n f p h = rw h refl

  men_empty :
      (n f : ℕ)
      → empty q (make_square f r) ≡ true
      → men_in_rank q r (suc n) f ≡ men_in_rank q r n (f + 1)
  unfolding men_in_rank
  men_empty n f h = ground arith

  men_some :
      (n f : ℕ)
      → empty q (make_square f r) ≡ false
      → men_in_rank q r (suc n) f ≡ 1 + men_in_rank q r n (f + 1)
  unfolding men_in_rank
  men_some n f h = ground arith

-- A rank is read as it was written.
module _ (q : Placement) (r : ℕ) (rest : List ℕ)
    (valid : (s : ℕ) → empty q s ≡ false → IsPiece (q.board s)) where
  rank_read :
      (n f g count k : ℕ) (p : Placement)
      → g + count ≡ f
      → f + n ≡ 8
      → k + men_in_rank q r n f ≤ 32
      → read_placement (write_rank q r n f count ++ rest) (cursor g r k p)
        ≡ read_placement rest (cursor 8 r (k + men_in_rank q r n f) (place_rank q r n f p))
  rank_read zero f g count k p at last few =
      let filled : g + count ≡ 8 = omega arith in
      let kept = sym (add-zero k) in
      unfold write_rank in
      unfold men_in_rank in
      unfold place_rank in
      skip_read count g r k p rest (omega arith)
      ∙ (λ i. read_placement rest (cursor (filled i) r (kept i) p))
  rank_read (suc n) f g count k p at last few = elim (Bool-cases (empty q (make_square f r))) [
    | inl h ↦
        let same = men_empty q r n f h in
        let fewer = sym same in
        let placed = sym (place_empty q r n f p h) in
        ap (λ w. read_placement (w ++ rest) (cursor g r k p)) (write_empty q r n f count h)
        ∙ rank_read n (f + 1) g (count + 1) k p (omega arith) (omega arith) (omega (arith, same))
        ∙ (λ i. read_placement rest (cursor 8 r (k + fewer i) (placed i)))
    | inr h ↦
        let more = men_some q r n f h in
        let placed = sym (place_some q r n f p h) in
        let pc = q.board (make_square f r) in
        let left = write_rank q r n (f + 1) 0 in
        let next = put_piece pc (make_square f r) p in
        let total : k + 1 + men_in_rank q r n (f + 1) ≡ k + men_in_rank q r (suc n) f =
          omega (arith, more) in
        ap (λ w. read_placement (w ++ rest) (cursor g r k p)) (write_piece q r n f count h)
        ∙ ap (λ w. read_placement w (cursor g r k p))
            (append_assoc (write_count count) (char_at pc piece_to_char ∷ left) rest)
        ∙ skip_read count g r k p (char_at pc piece_to_char ∷ left ++ rest) (omega arith)
        ∙ ap (λ x. read_placement (char_at pc piece_to_char ∷ left ++ rest) (cursor x r k p)) at
        ∙ letter_read pc f r k p (left ++ rest) (valid (make_square f r) h) (omega arith)
            (omega (arith, more))
        ∙ rank_read n (f + 1) (f + 1) 0 (k + 1) next (omega arith) (omega arith)
            (omega (arith, more))
        ∙ (λ i. read_placement rest (cursor 8 r (total i) (placed i)))
  ]

unfoldable pub place_ranks : Placement → ℕ → Placement → Placement
place_ranks q zero p = place_rank q 0 8 0 p
place_ranks q (suc r) p = place_ranks q r (place_rank q (suc r) 8 0 p)

unfoldable pub men_to : Placement → ℕ → ℕ
unfolding men_in_rank
men_to q zero = men_in_rank q 0 8 0
men_to q (suc r) = men_in_rank q (suc r) 8 0 + men_to q r

module _ (q : Placement) (rest : List ℕ)
    (valid : (s : ℕ) → empty q s ≡ false → IsPiece (q.board s)) where
  pub ranks_read :
      (r k : ℕ) (p : Placement)
      → k + men_to q r ≤ 32
      → read_placement (write_ranks q r ++ (32 ∷ rest)) (cursor 0 r k p)
        ≡ inr (cursor 8 0 (k + men_to q r) (place_ranks q r p), rest)
  unfolding write_ranks place_ranks men_to
  ranks_read zero k p few =
      rank_read q 0 (32 ∷ rest) valid 8 0 0 0 k p refl refl few
      ∙ space_read rest (cursor 8 0 (k + men_in_rank q 0 8 0) (place_rank q 0 8 0 p))
  ranks_read (suc r) k p few =
      let men = men_in_rank q (suc r) 8 0 in
      let placed = place_rank q (suc r) 8 0 p in
      let total : k + men + men_to q r ≡ k + (men + men_to q r) = omega arith in
      ap (λ w. read_placement w (cursor 0 (suc r) k p))
        (append_assoc (write_rank q (suc r) 8 0 0) (47 ∷ write_ranks q r) (32 ∷ rest))
      ∙ rank_read q (suc r) (47 ∷ write_ranks q r ++ (32 ∷ rest)) valid 8 0 0 0 k p refl refl
          (omega arith)
      ∙ slash_read r (k + men) placed (write_ranks q r ++ (32 ∷ rest))
      ∙ ranks_read r (k + men) placed (omega arith)
      ∙ ap (λ t. inr (cursor 8 0 t (place_ranks q r placed), rest)) total
