-- ===== src/MovePicker/Sorting/Order.antt =====
-- The order that the sorts of src/engine/movepick.cpp give.
use stockfish.Base.{◌≡◌, ◌⊎◌, inl, inr, Bool, true, false, Bool-cases, List, [], ◌∷◌, ◌++◌, arith}
use stockfish.Base.Lists.{All, All-mono, All-append}
use stockfish.Base.Int.{ℤ, ◌≤ℤ◌, leb_ℤ}
use stockfish.MoveGen.{ExtMove, less}
use stockfish.MovePicker.Sorting.{
  insert_before, sort_from, sort_all, rotate, sort_above, sort_above_high, sort_above_low,
  partial_insertion_sort,
}
use mathlib.Core.List.{reverse, reverse-cons}

abbrev pub Ascends : List ExtMove → Type 0
Ascends [] = Unit
Ascends (x ∷ xs) = All (λ y. x.value ≤ℤ y.value) xs × Ascends xs

abbrev pub Descends : List ExtMove → Type 0
Descends [] = Unit
Descends (x ∷ xs) = All (λ y. y.value ≤ℤ x.value) xs × Descends xs

-- Behind a move that does not pass, none does.
abbrev pub PassFirst : (ExtMove → Bool) → List ExtMove → Type 0
PassFirst p [] = Unit
PassFirst p (x ∷ xs) = ((p x ≡ true) ⊎ All (λ y. p y ≡ false) xs) × PassFirst p xs

module _ {κ} (P : ExtMove → Type κ) where
  All-reverse : (xs : List ExtMove) → All P xs → All P (reverse xs)
  All-reverse [] h = tt
  All-reverse (x ∷ xs) h =
      rw (reverse-cons x xs) (All-append P (reverse xs) (x ∷ []) (All-reverse xs h.1) (h.0, tt))

  All-insert_before :
      (x : ExtMove) (xs : List ExtMove) → P x → All P xs → All P (insert_before x xs)
  unfolding insert_before
  All-insert_before x [] p h = (p, tt)
  All-insert_before x (y ∷ ys) p h = elim (Bool-cases (less y x)) [
    | inl e ↦ rw e (h.0, All-insert_before x ys p h.1)
    | inr e ↦ rw e (p, h)
  ]

  All-rotate : (xs : List ExtMove) → All P xs → All P (rotate xs)
  unfolding rotate
  All-rotate [] h = tt
  All-rotate (x ∷ xs) h = All-append P xs (x ∷ []) h.1 (h.0, tt)

Descends-snoc :
    (xs : List ExtMove) (x : ExtMove)
    → Descends xs
    → All (λ y. x.value ≤ℤ y.value) xs
    → Descends (xs ++ (x ∷ []))
Descends-snoc [] x h k = (tt, tt)
Descends-snoc (y ∷ ys) x h k = (All-append _ ys (x ∷ []) h.0 (k.0, tt), Descends-snoc ys x h.1 k.1)

Descends-reverse : (xs : List ExtMove) → Ascends xs → Descends (reverse xs)
Descends-reverse [] h = tt
Descends-reverse (x ∷ xs) h =
    rw (reverse-cons x xs)
      (Descends-snoc (reverse xs) x (Descends-reverse xs h.1) (All-reverse _ xs h.0))

Ascends-insert_before :
    (x : ExtMove) (xs : List ExtMove) → Ascends xs → Ascends (insert_before x xs)
unfolding insert_before
Ascends-insert_before x [] h = (tt, tt)
Ascends-insert_before x (y ∷ ys) h = elim (Bool-cases (less y x)) [
  | inl e ↦ rw e (All-insert_before _ x ys (ground arith) h.0, Ascends-insert_before x ys h.1)
  | inr e ↦
      let first : x.value ≤ℤ y.value = ground arith in
      rw e ((first, All-mono (λ z k. omega arith) ys h.0), h)
]

Descends-sort_from : (before xs : List ExtMove) → Ascends before → Descends (sort_from before xs)
unfolding sort_from
Descends-sort_from before [] h = Descends-reverse before h
Descends-sort_from before (x ∷ xs) h =
    Descends-sort_from (insert_before x before) xs (Ascends-insert_before x before h)

pub Descends-sort_all : (xs : List ExtMove) → Descends (sort_all xs)
unfolding sort_all
Descends-sort_all [] = tt
Descends-sort_all (x ∷ xs) = Descends-sort_from (x ∷ []) xs (tt, tt)

-- A test that a move passes if it passes at a lesser value.
module _ (p : ExtMove → Bool)
    (mono : (x y : ExtMove) → x.value ≤ℤ y.value → p x ≡ true → p y ≡ true) where
  fails_below : (x y : ExtMove) → y.value ≤ℤ x.value → p x ≡ false → p y ≡ false
  fails_below x y h e = elim (Bool-cases (p y)) [ inl k ↦ cc (mono y x h k) | inr k ↦ k ]

  PassFirst-descending :
      (xs ys : List ExtMove) → Descends xs → All (λ y. p y ≡ false) ys → PassFirst p (xs ++ ys)
  PassFirst-descending [] [] h k = tt
  PassFirst-descending [] (y ∷ ys) h k = (inr k.1, PassFirst-descending [] ys tt k.1)
  PassFirst-descending (x ∷ xs) ys h k = (
    elim (Bool-cases (p x)) [
      | inl e ↦ inl e
      | inr e ↦ inr (All-append _ xs ys (All-mono (λ y l. fails_below x y l e) xs h.0) k)
    ],
    PassFirst-descending xs ys h.1 k,
  )

  module _ (limit : ℤ) (low : (x : ExtMove) → leb_ℤ limit x.value ≡ false → p x ≡ false) where
    PassFirst-sort_above :
        (before skipped xs : List ExtMove)
        → Ascends before
        → All (λ y. p y ≡ false) skipped
        → PassFirst p (sort_above limit before skipped xs)
    unfolding sort_above
    PassFirst-sort_above before skipped [] h k =
        PassFirst-descending (reverse before) skipped (Descends-reverse before h) k
    PassFirst-sort_above before skipped (x ∷ xs) h k = elim (Bool-cases (leb_ℤ limit x.value)) [
      | inl e ↦ rw (sort_above_high limit before skipped x xs e) (
          PassFirst-sort_above (insert_before x before) (rotate skipped) xs
            (Ascends-insert_before x before h) (All-rotate _ skipped k))
      | inr e ↦ rw (sort_above_low limit before skipped x xs e) (
          PassFirst-sort_above before (skipped ++ (x ∷ [])) xs h
            (All-append _ skipped (x ∷ []) k (low x e, tt)))
    ]

    -- Behind a move that fails the test of a limit or a higher one, all do.
    pub PassFirst-partial_insertion_sort :
        (xs : List ExtMove) → PassFirst p (partial_insertion_sort limit xs)
    unfolding partial_insertion_sort
    PassFirst-partial_insertion_sort [] = tt
    PassFirst-partial_insertion_sort (x ∷ xs) = PassFirst-sort_above (x ∷ []) [] xs (tt, tt) tt
