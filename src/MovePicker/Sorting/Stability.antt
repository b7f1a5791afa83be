-- ===== src/MovePicker/Sorting/Stability.antt =====
-- The sorts of src/engine/movepick.cpp keep the order of moves of the same value, and the sort with a
-- limit sorts what reaches the limit as the other sort does.
use stockfish.Base.{
  ◌≡◌, refl, ap, sym, ◌∙◌, inl, inr, Bool, true, if◌then◌else◌, Bool-cases, List, [], ◌∷◌, ◌++◌,
  arith,
}
use stockfish.Base.Filters.{filter_by, filter_by-append}
use stockfish.Base.Int.{ℤ, leb_ℤ, eqb_ℤ}
use stockfish.MoveGen.{ExtMove}
use stockfish.MovePicker.Sorting.{
  insert_before, sort_from, sort_all, rotate, sort_above, sort_above_high, sort_above_low,
  partial_insertion_sort,
}
use mathlib.Core.Path.{◌≡⟨◌⟩◌, ◌∎}
use stockfish.MovePicker.Sorting.Order.{
  Descends, Descends-sort_all, PassFirst, PassFirst-partial_insertion_sort,
}
use mathlib.Core.List.{reverse, reverse-cons, append-nil, append_assoc}

abbrev pub has_value : ℤ → ExtMove → Bool
has_value v x = eqb_ℤ x.value v

abbrev pub reaches : ℤ → ExtMove → Bool
reaches limit x = leb_ℤ limit x.value

filter_by-reverse :
    (p : ExtMove → Bool) (xs : List ExtMove) → filter_by p (reverse xs) ≡ reverse (filter_by p xs)
unfolding filter_by
filter_by-reverse p [] = refl
filter_by-reverse p (x ∷ xs) =
    rw (reverse-cons x xs, filter_by-append p (reverse xs) (x ∷ []), filter_by-reverse p xs)
      (last x (filter_by p xs))
  where
    last :
        (x : ExtMove) (ys : List ExtMove)
        → reverse ys ++ filter_by p (x ∷ []) ≡ reverse (if p x then x ∷ ys else ys)
    last x ys = elim (Bool-cases (p x)) [
      | inl e ↦ rw (e, reverse-cons x ys) refl
      | inr e ↦ rw (e, append-nil (reverse ys)) refl
    ]

module _ (v : ℤ) where
  same-insert_before :
      (x : ExtMove) (xs : List ExtMove)
      → filter_by (has_value v) (insert_before x xs) ≡ filter_by (has_value v) (x ∷ xs)
  unfolding insert_before filter_by
  same-insert_before x [] = refl
  same-insert_before x (y ∷ ys) = ground (arith, same-insert_before x ys)

  same-sort_from :
      (before xs : List ExtMove)
      → filter_by (has_value v) (sort_from before xs)
        ≡ filter_by (has_value v) (reverse before) ++ filter_by (has_value v) xs
  unfolding sort_from filter_by
  same-sort_from before [] = sym (append-nil _)
  same-sort_from before (x ∷ xs) =
      filter_by same (sort_from (insert_before x before) xs)
      ≡⟨ same-sort_from (insert_before x before) xs ⟩
        filter_by same (reverse (insert_before x before)) ++ filter_by same xs
      ≡⟨ ap (λ t. t ++ filter_by same xs) moved ⟩
        (filter_by same (reverse before) ++ filter_by same (x ∷ [])) ++ filter_by same xs
      ≡⟨ append_assoc (filter_by same (reverse before)) (filter_by same (x ∷ []))
          (filter_by same xs) ⟩
        filter_by same (reverse before) ++ (filter_by same (x ∷ []) ++ filter_by same xs)
      ≡⟨ ap (λ t. filter_by same (reverse before) ++ t) (sym (filter_by-append same (x ∷ []) xs)) ⟩
        filter_by same (reverse before) ++ filter_by same (x ∷ xs) ∎
    where
      same : ExtMove → Bool
      same = has_value v

      moved :
          filter_by same (reverse (insert_before x before))
          ≡ filter_by same (reverse before) ++ filter_by same (x ∷ [])
      moved =
          filter_by-reverse same (insert_before x before)
          ∙ ap reverse (same-insert_before x before)
          ∙ sym (filter_by-reverse same (x ∷ before))
          ∙ ap (filter_by same) (reverse-cons x before)
          ∙ filter_by-append same (reverse before) (x ∷ [])

  same-sort_all :
      (xs : List ExtMove) → filter_by (has_value v) (sort_all xs) ≡ filter_by (has_value v) xs
  unfolding sort_all
  same-sort_all [] = refl
  same-sort_all (x ∷ xs) =
      same-sort_from (x ∷ []) xs ∙ sym (filter_by-append (has_value v) (x ∷ []) xs)

-- `sort_all` puts the moves in descending order of value, and keeps those of each value in the order
-- that they had.
pub sort_all_stable :
    (v : ℤ) (xs : List ExtMove)
    → Descends (sort_all xs) × (filter_by (has_value v) (sort_all xs) ≡ filter_by (has_value v) xs)
sort_all_stable v xs = (Descends-sort_all xs, same-sort_all v xs)

module _ (limit : ℤ) where
  reaches-insert_before :
      (x : ExtMove) (xs : List ExtMove)
      → reaches limit x ≡ true
      → filter_by (reaches limit) (insert_before x xs)
        ≡ insert_before x (filter_by (reaches limit) xs)
  unfolding insert_before filter_by
  reaches-insert_before x [] h = ground arith
  reaches-insert_before x (y ∷ ys) h = ground (arith, reaches-insert_before x ys)

  reaches-rotate :
      (xs : List ExtMove)
      → filter_by (reaches limit) xs ≡ []
      → filter_by (reaches limit) (rotate xs) ≡ []
  unfolding rotate filter_by
  reaches-rotate [] h = refl
  reaches-rotate (x ∷ xs) h = ground (arith, filter_by-append (reaches limit) xs (x ∷ []))

  reaches-sort_above :
      (before skipped xs : List ExtMove)
      → filter_by (reaches limit) skipped ≡ []
      → filter_by (reaches limit) (sort_above limit before skipped xs)
        ≡ sort_from (filter_by (reaches limit) before) (filter_by (reaches limit) xs)
  unfolding sort_above sort_from filter_by
  reaches-sort_above before skipped [] h =
      rw
        (
          filter_by-append (reaches limit) (reverse before) skipped,
          h,
          append-nil (filter_by (reaches limit) (reverse before)),
          filter_by-reverse (reaches limit) before,
        )
        refl
  reaches-sort_above before skipped (x ∷ xs) h = elim (Bool-cases (leb_ℤ limit x.value)) [
    | inl e ↦
        let kept : filter_by (reaches limit) (x ∷ xs) ≡ x ∷ filter_by (reaches limit) xs =
          ground arith in
        rw
          (
            sort_above_high limit before skipped x xs e,
            kept,
            reaches-sort_above (insert_before x before) (rotate skipped) xs
                (reaches-rotate skipped h),
            reaches-insert_before x before e,
          )
          refl
    | inr e ↦
        let dropped : filter_by (reaches limit) (x ∷ xs) ≡ filter_by (reaches limit) xs =
          ground arith in
        let none_yet : filter_by (reaches limit) (skipped ++ (x ∷ [])) ≡ [] =
          ground (arith, filter_by-append (reaches limit) skipped (x ∷ [])) in
        rw
          (
            sort_above_low limit before skipped x xs e,
            dropped,
            reaches-sort_above before (skipped ++ (x ∷ [])) xs none_yet,
          )
          refl
  ]

  sort_from-nil : (xs : List ExtMove) → sort_from [] xs ≡ sort_all xs
  unfolding sort_from sort_all insert_before
  sort_from-nil [] = refl
  sort_from-nil (x ∷ xs) = refl

  first :
      (x : ExtMove) (xs : List ExtMove)
      → sort_from (filter_by (reaches limit) (x ∷ [])) (filter_by (reaches limit) xs)
        ≡ sort_all (filter_by (reaches limit) (x ∷ xs))
  unfolding filter_by
  first x xs = elim (Bool-cases (reaches limit x)) [
    | inl e ↦ rw e (unfold sort_all in refl)
    | inr e ↦ rw e (sort_from-nil (filter_by (reaches limit) xs))
  ]

  reaches-partial_insertion_sort :
      (xs : List ExtMove)
      → filter_by (reaches limit) (partial_insertion_sort limit xs)
        ≡ sort_all (filter_by (reaches limit) xs)
  unfolding partial_insertion_sort
  reaches-partial_insertion_sort [] = unfold filter_by in unfold sort_all in refl
  reaches-partial_insertion_sort (x ∷ xs) =
      reaches-sort_above (x ∷ []) [] xs (unfold filter_by in refl) ∙ first x xs

-- `partial_insertion_sort` puts the moves that reach the limit before those that do not, in the order
-- in which `sort_all` puts them where they are alone.
pub partial_insertion_sort_prefix :
    (limit : ℤ) (xs : List ExtMove)
    → PassFirst (reaches limit) (partial_insertion_sort limit xs)
      × (filter_by (reaches limit) (partial_insertion_sort limit xs)
          ≡ sort_all (filter_by (reaches limit) xs))
partial_insertion_sort_prefix limit xs = (
  PassFirst-partial_insertion_sort (reaches limit) (λ x y h k. ground arith) limit (λ x h. h) xs,
  reaches-partial_insertion_sort limit xs,
)
