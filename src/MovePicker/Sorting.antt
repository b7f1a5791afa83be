-- ===== src/MovePicker/Sorting.antt =====
-- src/engine/movepick.cpp: the two sorts, on a build with no vector unit. A range of the array is the
-- list of what its slots hold; the slots before the one that a loop looks at are a list from the
-- last back to the first.
pub mod Order
pub mod Stability
pub mod Tallies
use stockfish.Base.{◌≡◌, arith, Bool, true, false, if◌then◌else◌, List, [], ◌∷◌, ◌++◌}
use stockfish.Base.Int.{ℤ, leb_ℤ}
use stockfish.MoveGen.{ExtMove, less}
use mathlib.Core.List.{reverse}

-- The inner loop: the slots that hold less move up by one, and `tmp` takes the place that is free.
unfoldable pub insert_before : ExtMove → List ExtMove → List ExtMove
insert_before tmp [] = tmp ∷ []
insert_before tmp (x ∷ before) =
    if less x tmp then x ∷ insert_before tmp before else tmp ∷ x ∷ before

-- The loop over `p`.
unfoldable pub sort_from : List ExtMove → List ExtMove → List ExtMove
unfolding insert_before
sort_from before [] = reverse before
sort_from before (x ∷ xs) = sort_from (insert_before x before) xs

unfoldable pub sort_all : List ExtMove → List ExtMove
unfolding sort_from
sort_all [] = []
sort_all (x ∷ xs) = sort_from (x ∷ []) xs

-- `*p = *++sortedEnd`, for the slots between `sortedEnd` and `p`: the first of them goes to `p`.
-- With none between, `p` is copied onto itself.
unfoldable pub rotate : List ExtMove → List ExtMove
rotate [] = []
rotate (x ∷ xs) = xs ++ (x ∷ [])

-- The loop over `p`: the slots up to `sortedEnd`, those between it and `p`, and those from `p`.
unfoldable pub sort_above : ℤ → List ExtMove → List ExtMove → List ExtMove → List ExtMove
unfolding rotate insert_before
sort_above limit before skipped [] = reverse before ++ skipped
sort_above limit before skipped (x ∷ xs) = elim (leb_ℤ limit x.value) [
  | true ↦ sort_above limit (insert_before x before) (rotate skipped) xs
  | false ↦ sort_above limit before (skipped ++ (x ∷ [])) xs
]

module _ (limit : ℤ) (before skipped : List ExtMove) (x : ExtMove) (xs : List ExtMove) where
  pub sort_above_high :
      leb_ℤ limit x.value ≡ true
      → sort_above limit before skipped (x ∷ xs)
        ≡ sort_above limit (insert_before x before) (rotate skipped) xs
  unfolding sort_above
  sort_above_high h = ground arith

  pub sort_above_low :
      leb_ℤ limit x.value ≡ false
      → sort_above limit before skipped (x ∷ xs) ≡ sort_above limit before (skipped ++ (x ∷ [])) xs
  unfolding sort_above
  sort_above_low h = ground arith

unfoldable pub partial_insertion_sort : ℤ → List ExtMove → List ExtMove
unfolding sort_above
partial_insertion_sort limit [] = []
partial_insertion_sort limit (x ∷ xs) = sort_above limit (x ∷ []) [] xs
