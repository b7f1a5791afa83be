-- ===== src/MovePicker/Sorting/Tallies.antt =====
-- The sorts of src/engine/movepick.cpp permute: each test is passed as often as before.
use stockfish.Base.{◌+◌, ◌≡◌, refl, Bool, to_ℕ, List, [], ◌∷◌, ◌++◌, arith}
use stockfish.Base.Filters.{tally, tally-append, tally-reverse}
use stockfish.Base.Int.{ℤ}
use stockfish.MoveGen.{ExtMove}
use stockfish.MovePicker.Sorting.{
  insert_before, sort_from, sort_all, rotate, sort_above, partial_insertion_sort,
}
use mathlib.Core.List.{reverse}

-- Nothing is lost or made.
module _ (p : ExtMove → Bool) where
  tally-insert_before :
      (x : ExtMove) (xs : List ExtMove) → tally p (insert_before x xs) ≡ to_ℕ (p x) + tally p xs
  unfolding insert_before tally
  tally-insert_before x [] = refl
  tally-insert_before x (y ∷ ys) = ground (arith, tally-insert_before x ys)

  tally-sort_from :
      (before xs : List ExtMove) → tally p (sort_from before xs) ≡ tally p before + tally p xs
  unfolding sort_from tally
  tally-sort_from before [] = omega (arith, tally-reverse p before)
  tally-sort_from before (x ∷ xs) =
      omega (arith, tally-sort_from (insert_before x before) xs, tally-insert_before x before)

  pub tally-sort_all : (xs : List ExtMove) → tally p (sort_all xs) ≡ tally p xs
  unfolding sort_all tally
  tally-sort_all [] = refl
  tally-sort_all (x ∷ xs) = omega (arith, tally-sort_from (x ∷ []) xs)

  tally-rotate : (xs : List ExtMove) → tally p (rotate xs) ≡ tally p xs
  unfolding rotate tally
  tally-rotate [] = refl
  tally-rotate (x ∷ xs) = omega (arith, tally-append p xs (x ∷ []))

  tally-sort_above :
      (limit : ℤ) (before skipped xs : List ExtMove)
      → tally p (sort_above limit before skipped xs) ≡ tally p before + tally p skipped + tally p xs
  unfolding sort_above tally
  tally-sort_above limit before skipped [] =
      omega (arith, tally-append p (reverse before) skipped, tally-reverse p before)
  tally-sort_above limit before skipped (x ∷ xs) = ground (
    arith,
    tally-sort_above limit (insert_before x before) (rotate skipped) xs,
    tally-insert_before x before,
    tally-rotate skipped,
    tally-sort_above limit before (skipped ++ (x ∷ [])) xs,
    tally-append p skipped (x ∷ []),
  )

  pub tally-partial_insertion_sort :
      (limit : ℤ) (xs : List ExtMove) → tally p (partial_insertion_sort limit xs) ≡ tally p xs
  unfolding partial_insertion_sort tally
  tally-partial_insertion_sort limit [] = refl
  tally-partial_insertion_sort limit (x ∷ xs) = omega (arith, tally-sort_above limit (x ∷ []) [] xs)
