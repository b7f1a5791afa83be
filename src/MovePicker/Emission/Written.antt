-- ===== src/MovePicker/Emission/Written.antt =====
-- The list of quiet moves of src/engine/movepick.cpp as it stands in the slots: good ones and bad ones,
-- and their order.
use stockfish.Base.{ℕ, ◌+◌, ◌≡◌, sym, ap, ◌∙◌, inl, inr, Bool, true, false, List, [], ◌∷◌, arith}
use mathlib.Core.Path.{subst}
use stockfish.Base.Lists.{All, length}
use stockfish.Base.Filters.{tally, tally_all}
use stockfish.Base.Arrays.{
  Array, put, put_at, write_at, write_at-below, tally_from, tally_from-write_at,
}
use stockfish.Base.Int.{ℤ, pos, negsuc, neg, leb_ℤ, ◌*ℤ◌}
use stockfish.Types.Moves.{Move}
use stockfish.MoveGen.{ExtMove}
use stockfish.MovePicker.Sorting.{sort_all, partial_insertion_sort}
use stockfish.MovePicker.Sorting.Tallies.{tally-sort_all, tally-partial_insertion_sort}
use stockfish.MovePicker.Sorting.Order.{PassFirst, PassFirst-partial_insertion_sort}
use stockfish.MovePicker.Stages.{is_good, is_bad, good_quiet_depth}
use stockfish.MovePicker.Pending.{counts, every, AllBad, GoodFirst}

pub length-sort_all : (xs : List ExtMove) → length (sort_all xs) ≡ length xs
length-sort_all xs = sym (tally_all (sort_all xs)) ∙ tally-sort_all (λ x. true) xs ∙ tally_all xs

pub length-partial_insertion_sort :
    (limit : ℤ) (xs : List ExtMove) → length (partial_insertion_sort limit xs) ≡ length xs
length-partial_insertion_sort limit xs =
    sym (tally_all (partial_insertion_sort limit xs))
    ∙ tally-partial_insertion_sort (λ x. true) limit xs
    ∙ tally_all xs

module _ (g : ExtMove → Bool) (a : Array ExtMove) (i : ℕ) (xs : List ExtMove) where
  pub tally_from-sorted : tally_from g (write_at a i (sort_all xs)) i (length xs) ≡ tally g xs
  tally_from-sorted =
      ap (tally_from g (write_at a i (sort_all xs)) i) (sym (length-sort_all xs))
      ∙ tally_from-write_at g a i (sort_all xs)
      ∙ tally-sort_all g xs

  pub tally_from-partly_sorted :
      (limit : ℤ)
      → tally_from g (write_at a i (partial_insertion_sort limit xs)) i (length xs) ≡ tally g xs
  tally_from-partly_sorted limit =
      ap (tally_from g (write_at a i (partial_insertion_sort limit xs)) i)
        (sym (length-partial_insertion_sort limit xs))
      ∙ tally_from-write_at g a i (partial_insertion_sort limit xs)
      ∙ tally-partial_insertion_sort g limit xs

-- Every quiet move is good or bad, and not both.
pub tally_good_bad :
    (tt : Move) (f : Move → Bool) (xs : List ExtMove)
    → tally (counts tt f every) xs ≡ tally (counts tt f is_good) xs + tally (counts tt f is_bad) xs
unfolding tally counts
tally_good_bad tt f [] = omega arith
tally_good_bad tt f (x ∷ xs) = ground (arith, tally_good_bad tt f xs)

AllBad-write_at :
    (a : Array ExtMove) (i : ℕ) (xs : List ExtMove)
    → All (λ x. is_good x ≡ false) xs
    → AllBad (write_at a i xs) i (length xs)
unfolding write_at
AllBad-write_at a i [] h = tt
AllBad-write_at a i (x ∷ xs) h =
    let at : write_at (put a i x) (i + 1) xs i ≡ x =
      write_at-below (put a i x) (i + 1) xs i (omega arith) ∙ put_at a i x in
    (ap is_good at ∙ h.0, AllBad-write_at (put a i x) (i + 1) xs h.1)

pub GoodFirst-write_at :
    (a : Array ExtMove) (i : ℕ) (xs : List ExtMove)
    → PassFirst is_good xs
    → GoodFirst (write_at a i xs) i (length xs)
unfolding write_at
GoodFirst-write_at a i [] h = tt
GoodFirst-write_at a i (x ∷ xs) h =
    let at : write_at (put a i x) (i + 1) xs i ≡ x =
      write_at-below (put a i x) (i + 1) xs i (omega arith) ∙ put_at a i x in
    (
      elim h.0 [
        | inl good ↦ inl (ap is_good at ∙ good)
        | inr bad ↦ inr (AllBad-write_at (put a i x) (i + 1) xs bad)
      ],
      GoodFirst-write_at (put a i x) (i + 1) xs h.1,
    )

-- From depth 4 on, a move below the limit of the sort is not good.
below_limit :
    (depth : ℤ)
    → leb_ℤ good_quiet_depth depth ≡ true
    → (x : ExtMove) → leb_ℤ (neg (pos 3560 *ℤ depth)) x.value ≡ false
    → is_good x ≡ false
unfolding ◌*ℤ◌
below_limit (pos d) h x k = ground arith
below_limit (negsuc d) h x k = ground arith

pub GoodFirst-sorted :
    (depth : ℤ) (a : Array ExtMove) (i : ℕ) (xs : List ExtMove)
    → leb_ℤ good_quiet_depth depth ≡ true
    → GoodFirst (write_at a i (partial_insertion_sort (neg (pos 3560 *ℤ depth)) xs)) i (length xs)
GoodFirst-sorted depth a i xs h =
    let limit = neg (pos 3560 *ℤ depth) in
    subst (GoodFirst (write_at a i (partial_insertion_sort limit xs)) i)
      (length-partial_insertion_sort limit xs)
      (GoodFirst-write_at a i (partial_insertion_sort limit xs) (
        PassFirst-partial_insertion_sort is_good (λ x y l k. ground arith) limit
          (below_limit depth h) xs))
