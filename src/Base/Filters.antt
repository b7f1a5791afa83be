-- ===== src/Base/Filters.antt =====
-- What passes a Boolean test in a list, and how often.
use Prim.Native.Nat.{ℕ, ◌+◌}
use mathlib.Core.Path.{◌≡◌, refl, ap}
use mathlib.Core.Logic.{inl, inr}
use mathlib.Core.Bool.{Bool, true}
use mathlib.Core.List.{List, [], ◌∷◌, ◌++◌, reverse, reverse-cons}
use native.Mathlib.Omega.{arith}
use stockfish.Base.Lists.{length}
use stockfish.Base.Tests.{if◌then◌else◌, to_ℕ, Bool-cases}

module _ {ℓ} {A : Type ℓ} where
  unfoldable pub filter_by : (A → Bool) → List A → List A
  filter_by p [] = []
  filter_by p (x ∷ xs) = if p x then x ∷ filter_by p xs else filter_by p xs

  unfoldable pub tally : (A → Bool) → List A → ℕ
  tally p [] = 0
  tally p (x ∷ xs) = to_ℕ (p x) + tally p xs

  pub filter_by-append :
      (p : A → Bool) (xs ys : List A) → filter_by p (xs ++ ys) ≡ filter_by p xs ++ filter_by p ys
  unfolding filter_by
  filter_by-append p [] ys = refl
  filter_by-append p (x ∷ xs) ys = elim (Bool-cases (p x)) [
    | inl e ↦ rw e (ap (λ t. x ∷ t) (filter_by-append p xs ys))
    | inr e ↦ rw e (filter_by-append p xs ys)
  ]

  pub tally-append : (p : A → Bool) (xs ys : List A) → tally p (xs ++ ys) ≡ tally p xs + tally p ys
  unfolding tally
  tally-append p [] ys = omega arith
  tally-append p (x ∷ xs) ys = omega (arith, tally-append p xs ys)

  pub tally-reverse : (p : A → Bool) (xs : List A) → tally p (reverse xs) ≡ tally p xs
  unfolding tally
  tally-reverse p [] = refl
  tally-reverse p (x ∷ xs) =
      rw (reverse-cons x xs)
        (omega (arith, tally-append p (reverse xs) (x ∷ []), tally-reverse p xs))

  pub tally_all : (xs : List A) → tally (λ x. true) xs ≡ length xs
  unfolding tally
  tally_all [] = refl
  tally_all (x ∷ xs) = omega (arith, tally_all xs)
