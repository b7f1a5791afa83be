-- ===== src/Base/Fill.antt =====
-- Filling a range of an array, and covering the array by slices that are filled in some order.
use Prim.Native.Nat.{ℕ, zero, suc, ◌+◌, ◌≤◌, ◌<◌}
use mathlib.Core.Path.{◌≡◌, refl, ap, ◌∙◌}
use mathlib.Core.Logic.{inl, inr}
use mathlib.Core.List.{List, [], ◌∷◌}
use native.Mathlib.Omega.{arith}
use stockfish.Base.Lists.{length, get_or, replicate, Contains, eq-replicate}

module _ {ℓ} {A : Type ℓ} (v : A) where
  -- `len` elements from `start`.
  unfoldable pub fill_range : ℕ → ℕ → List A → List A
  fill_range start len [] = []
  fill_range (suc start) len (x ∷ xs) = x ∷ fill_range start len xs
  fill_range zero (suc len) (x ∷ xs) = v ∷ fill_range zero len xs
  fill_range zero zero (x ∷ xs) = x ∷ xs

  pub length-fill_range : (s l : ℕ) (xs : List A) → length (fill_range s l xs) ≡ length xs
  unfolding fill_range
  length-fill_range s l [] = refl
  length-fill_range (suc s) l (x ∷ xs) = ap suc (length-fill_range s l xs)
  length-fill_range zero (suc l) (x ∷ xs) = ap suc (length-fill_range zero l xs)
  length-fill_range zero zero (x ∷ xs) = refl

  fill_range_inside :
      (s l j : ℕ) (xs : List A) → s ≤ j → j < s + l → get_or (fill_range s l xs) j v ≡ v
  unfolding fill_range
  fill_range_inside s l j [] h k = refl
  fill_range_inside (suc s) l zero (x ∷ xs) h k = absurd (omega arith)
  fill_range_inside (suc s) l (suc j) (x ∷ xs) h k =
      fill_range_inside s l j xs (omega arith) (omega arith)
  fill_range_inside zero (suc l) zero (x ∷ xs) h k = refl
  fill_range_inside zero (suc l) (suc j) (x ∷ xs) h k =
      fill_range_inside zero l j xs (omega arith) (omega arith)
  fill_range_inside zero zero j (x ∷ xs) h k = absurd (omega arith)

  -- What is filled stays so.
  fill_range_stays :
      (s l j : ℕ) (xs : List A) → get_or xs j v ≡ v → get_or (fill_range s l xs) j v ≡ v
  unfolding fill_range
  fill_range_stays s l j [] h = refl
  fill_range_stays (suc s) l zero (x ∷ xs) h = h
  fill_range_stays (suc s) l (suc j) (x ∷ xs) h = fill_range_stays s l j xs h
  fill_range_stays zero (suc l) zero (x ∷ xs) h = refl
  fill_range_stays zero (suc l) (suc j) (x ∷ xs) h = fill_range_stays zero l j xs h
  fill_range_stays zero zero j (x ∷ xs) h = h

module _ {ℓ} {A : Type ℓ} (v : A) (start len : ℕ → ℕ) where
  -- The slices of the given numbers, in their order.
  unfoldable pub fill_slices : List ℕ → List A → List A
  fill_slices [] xs = xs
  fill_slices (i ∷ is) xs = fill_slices is (fill_range v (start i) (len i) xs)

  length-fill_slices : (is : List ℕ) (xs : List A) → length (fill_slices is xs) ≡ length xs
  unfolding fill_slices
  length-fill_slices [] xs = refl
  length-fill_slices (i ∷ is) xs =
      length-fill_slices is (fill_range v (start i) (len i) xs)
      ∙ length-fill_range v (start i) (len i) xs

  fill_slices_stays :
      (is : List ℕ) (xs : List A) (j : ℕ) → get_or xs j v ≡ v → get_or (fill_slices is xs) j v ≡ v
  unfolding fill_slices
  fill_slices_stays [] xs j h = h
  fill_slices_stays (i ∷ is) xs j h =
      fill_slices_stays is (fill_range v (start i) (len i) xs) j
        (fill_range_stays v (start i) (len i) j xs h)

  abbrev pub InSlice : ℕ → ℕ → Type 0
  InSlice i j = (start i ≤ j) × (j < start i + len i)

  fill_slices_inside :
      (is : List ℕ) (xs : List A) (i j : ℕ)
      → Contains i is
      → InSlice i j
      → get_or (fill_slices is xs) j v ≡ v
  unfolding fill_slices
  fill_slices_inside [] xs i j h k = absurd h
  fill_slices_inside (x ∷ is) xs i j (inl e) k =
      fill_slices_stays is (fill_range v (start x) (len x) xs) j
        (rw e (fill_range_inside v (start i) (len i) j xs k.0 k.1))
  fill_slices_inside (x ∷ is) xs i j (inr h) k =
      fill_slices_inside is (fill_range v (start x) (len x) xs) i j h k

  -- Where each place lies in one of the slices that are filled, the whole array is filled.
  pub fill_slices_all :
      (is : List ℕ) (xs : List A) (n : ℕ)
      → length xs ≡ n
      → ((j : ℕ) → j < n → (i : ℕ) × Contains i is × InSlice i j)
      → fill_slices is xs ≡ replicate n v
  fill_slices_all is xs n e cover =
      eq-replicate (fill_slices is xs) n v (length-fill_slices is xs ∙ e)
        (λ j h. let (i, has, within) = cover j h in fill_slices_inside is xs i j has within)
