-- ===== src/Base/Arrays.antt =====
-- Arrays as functions of the index, and the sum by exclusive or of a family.
use Prim.Native.Nat.{ℕ, zero, suc, ◌+◌, ◌<◌, ◌≤◌, bit_xor}
use native.Mathlib.Nat.{add-zero}
use mathlib.Core.List.{List, [], ◌∷◌}
use stockfish.Base.Lists.{length}
use stockfish.Base.Filters.{tally}
use mathlib.Core.Path.{◌≡◌, refl, ap, ◌∙◌}
use mathlib.Core.Bool.{Bool, true, false}
use native.Mathlib.Omega.{arith}
use mathlib.Core.Logic.{◌≢◌, inl, inr}
use stockfish.Base.Tests.{◌==◌, if◌then◌else◌, Bool-cases, to_ℕ}
use stockfish.Base.Bits.Xor.{bit_xor_right_comm, bit_xor_cancel}

abbrev pub Array {ℓ} : Type ℓ → Type ℓ
Array A = ℕ → A

-- The array with one element replaced.
unfoldable pub put {ℓ} : {A : Type ℓ} → Array A → ℕ → A → Array A
put a i v j = if j == i then v else a j

pub put_at {ℓ} : {A : Type ℓ} (a : Array A) (i : ℕ) (v : A) → put a i v i ≡ v
unfolding put
put_at a i v = let same : (i == i) ≡ true = ground arith in rw same refl

pub put_other {ℓ} :
    {A : Type ℓ} (a : Array A) (i j : ℕ) (v : A) → (j == i) ≡ false → put a i v j ≡ a j
unfolding put
put_other a i j v h = rw h refl

-- `f 0 ^ ... ^ f (n - 1)`.
unfoldable pub xor_below : ℕ → (ℕ → ℕ) → ℕ
xor_below zero f = 0
xor_below (suc n) f = bit_xor (xor_below n f) (f n)

pub xor_below_cong :
    (n : ℕ) (f g : ℕ → ℕ) → ((i : ℕ) → i < n → f i ≡ g i) → xor_below n f ≡ xor_below n g
unfolding xor_below
xor_below_cong zero f g h = refl
xor_below_cong (suc n) f g h =
    rw (xor_below_cong n f g (λ i l. h i (omega arith)), h n (omega arith)) refl

-- Where a family changes at one place only, the sum changes by the old and the new term.
pub xor_below_change :
    (n i : ℕ) (f g : ℕ → ℕ)
    → i < n
    → ((j : ℕ) → (j == i) ≡ false → g j ≡ f j)
    → xor_below n g ≡ bit_xor (bit_xor (xor_below n f) (f i)) (g i)
unfolding xor_below
xor_below_change zero i f g h same = absurd (omega arith)
xor_below_change (suc n) i f g h same = elim (Bool-cases (i == n)) [
  | inl e ↦
      let last : i ≡ n = ground arith in
      let rest : xor_below n g ≡ xor_below n f =
        xor_below_cong n g f (λ j l. same j (ground arith)) in
      rw (last, rest, bit_xor_cancel (xor_below n f) (f n)) refl
  | inr e ↦
      rw
        (
          xor_below_change n i f g (ground arith) same,
          same n (let other : (n == i) ≡ false = ground arith in other),
          bit_xor_right_comm (bit_xor (xor_below n f) (f i)) (g i) (f n),
          bit_xor_right_comm (xor_below n f) (f i) (f n),
        )
        refl
]

-- How many indices below `n` pass the test.
unfoldable pub count_below : ℕ → (ℕ → Bool) → ℕ
count_below zero f = 0
count_below (suc n) f = count_below n f + to_ℕ (f n)

pub count_below_cong :
    (n : ℕ) (f g : ℕ → Bool) → ((j : ℕ) → j < n → g j ≡ f j) → count_below n g ≡ count_below n f
unfolding count_below
count_below_cong zero f g h = refl
count_below_cong (suc n) f g h =
    rw (count_below_cong n f g (λ j l. h j (omega arith)), h n (omega arith)) refl

-- A change at one place changes the number by what is there.
pub count_below_change :
    (n i : ℕ) (f g : ℕ → Bool)
    → i < n
    → ((j : ℕ) → (j == i) ≡ false → g j ≡ f j)
    → count_below n g + to_ℕ (f i) ≡ count_below n f + to_ℕ (g i)
unfolding count_below
count_below_change zero i f g h same = absurd (omega arith)
count_below_change (suc n) i f g h same = elim (Bool-cases (i == n)) [
  | inl e ↦
      let last : i ≡ n = ground arith in
      let rest : count_below n g ≡ count_below n f =
        count_below_cong n f g (λ j l. same j (ground arith)) in
      rw (last, rest) (omega arith)
  | inr e ↦
      let other : (n == i) ≡ false = ground arith in
      omega (arith, count_below_change n i f g (ground arith) same, ap to_ℕ (same n other))
]

-- A list written from an index on.
unfoldable pub write_at {ℓ} : {A : Type ℓ} → Array A → ℕ → List A → Array A
unfolding put
write_at a i [] = a
write_at a i (x ∷ xs) = write_at (put a i x) (i + 1) xs

-- How many of the `n` elements from `i` on pass the test.
unfoldable pub tally_from {ℓ} : {A : Type ℓ} → (A → Bool) → Array A → ℕ → ℕ → ℕ
tally_from p a i zero = 0
tally_from p a i (suc n) = to_ℕ (p (a i)) + tally_from p a (i + 1) n

module _ {ℓ} {A : Type ℓ} (p : A → Bool) where
  pub tally_from_cong :
      (a b : Array A) (i n : ℕ)
      → ((j : ℕ) → i ≤ j → j < i + n → b j ≡ a j)
      → tally_from p b i n ≡ tally_from p a i n
  unfolding tally_from
  tally_from_cong a b i zero h = refl
  tally_from_cong a b i (suc n) h =
      rw
        (
          h i (omega arith) (omega arith),
          tally_from_cong a b (i + 1) n (λ j k l. h j (omega arith) (omega arith)),
        )
        refl

  pub tally_from-suc :
      (a : Array A) (i n : ℕ) → tally_from p a i (suc n) ≡ tally_from p a i n + to_ℕ (p (a (i + n)))
  unfolding tally_from
  tally_from-suc a i zero = rw (add-zero i) (omega arith)
  tally_from-suc a i (suc n) =
      let next : i + 1 + n ≡ i + suc n = omega arith in
      rw (← next) (omega (arith, tally_from-suc a (i + 1) n))

module _ {ℓ} {A : Type ℓ} where
  pub write_at-below : (a : Array A) (i : ℕ) (xs : List A) (j : ℕ) → j < i → write_at a i xs j ≡ a j
  unfolding write_at
  write_at-below a i [] j h = refl
  write_at-below a i (x ∷ xs) j h =
      write_at-below (put a i x) (i + 1) xs j (omega arith) ∙ put_other a i j x (ground arith)

  pub tally_from-write_at :
      (p : A → Bool) (a : Array A) (i : ℕ) (xs : List A)
      → tally_from p (write_at a i xs) i (length xs) ≡ tally p xs
  unfolding tally_from write_at tally
  tally_from-write_at p a i [] = refl
  tally_from-write_at p a i (x ∷ xs) =
      let at : write_at (put a i x) (i + 1) xs i ≡ x =
        write_at-below (put a i x) (i + 1) xs i (omega arith) ∙ put_at a i x in
      rw (at, tally_from-write_at p (put a i x) (i + 1) xs) refl

-- Two arrays that differ at one place, where only the first passes.
module _ {ℓ} {A : Type ℓ} (p : A → Bool) (a b : Array A) (s : ℕ) where
  pub tally_from-differ :
      (i n : ℕ)
      → i ≤ s
      → s < i + n
      → p (a s) ≡ true
      → p (b s) ≡ false
      → ((j : ℕ) → j ≢ s → b j ≡ a j)
      → tally_from p a i n ≡ tally_from p b i n + 1
  unfolding tally_from
  tally_from-differ i zero le lt here there same = absurd (omega arith)
  tally_from-differ i (suc n) le lt here there same = elim (Bool-cases (i == s)) [
    | inl e ↦
        let at : i ≡ s = ground arith in
        let rest = tally_from_cong p a b (i + 1) n (λ j k l. same j (omega arith)) in
        rw (rest, at, here, there) (omega arith)
    | inr e ↦
        let off : i ≢ s = λ z. absurd (ground arith) in
        rw (same i off)
          (omega (arith, tally_from-differ (i + 1) n (ground arith) (omega arith) here there same))
  ]
