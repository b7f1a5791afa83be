-- ===== src/Bitboard/Scanning.antt =====
-- `while (b) pop_lsb(b)`: the squares that it visits.
use stockfish.Base.{
  ℕ, zero, suc, ◌+◌, ◌-◌, ◌/◌, ◌%◌, ◌^◌, min, bit_and, bit_xor, ◌≤◌, ◌<◌, ◌≡◌, ◌≢◌, refl, sym, ap,
  ◌∙◌, inl, inr, Bool, true, false, ◌&&◌, ◌==◌, Bool-cases, ltb, if◌then◌else◌, to_ℕ, [], ◌∷◌,
  arith,
}
use Prim.Native.Nat.{differ}
use mathlib.Core.Path.{subst, ap₂}
use native.Mathlib.Nat.{pow-suc, div-div-eq-div-mul}
use stockfish.Base.Tests.{ltb→lt}
use stockfish.Base.Filters.{tally}
use stockfish.Base.Bits.{test_bit, test_bit-zero, test_bit-bit_and}
use stockfish.Base.Bits.Step.{bit_and_step, bit_xor_step}
use stockfish.Base.Bits.Xor.{eq_of_digits, bit_xor_zero}
use stockfish.Bitboard.{lowest, lsb, without_lsb, pop_all, squares_of, toggle_square}
use stockfish.Bitboard.Squares.{test_bit-toggle_square}

test_bit-div : (i b : ℕ) → test_bit b i ≡ (b / 2 ^ i % 2 == 1)
unfolding test_bit
test_bit-div zero b = ap (λ t. t % 2 == 1) (omega arith)
test_bit-div (suc i) b =
    let halves : b / 2 / 2 ^ i ≡ b / 2 ^ suc i =
      div-div-eq-div-mul b 2 (2 ^ i) ∙ ap (λ t. b / t) (omega (arith, pow-suc 2 i)) in
    test_bit-div i (b / 2) ∙ ap (λ t. t % 2 == 1) halves

lowest_here : (b fuel i : ℕ) → test_bit b i ≡ true → lowest b (suc fuel) i ≡ i
unfolding lowest
lowest_here b fuel i h = rw (sym (test_bit-div i b) ∙ h) refl

lowest_later : (b fuel i : ℕ) → test_bit b i ≡ false → lowest b (suc fuel) i ≡ lowest b fuel (i + 1)
unfolding lowest
lowest_later b fuel i h = rw (sym (test_bit-div i b) ∙ h) refl

pub lowest-le : (b fuel i : ℕ) → lowest b fuel i ≤ i + fuel
unfolding lowest
lowest-le b zero i = omega arith
lowest-le b (suc fuel) i = ground (arith, lowest-le b fuel (i + 1))

abbrev pub FirstFrom : ℕ → ℕ → ℕ → Type 0
FirstFrom b i k = (i ≤ k) × (test_bit b k ≡ true) × ((j : ℕ) → i ≤ j → j < k → test_bit b j ≡ false)

lowest_finds :
    (b fuel i k : ℕ) → k < fuel → test_bit b (i + k) ≡ true → FirstFrom b i (lowest b fuel i)
lowest_finds b zero i k l h = absurd (omega arith)
lowest_finds b (suc fuel) i zero l h =
    let e : test_bit b i ≡ true = ap (test_bit b) (omega arith) ∙ h in
    subst (FirstFrom b i) (sym (lowest_here b fuel i e))
      (omega arith, e, λ j m n. absurd (omega arith))
lowest_finds b (suc fuel) i (suc k) l h = elim (Bool-cases (test_bit b i)) [
  | inl e ↦
      subst (FirstFrom b i) (sym (lowest_here b fuel i e))
        (omega arith, e, λ j m n. absurd (omega arith))
  | inr e ↦
      let rest = lowest_finds b fuel (i + 1) k (omega arith) (ap (test_bit b) (omega arith) ∙ h) in
      subst (FirstFrom b i) (sym (lowest_later b fuel i e)) (
        omega (arith, rest.0),
        rest.1,
        λ j m n. elim (Bool-cases (j == i)) [
          | inl same ↦ ap (test_bit b) (ground arith) ∙ e
          | inr other ↦ rest.2 j (ground arith) n
        ],
      )
]

bit_and_self : (a : ℕ) → bit_and a a ≡ a
bit_and_self a = eq_of_digits (bit_and a a) a (λ i. test_bit-bit_and i a a ∙ both (test_bit a i))
  where
    both : (x : Bool) → (x && x) ≡ x
    both true = refl
    both false = refl

-- `b & (b - 1)` is `b` without its first digit.
clear_first :
    (k b : ℕ)
    → test_bit b k ≡ true
    → ((j : ℕ) → j < k → test_bit b j ≡ false)
    → bit_and b (b - 1) ≡ bit_xor b (2 ^ k)
unfolding test_bit
clear_first zero b h none_before =
    let odd : b % 2 ≡ 1 = ground arith in
    let half : (b - 1) / 2 ≡ b / 2 = omega arith in
    let even : (b - 1) % 2 ≡ 0 = omega arith in
    let left : bit_and (b / 2) ((b - 1) / 2) ≡ b / 2 =
      ap (bit_and (b / 2)) half ∙ bit_and_self (b / 2) in
    let low : min (b % 2) ((b - 1) % 2) ≡ 0 = ap₂ min odd even in
    let flipped : differ (b % 2) 1 ≡ 0 = ap (λ x. differ x 1) odd in
    omega
      (arith, bit_and_step b (b - 1), bit_xor_step b 1, left, low, flipped, bit_xor_zero (b / 2))
clear_first (suc k) b h none_before =
    let even : b % 2 ≡ 0 = ground (arith, none_before 0) in
    let positive : b / 2 ≢ 0 =
      λ z. absurd (ground (arith, sym h ∙ ap (λ x. test_bit x k) z, test_bit-zero k)) in
    let half : (b - 1) / 2 ≡ b / 2 - 1 = omega arith in
    let rest = clear_first k (b / 2) h (λ j l. none_before (suc j) (omega arith)) in
    let left : bit_and (b / 2) ((b - 1) / 2) ≡ bit_xor (b / 2) (2 ^ k) =
      ap (bit_and (b / 2)) half ∙ rest in
    let low : min (b % 2) ((b - 1) % 2) ≡ 0 =
      ap₂ min even (let odd : (b - 1) % 2 ≡ 1 = omega arith in odd) in
    let shifted : 2 ^ suc k / 2 ≡ 2 ^ k = omega (arith, pow-suc 2 k) in
    let right : bit_xor (b / 2) (2 ^ suc k / 2) ≡ bit_xor (b / 2) (2 ^ k) =
      ap (bit_xor (b / 2)) shifted in
    let same : differ (b % 2) (2 ^ suc k % 2) ≡ 0 = ap₂ differ even (omega (arith, pow-suc 2 k)) in
    omega (arith, bit_and_step b (b - 1), bit_xor_step b (2 ^ suc k), left, low, right, same)

-- A number that is not zero has a digit.
some_digit : (n b : ℕ) → b ≤ n → b ≢ 0 → (i : ℕ) × (test_bit b i ≡ true)
unfolding test_bit
some_digit zero b le h = absurd (h (omega arith))
some_digit (suc n) b le h = elim (Bool-cases (b % 2 == 1)) [
  | inl e ↦ (0, e)
  | inr e ↦
      let rest = some_digit n (b / 2) (omega arith) (λ z. h (ground arith)) in (suc rest.0, rest.1)
]

-- What `pop_lsb` does with a set: it gives a square of the set, before which there is none, and leaves
-- the set without it.
module _ (b : ℕ) (size : (i : ℕ) → test_bit b i ≡ true → i < 64) (some : b ≢ 0) where
  pub pop_first : FirstFrom b 0 (lsb b)
  unfolding lsb
  pop_first =
      let d = some_digit b b (omega arith) some in
      lowest_finds b 64 0 d.0 (size d.0 d.1) (ap (test_bit b) (omega arith) ∙ d.1)

  pop_leaves : without_lsb b ≡ toggle_square b (lsb b)
  unfolding without_lsb toggle_square
  pop_leaves = clear_first (lsb b) b pop_first.1 (λ j l. pop_first.2 j (omega arith) l)

-- The set lies in the last `n` of the 64 squares.
abbrev InLast : ℕ → ℕ → Type 0
InLast n b = (i : ℕ) → test_bit b i ≡ true → (64 ≤ i + n) × (i < 64)

module _ (n b : ℕ) (within : InLast (suc n) b) (some : b ≢ 0) where
  first : FirstFrom b 0 (lsb b)
  first = pop_first b (λ i h. (within i h).1) some

  pop_InLast : InLast n (toggle_square b (lsb b))
  pop_InLast i h =
      let digit = sym (test_bit-toggle_square b (lsb b) i) ∙ h in
      elim (Bool-cases (lsb b == i)) [
        | inl same ↦
            let at : lsb b ≡ i = ground arith in
            let set : test_bit b i ≡ true = ap (test_bit b) (sym at) ∙ first.1 in
            absurd (ground arith)
        | inr other ↦
            let set : test_bit b i ≡ true = ground arith in
            let behind : lsb b < i = elim (Bool-cases (ltb i (lsb b))) [
              | inl before ↦
                  absurd (ground (arith, first.2 i (omega arith) (ltb→lt i (lsb b) before)))
              | inr after ↦ ground arith
            ] in
            omega (arith, within i set, within (lsb b) first.1)
      ]

  pop_counts :
      (s : ℕ)
      → to_ℕ (lsb b == s) + to_ℕ (test_bit (toggle_square b (lsb b)) s) ≡ to_ℕ (test_bit b s)
  pop_counts s = elim (Bool-cases (lsb b == s)) [
    | inl same ↦
        let at : lsb b ≡ s = ground arith in
        let set : test_bit b s ≡ true = ap (test_bit b) (sym at) ∙ first.1 in
        ground (arith, test_bit-toggle_square b (lsb b) s)
    | inr other ↦ ground (arith, test_bit-toggle_square b (lsb b) s)
  ]

module _ (n b : ℕ) where
  pop_all-nil : (b == 0) ≡ true → pop_all (suc n) b ≡ []
  unfolding pop_all
  pop_all-nil e = ap (λ t. if t then [] else lsb b ∷ pop_all n (without_lsb b)) e

  pop_all-cons : (b == 0) ≡ false → pop_all (suc n) b ≡ lsb b ∷ pop_all n (without_lsb b)
  unfolding pop_all
  pop_all-cons e = ap (λ t. if t then [] else lsb b ∷ pop_all n (without_lsb b)) e

none_within : (b s : ℕ) → InLast 0 b → 0 ≡ to_ℕ (test_bit b s)
none_within b s within = elim (Bool-cases (test_bit b s)) [
  | inl e ↦ absurd (omega (arith, within s e))
  | inr e ↦ rw e refl
]

pop_all-tally : (n b s : ℕ) → InLast n b → tally (λ t. t == s) (pop_all n b) ≡ to_ℕ (test_bit b s)
unfolding tally
pop_all-tally zero b s within = unfold pop_all in none_within b s within
pop_all-tally (suc n) b s within = elim (Bool-cases (b == 0)) [
  | inl e ↦
      let at : b ≡ 0 = ground arith in
      ap (tally (λ t. t == s)) (pop_all-nil n b e)
      ∙ sym (ap to_ℕ (ap (λ x. test_bit x s) at ∙ test_bit-zero s))
  | inr e ↦
      let some : b ≢ 0 = λ z. absurd (ground arith) in
      let left = toggle_square b (lsb b) in
      ap (tally (λ t. t == s)) (pop_all-cons n b e)
      ∙ ap (λ x. to_ℕ (lsb b == s) + tally (λ t. t == s) (pop_all n x))
          (pop_leaves b (λ i h. (within i h).1) some)
      ∙ ap (λ k. to_ℕ (lsb b == s) + k) (pop_all-tally n left s (pop_InLast n b within some))
      ∙ pop_counts n b within some s
]

pub digit_below : (n b i : ℕ) → b < 2 ^ n → test_bit b i ≡ true → i < n
unfolding test_bit
digit_below zero b i h e =
    let at : b ≡ 0 = omega arith in
    absurd (ground (arith, sym (ap (λ x. test_bit x i) at) ∙ e, test_bit-zero i))
digit_below (suc n) b zero h e = omega arith
digit_below (suc n) b (suc i) h e =
    omega (arith, digit_below n (b / 2) i (omega (arith, pow-suc 2 n)) e)

-- The loop that takes the squares off a set of the board visits each square of the set once, and no
-- other.
pub squares_of-tally :
    (b s : ℕ)
    → ((i : ℕ) → test_bit b i ≡ true → i < 64)
    → tally (λ t. t == s) (squares_of b) ≡ to_ℕ (test_bit b s)
unfolding squares_of
squares_of-tally b s size = pop_all-tally 64 b s (λ i e. (omega arith, size i e))
