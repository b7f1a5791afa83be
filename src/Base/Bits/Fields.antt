-- ===== src/Base/Bits/Fields.antt =====
-- `|` of disjoint fields is a sum, and `&` with a mask of low bits is a remainder, at every width.
use Prim.Native.Nat.{ℕ, zero, suc, ◌+◌, ◌*◌, ◌/◌, ◌%◌, ◌^◌, ◌≤◌, ◌<◌, min, bit_and, bit_or}
use mathlib.Core.Path.{◌≡◌, refl, sym, ap, ◌∙◌}
use native.Mathlib.Omega.{arith}
use native.Mathlib.Nat.{pow-suc, pow-succ', mod-lt, div-div-eq-div-mul}
use stockfish.Base.Bits.Step.{bit_and_step, bit_or_step}

-- Induction on a bound of `a`, since the step goes from `a / 2` to `a`.
bit_or-zero_below : (n a : ℕ) → a ≤ n → bit_or a 0 ≡ a
bit_or-zero_below n zero h = refl
bit_or-zero_below zero (suc a) h = absurd (omega arith)
bit_or-zero_below (suc n) (suc a) h =
    omega (arith, bit_or_step (suc a) 0, bit_or-zero_below n (suc a / 2) (omega arith))

pub bit_or-zero : (a : ℕ) → bit_or a 0 ≡ a
bit_or-zero a = bit_or-zero_below a a (omega arith)

bit_and-zero_below : (n a : ℕ) → a ≤ n → bit_and a 0 ≡ 0
bit_and-zero_below n zero h = refl
bit_and-zero_below zero (suc a) h = absurd (omega arith)
bit_and-zero_below (suc n) (suc a) h =
    omega (arith, bit_and_step (suc a) 0, bit_and-zero_below n (suc a / 2) (omega arith))

pub bit_and-zero : (a : ℕ) → bit_and a 0 ≡ 0
bit_and-zero a = bit_and-zero_below a a (omega arith)

bit_and-shifted :
    (k q p r m : ℕ) → p ≡ q * 2 ^ k → r < 2 ^ k → m + 1 ≡ 2 ^ k → bit_and (p + r) m ≡ r
bit_and-shifted zero q p r m e h w =
    let no_mask : m ≡ 0 = omega arith in rw no_mask (omega (arith, bit_and-zero (p + r)))
bit_and-shifted (suc k) q p r m e h w =
    let double : q * 2 ^ suc k ≡ 2 * (q * 2 ^ k) =
      omega (arith, ap (λ (t : ℕ). q * t) (pow-suc 2 k)) in
    let halves : (p + r) / 2 ≡ p / 2 + r / 2 = omega (arith, double) in
    let rest : bit_and (p / 2 + r / 2) (m / 2) ≡ r / 2 =
      bit_and-shifted k q (p / 2) (r / 2) (m / 2) (omega (arith, double))
        (omega (arith, pow-suc 2 k)) (omega (arith, pow-suc 2 k)) in
    let step : bit_and (p + r) m ≡ bit_and ((p + r) / 2) (m / 2) * 2 + min ((p + r) % 2) (m % 2) =
      bit_and_step (p + r) m in
    rw (step, halves, rest) (omega (arith, double, pow-suc 2 k))

-- A mask of the `k` low bits is the remainder by `2 ^ k`.
pub bit_and-low_mask : (k m a : ℕ) → m + 1 ≡ 2 ^ k → bit_and a m ≡ a % 2 ^ k
bit_and-low_mask k m a w =
    let split : a ≡ a / 2 ^ k * 2 ^ k + a % 2 ^ k = grind arith in
    let low : a % 2 ^ k < 2 ^ k = mod-lt a (omega arith) in
    ap (λ x. bit_and x m) split
    ∙ bit_and-shifted k (a / 2 ^ k) (a / 2 ^ k * 2 ^ k) (a % 2 ^ k) m refl low w

pub bit_or-shifted : (k q p r : ℕ) → p ≡ q * 2 ^ k → r < 2 ^ k → bit_or p r ≡ p + r
bit_or-shifted zero q p r e h =
    let none_left : r ≡ 0 = omega arith in rw none_left (omega (arith, bit_or-zero p))
bit_or-shifted (suc k) q p r e h =
    let double : q * 2 ^ suc k ≡ 2 * (q * 2 ^ k) =
      omega (arith, ap (λ (t : ℕ). q * t) (pow-suc 2 k)) in
    omega (
      arith,
      bit_or_step p r,
      pow-suc 2 k,
      bit_or-shifted k q (p / 2) (r / 2) (omega (arith, double)) (omega (arith, pow-suc 2 k)),
    )

-- A mask shifted up by `k` selects the field above bit `k`.
pub bit_and-high_mask : (k a m n : ℕ) → n ≡ m * 2 ^ k → bit_and a n ≡ bit_and (a / 2 ^ k) m * 2 ^ k
bit_and-high_mask zero a m n e =
    let same : n ≡ m = omega arith in
    let whole : a / 2 ^ 0 ≡ a = omega arith in rw (same, whole) (omega arith)
bit_and-high_mask (suc k) a m n e =
    let double : m * 2 ^ suc k ≡ 2 * (m * 2 ^ k) =
      omega (arith, ap (λ (t : ℕ). m * t) (pow-suc 2 k)) in
    let rest : bit_and (a / 2) (n / 2) ≡ bit_and (a / 2 / 2 ^ k) m * 2 ^ k =
      bit_and-high_mask k (a / 2) m (n / 2) (omega (arith, double)) in
    let halves : a / 2 / 2 ^ k ≡ a / 2 ^ suc k =
      div-div-eq-div-mul a 2 (2 ^ k) ∙ ap (λ t. a / t) (sym (pow-succ' 2 k)) in
    let goal : bit_and a n ≡ bit_and (a / 2 / 2 ^ k) m * 2 ^ k * 2 =
      omega (arith, bit_and_step a n, rest, double) in
    rw (← halves)
      (goal ∙ omega (arith, ap (λ (t : ℕ). bit_and (a / 2 / 2 ^ k) m * t) (pow-suc 2 k)))
