-- ===== src/Base/Bits.antt =====
-- Bit operations at variables: the digits of a result, equality digit by digit, and the two forms
-- that `&` and `|` take on fields.
pub mod Step
pub mod Fields
pub mod Tables
pub mod Xor
use Prim.Native.Nat.{ℕ, zero, suc, ◌+◌, ◌*◌, ◌/◌, ◌%◌, ◌^◌, ◌<◌, bit_and, bit_or, bit_xor, differ}
use mathlib.Core.Path.{◌≡◌, refl}
use mathlib.Core.Bool.{Bool, true, false, ◌&&◌, ◌||◌}
use native.Mathlib.Omega.{arith}
use native.Mathlib.Nat.{pow-suc}
use stockfish.Base.Tests.{◌==◌, differs}
use Step.{bit_and_step, bit_or_step, bit_xor_step}

-- Digit `i` of `x`.
unfoldable pub test_bit : ℕ → ℕ → Bool
test_bit x zero = x % 2 == 1
test_bit x (suc i) = test_bit (x / 2) i

pub test_bit-bit_and : (i a b : ℕ) → test_bit (bit_and a b) i ≡ (test_bit a i && test_bit b i)
unfolding test_bit
test_bit-bit_and zero a b = ground (arith, bit_and_step a b)
test_bit-bit_and (suc i) a b =
    let half : bit_and a b / 2 ≡ bit_and (a / 2) (b / 2) = omega (arith, bit_and_step a b) in
    rw half (test_bit-bit_and i (a / 2) (b / 2))

pub test_bit-bit_or : (i a b : ℕ) → test_bit (bit_or a b) i ≡ (test_bit a i || test_bit b i)
unfolding test_bit
test_bit-bit_or zero a b = ground (arith, bit_or_step a b)
test_bit-bit_or (suc i) a b =
    let half : bit_or a b / 2 ≡ bit_or (a / 2) (b / 2) = omega (arith, bit_or_step a b) in
    rw half (test_bit-bit_or i (a / 2) (b / 2))

-- The exclusive or of two digits is their sum without the carry.
differ-digits : (x y : ℕ) → x < 2 → y < 2 → differ x y ≡ (x + y) % 2
differ-digits zero y h k = omega arith
differ-digits (suc zero) zero h k = refl
differ-digits (suc zero) (suc zero) h k = refl
differ-digits (suc zero) (suc (suc y)) h k = absurd (omega arith)
differ-digits (suc (suc x)) y h k = absurd (omega arith)

pub test_bit-bit_xor :
    (i a b : ℕ) → test_bit (bit_xor a b) i ≡ differs (test_bit a i) (test_bit b i)
unfolding test_bit
test_bit-bit_xor zero a b =
    ground (arith, bit_xor_step a b, differ-digits (a % 2) (b % 2) (omega arith) (omega arith))
test_bit-bit_xor (suc i) a b =
    let half : bit_xor a b / 2 ≡ bit_xor (a / 2) (b / 2) =
      omega (arith, bit_xor_step a b, differ-digits (a % 2) (b % 2) (omega arith) (omega arith)) in
    rw half (test_bit-bit_xor i (a / 2) (b / 2))

pub test_bit-zero : (i : ℕ) → test_bit 0 i ≡ false
unfolding test_bit
test_bit-zero zero = refl
test_bit-zero (suc i) = test_bit-zero i

-- `2 ^ s` has the one digit `s`.
pub test_bit-two_pow : (i s : ℕ) → test_bit (2 ^ s) i ≡ (s == i)
unfolding test_bit
test_bit-two_pow zero zero = refl
test_bit-two_pow zero (suc s) = ground (arith, pow-suc 2 s)
test_bit-two_pow (suc i) zero = ground (arith, test_bit-zero i)
test_bit-two_pow (suc i) (suc s) =
    let half : 2 ^ suc s / 2 ≡ 2 ^ s = omega (arith, pow-suc 2 s) in
    rw half (ground (arith, test_bit-two_pow i s))

-- Two numbers of `n` digits with the same digits are equal.
pub eq_of_test_bit :
    (n a b : ℕ) → a < 2 ^ n → b < 2 ^ n → ((i : ℕ) → test_bit a i ≡ test_bit b i) → a ≡ b
unfolding test_bit
eq_of_test_bit zero a b ha hb h = omega arith
eq_of_test_bit (suc n) a b ha hb h =
    let halves : a / 2 ≡ b / 2 =
      eq_of_test_bit n (a / 2) (b / 2) (omega (arith, pow-suc 2 n)) (omega (arith, pow-suc 2 n))
        (λ i. h (suc i)) in
    ground (arith, h 0)
