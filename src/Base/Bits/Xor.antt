-- ===== src/Base/Bits/Xor.antt =====
-- Exclusive or as an abelian group in which each element is its own inverse, and a sum of a family.
use Prim.Native.Nat.{ℕ, zero, suc, ◌+◌, ◌/◌, ◌≤◌, bit_xor}
use mathlib.Core.Path.{◌≡◌, refl, sym, ap, ◌∙◌}
use mathlib.Core.Bool.{Bool, false}
use native.Mathlib.Omega.{arith}
use stockfish.Base.Tests.{differs}
use stockfish.Base.Bits.{test_bit, test_bit-bit_xor, test_bit-zero}

eq_below : (n a b : ℕ) → a ≤ n → b ≤ n → ((i : ℕ) → test_bit a i ≡ test_bit b i) → a ≡ b
unfolding test_bit
eq_below zero a b p q h = omega arith
eq_below (suc n) a b p q h =
    let halves : a / 2 ≡ b / 2 =
      eq_below n (a / 2) (b / 2) (omega arith) (omega arith) (λ i. h (suc i)) in
    ground (arith, h 0)

-- Numbers with the same binary digits are equal.
pub eq_of_digits : (a b : ℕ) → ((i : ℕ) → test_bit a i ≡ test_bit b i) → a ≡ b
eq_of_digits a b h = eq_below (a + b) a b (omega arith) (omega arith) h

differs_assoc : (p q r : Bool) → differs (differs p q) r ≡ differs p (differs q r)
differs_assoc p q r = ground arith

differs_comm : (p q : Bool) → differs p q ≡ differs q p
differs_comm p q = ground arith

differs_self : (p : Bool) → differs p p ≡ false
differs_self p = ground arith

pub bit_xor_assoc : (a b c : ℕ) → bit_xor (bit_xor a b) c ≡ bit_xor a (bit_xor b c)
bit_xor_assoc a b c = eq_of_digits (bit_xor (bit_xor a b) c) (bit_xor a (bit_xor b c)) (λ i.
    rw
      (
        test_bit-bit_xor i (bit_xor a b) c,
        test_bit-bit_xor i a b,
        test_bit-bit_xor i a (bit_xor b c),
        test_bit-bit_xor i b c,
      )
      (differs_assoc (test_bit a i) (test_bit b i) (test_bit c i)))

pub bit_xor_comm : (a b : ℕ) → bit_xor a b ≡ bit_xor b a
bit_xor_comm a b = eq_of_digits (bit_xor a b) (bit_xor b a) (λ i.
    rw (test_bit-bit_xor i a b, test_bit-bit_xor i b a)
      (differs_comm (test_bit a i) (test_bit b i)))

pub bit_xor_self : (a : ℕ) → bit_xor a a ≡ 0
bit_xor_self a =
    eq_of_digits (bit_xor a a) 0
      (λ i. rw (test_bit-bit_xor i a a, test_bit-zero i) (differs_self (test_bit a i)))

pub zero_bit_xor : (a : ℕ) → bit_xor 0 a ≡ a
zero_bit_xor a =
    eq_of_digits (bit_xor 0 a) a (λ i. rw (test_bit-bit_xor i 0 a, test_bit-zero i) refl)

pub bit_xor_zero : (a : ℕ) → bit_xor a 0 ≡ a
bit_xor_zero a = bit_xor_comm a 0 ∙ zero_bit_xor a

-- What is added twice is gone.
pub bit_xor_cancel : (a b : ℕ) → bit_xor (bit_xor a b) b ≡ a
bit_xor_cancel a b = bit_xor_assoc a b b ∙ ap (bit_xor a) (bit_xor_self b) ∙ bit_xor_zero a

-- A middle exchange.
pub bit_xor_right_comm : (a b c : ℕ) → bit_xor (bit_xor a b) c ≡ bit_xor (bit_xor a c) b
bit_xor_right_comm a b c =
    bit_xor_assoc a b c ∙ ap (bit_xor a) (bit_xor_comm b c) ∙ sym (bit_xor_assoc a c b)
