-- ===== src/Base/Bits/Step.antt =====
-- The recursion on binary digits by which the native bit operations are specified, freed of its
-- fuel: one equation for the lowest digit of each operation.
use Prim.Native.Nat.{
  ℕ, zero, suc, ◌+◌, ◌-◌, ◌*◌, ◌/◌, ◌%◌, ◌≤◌, min, max, differ, digits, bitwise, bit_and, bit_or,
  bit_xor, bit_and-bitwise, bit_or-bitwise, bit_xor-bitwise,
}
use mathlib.Core.Path.{◌≡◌, refl, sym, ap, ◌∙◌}
use native.Mathlib.Omega.{arith}

module _ (rest : ℕ → ℕ) (op : ℕ → ℕ → ℕ) where
  -- Beyond the number itself, more fuel changes nothing.
  one_more : (fuel a b : ℕ) → a ≤ fuel → digits rest op (suc fuel) a b ≡ digits rest op fuel a b
  one_more zero zero b h = refl
  one_more (suc fuel) zero b h = refl
  one_more zero (suc a) b h = absurd (omega arith)
  one_more (suc fuel) (suc a) b h = rw (one_more fuel (suc a / 2) (b / 2) (omega arith))

  many_more : (extra a b : ℕ) → digits rest op (extra + a) a b ≡ bitwise rest op a b
  many_more zero a b =
      let none_added : 0 + a ≡ a = omega arith in ap (λ f. digits rest op f a b) none_added
  many_more (suc extra) a b =
      let moved : suc extra + a ≡ suc (extra + a) = omega arith in
      ap (λ f. digits rest op f a b) moved
      ∙ one_more (extra + a) a b (omega arith)
      ∙ many_more extra a b

  digits_enough : (fuel a b : ℕ) → a ≤ fuel → digits rest op fuel a b ≡ bitwise rest op a b
  digits_enough fuel a b h =
      let split : fuel - a + a ≡ fuel = omega arith in
      sym (ap (λ f. digits rest op f a b) split) ∙ many_more (fuel - a) a b

  bitwise_step :
      (a b : ℕ)
      → bitwise rest op (suc a) b ≡ bitwise rest op (suc a / 2) (b / 2) * 2 + op (suc a % 2) (b % 2)
  bitwise_step a b = rw (digits_enough a (suc a / 2) (b / 2) (omega arith))

-- One binary digit of each operation: the halves are combined, and then the lowest digits.
pub bit_xor_step : (x y : ℕ) → bit_xor x y ≡ bit_xor (x / 2) (y / 2) * 2 + differ (x % 2) (y % 2)
bit_xor_step zero y = simp bit_xor-bitwise (omega arith)
bit_xor_step (suc x) y = simp bit_xor-bitwise (bitwise_step (λ d. d) differ x y)

pub bit_and_step : (x y : ℕ) → bit_and x y ≡ bit_and (x / 2) (y / 2) * 2 + min (x % 2) (y % 2)
bit_and_step zero y = simp bit_and-bitwise (omega arith)
bit_and_step (suc x) y = simp bit_and-bitwise (bitwise_step (λ d. 0) min x y)

pub bit_or_step : (x y : ℕ) → bit_or x y ≡ bit_or (x / 2) (y / 2) * 2 + max (x % 2) (y % 2)
bit_or_step zero y = simp bit_or-bitwise (omega arith)
bit_or_step (suc x) y = simp bit_or-bitwise (bitwise_step (λ d. d) max x y)
