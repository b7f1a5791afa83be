-- ===== src/Bitboard/Squares.antt =====
-- The operators between a bitboard and a square, square by square.
use stockfish.Base.{
  ℕ, ◌≡◌, ◌≢◌, refl, sym, ap, ◌∙◌, Bool, true, false, ◌&&◌, ◌||◌, ◌==◌, arith, bit_and, ◌^◌,
  Bool-cases, inl, inr,
}
use stockfish.Base.Tests.{differs}
use stockfish.Base.Bits.{
  test_bit, test_bit-bit_and, test_bit-bit_or, test_bit-bit_xor, test_bit-two_pow, test_bit-zero,
}
use stockfish.Base.Bits.Xor.{eq_of_digits}
use stockfish.Bitboard.{has, with_square, toggle_square, two_squares}

pub test_bit-with_square : (b s i : ℕ) → test_bit (with_square b s) i ≡ (test_bit b i || (s == i))
unfolding with_square
test_bit-with_square b s i = rw (test_bit-bit_or i b (2 ^ s), test_bit-two_pow i s) refl

pub test_bit-toggle_square :
    (b s i : ℕ) → test_bit (toggle_square b s) i ≡ differs (test_bit b i) (s == i)
unfolding toggle_square
test_bit-toggle_square b s i = rw (test_bit-bit_xor i b (2 ^ s), test_bit-two_pow i s) refl

pub test_bit-two_squares : (a b i : ℕ) → test_bit (two_squares a b) i ≡ ((a == i) || (b == i))
unfolding two_squares
test_bit-two_squares a b i =
    rw (test_bit-bit_or i (2 ^ a) (2 ^ b), test_bit-two_pow i a, test_bit-two_pow i b) refl

-- `b & s` is nonzero exactly where the digit is set.
pub has-test_bit : (b s : ℕ) → has b s ≡ test_bit b s
unfolding has
has-test_bit b s = elim (Bool-cases (test_bit b s)) [
  | inl e ↦
      let digit : test_bit (bit_and b (2 ^ s)) s ≡ true =
        test_bit-bit_and s b (2 ^ s)
        ∙ rw (e, test_bit-two_pow s s) (let same : (s == s) ≡ true = ground arith in same) in
      let nonzero : bit_and b (2 ^ s) ≢ 0 =
        λ z. absurd (ground (arith, sym digit ∙ ap (λ x. test_bit x s) z, test_bit-zero s)) in
      rw e (ground (arith, nonzero))
  | inr e ↦
      let empty : bit_and b (2 ^ s) ≡ 0 = eq_of_digits (bit_and b (2 ^ s)) 0 (λ i.
        rw (test_bit-bit_and i b (2 ^ s), test_bit-two_pow i s, test_bit-zero i)
          (elim (Bool-cases (s == i)) [
            | inl q ↦ let at : s ≡ i = ground arith in rw (← at) (rw e refl)
            | inr q ↦ rw q (
                let none : (b' : Bool) → (b' && false) ≡ false = λ b'. ground arith in
                none (test_bit b i))
          ])) in
      rw (e, empty) refl
]
