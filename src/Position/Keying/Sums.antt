-- ===== src/Position/Keying/Sums.antt =====
-- The sums of keys that the kinds of moves need.
use stockfish.Base.{ℕ, ◌≡◌, Bool, false, arith, bit_xor}
use stockfish.Base.Bits.{test_bit, test_bit-bit_xor, test_bit-zero}
use stockfish.Base.Bits.Xor.{eq_of_digits}
use stockfish.Base.Tests.{differs}

differs_quiet :
    (a b c : Bool)
    → differs (differs a b) c ≡ differs a (differs false (differs (differs b c) false))
differs_quiet a b c = ground arith

pub sum_quiet :
    (a b c : ℕ) → bit_xor (bit_xor a b) c ≡ bit_xor a (bit_xor 0 (bit_xor (bit_xor b c) 0))
sum_quiet a b c = eq_of_digits _ _ (λ i.
    simp (test_bit-bit_xor, test_bit-zero)
      (differs_quiet (test_bit a i) (test_bit b i) (test_bit c i)))

differs_promotion :
    (a b c : Bool)
    → differs (differs a b) c ≡ differs a (differs false (differs (differs b false) c))
differs_promotion a b c = ground arith

pub sum_promotion :
    (a b c : ℕ) → bit_xor (bit_xor a b) c ≡ bit_xor a (bit_xor 0 (bit_xor (bit_xor b 0) c))
sum_promotion a b c = eq_of_digits _ _ (λ i.
    simp (test_bit-bit_xor, test_bit-zero)
      (differs_promotion (test_bit a i) (test_bit b i) (test_bit c i)))

differs_capture :
    (a b k c : Bool)
    → differs (differs (differs a b) k) c ≡ differs a (differs k (differs (differs b c) false))
differs_capture a b k c = ground arith

pub sum_capture :
    (a b k c : ℕ)
    → bit_xor (bit_xor (bit_xor a b) k) c ≡ bit_xor a (bit_xor k (bit_xor (bit_xor b c) 0))
sum_capture a b k c = eq_of_digits _ _ (λ i.
    simp (test_bit-bit_xor, test_bit-zero)
      (differs_capture (test_bit a i) (test_bit b i) (test_bit k i) (test_bit c i)))

differs_promotion_capture :
    (a b k c : Bool)
    → differs (differs (differs a b) k) c ≡ differs a (differs k (differs (differs b false) c))
differs_promotion_capture a b k c = ground arith

pub sum_promotion_capture :
    (a b k c : ℕ)
    → bit_xor (bit_xor (bit_xor a b) k) c ≡ bit_xor a (bit_xor k (bit_xor (bit_xor b 0) c))
sum_promotion_capture a b k c = eq_of_digits _ _ (λ i.
    simp (test_bit-bit_xor, test_bit-zero)
      (differs_promotion_capture (test_bit a i) (test_bit b i) (test_bit k i) (test_bit c i)))

differs_passing :
    (a k b c : Bool)
    → differs (differs (differs a k) b) c ≡ differs a (differs k (differs (differs b c) false))
differs_passing a k b c = ground arith

pub sum_passing :
    (a k b c : ℕ)
    → bit_xor (bit_xor (bit_xor a k) b) c ≡ bit_xor a (bit_xor k (bit_xor (bit_xor b c) 0))
sum_passing a k b c = eq_of_digits _ _ (λ i.
    simp (test_bit-bit_xor, test_bit-zero)
      (differs_passing (test_bit a i) (test_bit k i) (test_bit b i) (test_bit c i)))

differs_castling :
    (a r k l s : Bool)
    → differs (differs (differs (differs a r) k) l) s
      ≡ differs a (differs (differs r s) (differs (differs k l) false))
differs_castling a r k l s = ground arith

pub sum_castling :
    (a r k l s : ℕ)
    → bit_xor (bit_xor (bit_xor (bit_xor a r) k) l) s
      ≡ bit_xor a (bit_xor (bit_xor r s) (bit_xor (bit_xor k l) 0))
sum_castling a r k l s = eq_of_digits _ _ (λ i.
    simp (test_bit-bit_xor, test_bit-zero)
      (differs_castling (test_bit a i) (test_bit r i) (test_bit k i) (test_bit l i) (test_bit s i)))
