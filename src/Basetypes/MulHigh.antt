-- ===== src/Basetypes/MulHigh.antt =====
-- src/engine/basetypes.h: both bodies of `mul_hi64`, and its use as an index into a table.
use stockfish.Base.{ℕ, ◌+◌, ◌-◌, ◌*◌, ◌/◌, ◌%◌, ◌^◌, ◌≤◌, ◌<◌, ◌≡◌, arith}
use native.Mathlib.Nat.{mul-le-mul, mul-le-mul_right, div-lt_iff_lt-mul}
use stockfish.Base.Words.{u64}
use stockfish.Basetypes.{mul_hi64, mul_hi64_by_halves}

-- A product of two 32-bit numbers and two more such numbers fit 64 bits.
half_product_bound : (x y : ℕ) → x < 2 ^ 32 → y < 2 ^ 32 → x * y + 2 * (2 ^ 32 - 1) < 2 ^ 64
half_product_bound x y hx hy =
    let bound : x * y ≤ (2 ^ 32 - 1) * (2 ^ 32 - 1) =
      mul-le-mul {n₁ = x} {m₁ = y} {n₂ = 2 ^ 32 - 1} {m₂ = 2 ^ 32 - 1} (omega arith)
        (omega arith) in
    omega arith

-- The three carries, over the four partial products.
halves_of_product :
    (al ah bl bh a b : ℕ)
    → al < 2 ^ 32
    → ah < 2 ^ 32
    → bl < 2 ^ 32
    → bh < 2 ^ 32
    → a ≡ ah * 2 ^ 32 + al
    → b ≡ bh * 2 ^ 32 + bl
    → let c2 = u64 (ah * bl + u64 (al * bl) / 2 ^ 32) in
      let c3 = u64 (al * bh + c2 % 2 ^ 32) in
      u64 (ah * bh + c2 / 2 ^ 32 + c3 / 2 ^ 32) ≡ a * b / 2 ^ 64
halves_of_product al ah bl bh a b hal hah hbl hbh ea eb =
    let ll = half_product_bound al bl hal hbl in
    let hl = half_product_bound ah bl hah hbl in
    let lh = half_product_bound al bh hal hbh in
    let hh = half_product_bound ah bh hah hbh in
    let product : a * b ≡ ah * bh * 2 ^ 64 + (ah * bl + al * bh) * 2 ^ 32 + al * bl =
      rw (ea, eb) (omega arith) in
    rw product (omega arith)

-- For 64-bit arguments the body for compilers without 128-bit integers computes the same number as
-- the other, though each of its operations is done modulo `2 ^ 64`.
pub mul_hi64_by_halves-mul_hi64 :
    (a b : ℕ) → a < 2 ^ 64 → b < 2 ^ 64 → mul_hi64_by_halves a b ≡ mul_hi64 a b
unfolding mul_hi64 mul_hi64_by_halves
mul_hi64_by_halves-mul_hi64 a b ha hb =
    halves_of_product (a % 2 ^ 32) (a / 2 ^ 32) (b % 2 ^ 32) (b / 2 ^ 32) a b (omega arith)
      (omega arith) (omega arith) (omega arith) (omega arith) (omega arith)

-- A 64-bit key is sent below `n`, for every positive `n`.
pub mul_hi64-lt : (key n : ℕ) → key < 2 ^ 64 → 0 < n → mul_hi64 key n < n
unfolding mul_hi64
mul_hi64-lt key n hk hn =
    (div-lt_iff_lt-mul (omega arith)).1
      (omega (arith, mul-le-mul_right {m = key} {n = 2 ^ 64 - 1} n (omega arith)))
