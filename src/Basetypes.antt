-- ===== src/Basetypes.antt =====
-- src/engine/basetypes.h: the high half of a product.
pub mod MulHigh
use stockfish.Base.{ℕ, ◌+◌, ◌*◌, ◌/◌, ◌%◌, ◌^◌}
use stockfish.Base.Words.{u64}

-- With 128-bit arithmetic.
unfoldable pub mul_hi64 : ℕ → ℕ → ℕ
mul_hi64 a b = a * b / 2 ^ 64

-- Without it, by halves of 32 bits; every `u64` operation wraps round.
unfoldable pub mul_hi64_by_halves : ℕ → ℕ → ℕ
mul_hi64_by_halves a b =
    let a_low = a % 2 ^ 32 in
    let a_high = a / 2 ^ 32 in
    let b_low = b % 2 ^ 32 in
    let b_high = b / 2 ^ 32 in
    let c1 = u64 (a_low * b_low) / 2 ^ 32 in
    let c2 = u64 (a_high * b_low + c1) in
    let c3 = u64 (a_low * b_high + c2 % 2 ^ 32) in u64 (a_high * b_high + c2 / 2 ^ 32 + c3 / 2 ^ 32)
