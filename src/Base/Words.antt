-- ===== src/Base/Words.antt =====
-- Machine words: conversions of C++ between integer types.
use Prim.Native.Nat.{ℕ, ◌-◌, ◌%◌, ◌^◌}
use stockfish.Base.Tests.{ltb, if◌then◌else◌}
use stockfish.Base.Int.{ℤ, pos, negsuc}

-- The conversion of an `int` to an unsigned type of `m` values wraps round.
abbrev pub to_unsigned : ℕ → ℤ → ℕ
to_unsigned m (pos n) = n % m
to_unsigned m (negsuc n) = m - 1 - n % m

abbrev pub u8 : ℕ → ℕ
u8 x = x % 2 ^ 8

abbrev pub u16 : ℕ → ℕ
u16 x = x % 2 ^ 16

abbrev pub u64 : ℕ → ℕ
u64 x = x % 2 ^ 64

-- The value of a 16-bit pattern read as `i16`.
abbrev pub signed16 : ℕ → ℤ
signed16 w = if ltb w (2 ^ 15) then pos w else negsuc (2 ^ 16 - 1 - w)

-- The conversion of an `int` to `i16` keeps its low 16 bits.
abbrev pub i16 : ℤ → ℤ
i16 v = signed16 (to_unsigned (2 ^ 16) v)
