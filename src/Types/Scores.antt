-- ===== src/Types/Scores.antt =====
-- src/engine/types.h: bounds, search values and depths.
use stockfish.Base.{ℕ, ◌-◌, Bool, not, ◌||◌, ◌==◌, if◌then◌else◌, bit_and}
use stockfish.Base.Int.{ℤ, pos, neg, ◌+ℤ◌, ◌-ℤ◌, leb_ℤ, eqb_ℤ}

-- A bound is its code, a set of the two atoms.
abbrev pub Bound : Type 0
Bound = ℕ

abbrev pub bound_none : Bound
bound_none = 0

abbrev pub bound_upper : Bound
bound_upper = 1

abbrev pub bound_lower : Bound
bound_lower = 2

abbrev pub bound_exact : Bound
bound_exact = 3

unfoldable pub covers : Bound → Bool → Bool
covers b fail_high = not (bit_and b (if fail_high then bound_lower else bound_upper) == 0)

abbrev pub Value : Type 0
Value = ℤ

abbrev pub max_ply : ℕ
max_ply = 246

abbrev pub value_none : Value
value_none = pos 32002

abbrev pub value_infinite : ℕ
value_infinite = 32001

abbrev pub value_mate : ℕ
value_mate = 32000

abbrev pub value_mate_in_max_ply : ℕ
value_mate_in_max_ply = value_mate - max_ply

abbrev pub value_tb : ℕ
value_tb = value_mate_in_max_ply - 1

abbrev pub value_tb_win_in_max_ply : ℕ
value_tb_win_in_max_ply = value_tb - max_ply

unfoldable pub is_valid : Value → Bool
is_valid v = not (eqb_ℤ v value_none)

unfoldable pub is_win : Value → Bool
is_win v = leb_ℤ (pos value_tb_win_in_max_ply) v

unfoldable pub is_loss : Value → Bool
is_loss v = leb_ℤ v (neg (pos value_tb_win_in_max_ply))

unfoldable pub is_decisive : Value → Bool
unfolding is_win is_loss
is_decisive v = is_win v || is_loss v

unfoldable pub is_mate : Value → Bool
is_mate v = leb_ℤ (pos value_mate_in_max_ply) v

unfoldable pub is_mated : Value → Bool
is_mated v = leb_ℤ v (neg (pos value_mate_in_max_ply))

unfoldable pub is_mate_or_mated : Value → Bool
unfolding is_mate is_mated
is_mate_or_mated v = is_mate v || is_mated v

unfoldable pub mate_in : ℤ → Value
unfolding ◌-ℤ◌
mate_in ply = pos value_mate -ℤ ply

unfoldable pub mated_in : ℤ → Value
unfolding ◌+ℤ◌
mated_in ply = neg (pos value_mate) +ℤ ply

abbrev pub Depth : Type 0
Depth = ℤ

abbrev pub depth_none : Depth
depth_none = neg (pos 3)
