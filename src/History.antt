-- ===== src/History.antt =====
-- src/engine/history.h: the counters of the move statistics, and the clearing of a shared table of
-- them by slices.
pub mod Bounds
pub mod Slices
mod Tests
use stockfish.Base.{ℕ, ◌+◌, ◌-◌, ◌*◌, ◌/◌, ◌%◌, ◌^◌, ◌==◌, if◌then◌else◌, List}
use stockfish.Base.Fill.{fill_range}
use stockfish.Base.Int.{ℤ, pos, neg, abs, clamp, div_ℕ, ◌+ℤ◌, ◌-ℤ◌, ◌*ℤ◌}
use stockfish.Base.Words.{i16, u64}

-- `StatsEntry<i16, D>::update`: the counter that it stores, for a value read before. The sum is an
-- `int`, stored as `i16`.
unfoldable pub update : ℕ → ℤ → ℤ → ℤ
unfolding ◌+ℤ◌ ◌-ℤ◌ ◌*ℤ◌
update limit val bonus =
    let clamped = clamp bonus (neg (pos limit)) (pos limit) in
    i16 (val +ℤ clamped -ℤ div_ℕ (val *ℤ pos (abs clamped)) limit)

-- `operator<<`.
unfoldable pub add_bonus : ℕ → ℤ → ℤ → ℤ
unfolding update
add_bonus limit entry bonus = update limit entry bonus

pub record WorkerShare : Type 0 where
  pub index : ℕ
  pub total : ℕ

-- `shared_slice`: the two bounds of the half-open slice.
unfoldable pub slice_from : ℕ → WorkerShare → ℕ
slice_from count share = u64 (share.index * count) / share.total

unfoldable pub slice_to : ℕ → WorkerShare → ℕ
slice_to count share =
    if share.index + 1 == share.total
    then count
    else u64 (u64 (share.index + 1) * count) / share.total

-- `DynStats::clear_range`: each element is filled with the value; an element is what it holds after
-- being filled.
unfoldable pub clear_range {ℓ} : {A : Type ℓ} → A → List A → ℕ → WorkerShare → List A
clear_range value entries size share =
    fill_range value (slice_from size share) (slice_to size share - slice_from size share) entries
