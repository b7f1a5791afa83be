-- ===== src/History/Tests.antt =====
-- src/engine/history.h: concrete counters and slices, and the theorems at them.
use stockfish.Base.{ℕ, zero, suc, ◌≤◌, ◌<◌, ◌≡◌, refl, ◌⊎◌, inl, inr, arith, [], ◌∷◌}
use stockfish.Base.Int.{pos, neg, abs, ◌≤ℤ◌}
use stockfish.Base.Lists.{replicate, Contains}
use stockfish.History.{update, slice_from, slice_to}
use stockfish.History.Bounds.{update_within, update_direction, update_saturates}
use stockfish.History.Slices.{slices_partition, clear_shared, clear_shared_fills}

halfway : update 7183 (pos 3000) (neg (pos 1000)) ≡ pos 1583
unfolding update
halfway = refl

update_within_example : abs (update 7183 (neg (pos 7000)) (neg (pos 90000))) ≤ 7183
update_within_example =
    update_within 7183 (neg (pos 7000)) (neg (pos 90000)) (omega arith) (omega arith) (omega arith)

update_direction_example :
    (pos 3000 ≤ℤ update 7183 (pos 3000) (pos 1000))
    × (update 7183 (pos 3000) (neg (pos 1000)) ≤ℤ pos 3000)
update_direction_example =
    update_direction 7183 (pos 3000) 1000 (omega arith) (omega arith) (omega arith)

update_saturates_example :
    (update 7183 (pos 3000) (pos 8000) ≡ pos 7183)
    × (update 7183 (pos 3000) (neg (pos 8000)) ≡ neg (pos 7183))
update_saturates_example =
    update_saturates 7183 (pos 3000) 8000 (omega arith) (omega arith) (omega arith) (omega arith)

slices_partition_example :
    (slice_from 10 (record { index = 0; total = 3 }) ≡ 0)
    × (slice_from 10 (record { index = 1; total = 3 })
        ≤ slice_to 10 (record { index = 1; total = 3 }))
    × ((slice_from 10 (record { index = 2; total = 3 })
          ≡ slice_to 10 (record { index = 1; total = 3 }))
        ⊎ (◌≡◌ {A = ℕ} 2 3))
    × (slice_to 10 (record { index = 2; total = 3 }) ≡ 10)
slices_partition_example = slices_partition 10 3 1 (omega arith) (omega arith) (omega arith)

two_workers : (i : ℕ) → i < 2 → Contains i (1 ∷ 0 ∷ [])
two_workers zero h = inr (inl refl)
two_workers (suc zero) h = inl refl
two_workers (suc (suc i)) h = absurd (omega arith)

clear_shared_fills_example :
    clear_shared 5 2 {A = ℕ} 7 (1 ∷ 2 ∷ 3 ∷ 4 ∷ 5 ∷ []) (1 ∷ 0 ∷ []) ≡ replicate 5 7
clear_shared_fills_example =
    clear_shared_fills 5 2 7 (1 ∷ 2 ∷ 3 ∷ 4 ∷ 5 ∷ []) (1 ∷ 0 ∷ []) (omega arith) (omega arith)
      (omega arith) refl two_workers
