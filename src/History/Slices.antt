-- ===== src/History/Slices.antt =====
-- src/engine/history.h: the slices of a shared table cover it, one after the other.
use stockfish.Base.{
  ℕ, zero, suc, ◌+◌, ◌-◌, ◌*◌, ◌/◌, ◌%◌, ◌^◌, ◌≤◌, ◌<◌, ◌≡◌, refl, ◌∙◌, arith, List, [], ◌∷◌, ◌==◌,
  Bool-cases, inl, inr, sym, ◌⊎◌,
}
use native.Mathlib.Decide.{dec_le, dec_lt}
use native.Mathlib.Nat.{mul-le-mul_right, mul-div_cancel_left, div-lt_iff_lt-mul, div-mul-le_self}
use stockfish.Base.Fill.{fill_slices, fill_slices_all}
use stockfish.Base.Lists.{length, replicate, Contains}
use stockfish.History.{WorkerShare, slice_from, slice_to, clear_range}

module _ (count total : ℕ) where
  abbrev share : ℕ → WorkerShare
  share i = record { index = i; total = total }

  -- Where the slices begin, and the last ends.
  abbrev edge : ℕ → ℕ
  edge i = i * count / total

  product-le : (i : ℕ) → i ≤ total → i * count ≤ total * count
  product-le i h = mul-le-mul_right {m = i} {n = total} count h

  slice_from-edge :
      (i : ℕ) → i < total → total * count < 2 ^ 64 → slice_from count (share i) ≡ edge i
  unfolding slice_from
  slice_from-edge i h fits =
      let small : i * count % 2 ^ 64 ≡ i * count = omega (arith, product-le i (omega arith)) in
      rw small refl

  slice_to-edge :
      (i : ℕ)
      → i < total
      → total < 2 ^ 64
      → total * count < 2 ^ 64
      → slice_to count (share i) ≡ edge (i + 1)
  unfolding slice_to
  slice_to-edge i h narrow fits = elim (Bool-cases (i + 1 == total)) [
    | inl last ↦
        let all : total * count / total ≡ count = mul-div_cancel_left count (omega arith) in
        let end : i + 1 ≡ total = ground arith in rw (last, end, all) refl
    | inr inner ↦
        let index : (i + 1) % 2 ^ 64 ≡ i + 1 = omega arith in
        let small : (i + 1) * count % 2 ^ 64 ≡ (i + 1) * count =
          omega (arith, product-le (i + 1) (omega arith)) in
        rw (inner, index, small) refl
  ]

  edge-zero : edge 0 ≡ 0
  edge-zero = let none : 0 * count ≡ 0 = omega arith in rw none (omega arith)

  edge-total : 0 < total → edge total ≡ count
  edge-total h = mul-div_cancel_left count h

  edge_mono : (i : ℕ) → 0 < total → edge i ≤ edge (i + 1)
  edge_mono i h = elim (dec_le (edge i) (edge (i + 1))) [
    | yes p ↦ p
    | no p ↦
        let above : (i + 1) * count < edge i * total =
          (div-lt_iff_lt-mul {y = edge i} h).0 (omega arith) in
        let below : edge i * total ≤ i * count = div-mul-le_self (i * count) total in
        absurd (omega arith)
  ]

  -- For a table whose size times the number of workers fits 64 bits: the first slice begins at 0, each
  -- slice that follows another begins where that ends, none is inverted, and the last ends at the size.
  pub slices_partition :
      (i : ℕ)
      → i < total
      → total < 2 ^ 64
      → total * count < 2 ^ 64
      → (slice_from count (share 0) ≡ 0)
        × (slice_from count (share i) ≤ slice_to count (share i))
        × ((slice_from count (share (i + 1)) ≡ slice_to count (share i)) ⊎ (i + 1 ≡ total))
        × (slice_to count (share (total - 1)) ≡ count)
  slices_partition i h narrow fits = (
    slice_from-edge 0 (omega arith) fits ∙ edge-zero,
    rw (slice_from-edge i h fits, slice_to-edge i h narrow fits) (edge_mono i (omega arith)),
    elim (dec_lt (i + 1) total) [
      | yes more ↦ inl (slice_from-edge (i + 1) more fits ∙ sym (slice_to-edge i h narrow fits))
      | no last ↦ inr (omega arith)
    ],
    slice_to-edge (total - 1) (omega arith) narrow fits
        ∙ (let all : total - 1 + 1 ≡ total = omega arith in rw all (edge-total (omega arith))),
  )

  -- A place before edge `k` lies in one of the first `k` slices.
  find_slice :
      (k j : ℕ) → k ≤ total → j < edge k → (i : ℕ) × (i < k) × (edge i ≤ j) × (j < edge (i + 1))
  find_slice zero j h l = absurd (omega (arith, edge-zero))
  find_slice (suc k) j h l = elim (dec_le (edge k) j) [
    | yes p ↦ (k, omega arith, p, (let next : suc k ≡ k + 1 = omega arith in rw next at l))
    | no p ↦ let (i, a, b, c) = find_slice k j (omega arith) (omega arith) in (i, omega arith, b, c)
  ]

  -- The workers' calls of `clear_range`, in the order in which they are made.
  unfoldable pub clear_shared {ℓ} : {A : Type ℓ} → A → List A → List ℕ → List A
  clear_shared value entries [] = entries
  clear_shared value entries (i ∷ order) =
      clear_shared value (clear_range value entries count (share i)) order

  clear_shared-fill_slices {ℓ} :
      {A : Type ℓ} (value : A) (entries : List A) (order : List ℕ)
      → clear_shared value entries order
        ≡ fill_slices value
            (λ i. slice_from count (share i))
            (λ i. slice_to count (share i) - slice_from count (share i))
            order
            entries
  unfolding clear_shared fill_slices clear_range
  clear_shared-fill_slices value entries [] = refl
  clear_shared-fill_slices value entries (i ∷ order) =
      clear_shared-fill_slices value (clear_range value entries count (share i)) order

  -- Where every worker clears its slice, in whatever order and however often, the whole table of
  -- `count` entries is filled, if the number of workers, and its product with the size, fit 64 bits.
  pub clear_shared_fills {ℓ} :
      {A : Type ℓ} (value : A) (entries : List A) (order : List ℕ)
      → 0 < total
      → total < 2 ^ 64
      → total * count < 2 ^ 64
      → length entries ≡ count
      → ((i : ℕ) → i < total → Contains i order)
      → clear_shared value entries order ≡ replicate count value
  clear_shared_fills value entries order h narrow fits e all =
      clear_shared-fill_slices value entries order
      ∙ fill_slices_all value (λ i. slice_from count (share i))
          (λ i. slice_to count (share i) - slice_from count (share i)) order entries count e
          (λ j l.
            let (i, a, b, c) = find_slice total j (omega arith) (omega (arith, edge-total h)) in
            let from = slice_from-edge i a fits in
            let to = slice_to-edge i a narrow fits in (i, all i a, (omega arith, omega arith)))
