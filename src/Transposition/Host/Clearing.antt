-- ===== src/Transposition/Host/Clearing.antt =====
-- src/engine/tt.cpp: the slices of `clear` cover the table, whatever their order.
use stockfish.Base.{
  ℕ, ◌+◌, ◌-◌, ◌*◌, ◌/◌, ◌%◌, ◌^◌, ◌≤◌, ◌<◌, ◌≡◌, refl, sym, ap, ◌∙◌, Bool, false, arith, leb, List,
  Option, none, some,
}
use native.Mathlib.Nat.{div-add-mod, mod-lt, div-lt_iff_lt-mul, mul_comm}
use native.Mathlib.Decide.{dec_le}
use stockfish.Base.Lists.{length, replicate}
use stockfish.Base.Fill.{fill_slices, fill_slices_all, InSlice}
use stockfish.Base.Int.{ℤ}
use stockfish.Base.Words.{u64}
use stockfish.Transposition.Table.{Table, Cluster, zero_cluster, cluster_bytes, probe, hashfull}
use stockfish.Transposition.Table.Layout.{IsSized}
use stockfish.Transposition.Table.Occupancy.{
  empty_table, empty_table-IsSized, probe-empty_table, hashfull-empty_table,
}
use stockfish.Transposition.Host.{Host, IsHost, slice_start, slice_len, clear, resize}

module _ (threads count : ℕ) where
  abbrev InJob : ℕ → ℕ → Type 0
  InJob = InSlice zero_cluster (slice_start threads count) (slice_len threads count)

  -- The last slice takes what the even ones leave.
  last_slice :
      (i j : ℕ) → i + 1 ≡ threads → count < 2 ^ 64 → j < count → count / threads * i ≤ j → InJob i j
  unfolding slice_start slice_len
  last_slice i j e hc hj h = ground arith

  even_slice :
      (i j : ℕ)
      → i + 1 < threads
      → count < 2 ^ 64
      → j < count
      → count / threads * i ≤ j
      → j < count / threads * i + count / threads
      → InJob i j
  unfolding slice_start slice_len
  even_slice i j e hc hj h k = ground arith

  -- Every cluster lies in a slice.
  slice_of :
      (j : ℕ) → 0 < threads → count < 2 ^ 64 → j < count → (i : ℕ) × (i < threads) × InJob i j
  slice_of j ht hc hj = elim (dec_le (count / threads * (threads - 1)) j) [
    | yes h ↦ (threads - 1, omega arith, last_slice (threads - 1) j (omega arith) hc hj h)
    | no h ↦
        let q = count / threads in
        let split : q * (j / q) + j % q ≡ j = div-add-mod j q in
        let some_stride : 0 < q = grind arith in
        let rest : j % q < q = mod-lt j some_stride in
        let before : j / q < threads - 1 =
          (div-lt_iff_lt-mul some_stride).1 (omega (arith, mul_comm (threads - 1) q)) in
        (j / q, omega arith, even_slice (j / q) j (omega arith) hc hj (omega arith) (omega arith))
  ]

-- Whatever order the jobs run in, where the host has a thread and runs every job, `clear` leaves a
-- table of its own size, below `2 ^ 64` clusters, with the zero cluster in every place and
-- generation 0.
pub clear_zeroes :
    (h : Host) (t : Table)
    → IsHost h
    → length t.clusters ≡ t.cluster_count
    → t.cluster_count < 2 ^ 64
    → clear h t ≡ record {
      cluster_count = t.cluster_count;
      clusters = replicate t.cluster_count zero_cluster;
      generation8 = 0;
    }
unfolding clear
clear_zeroes h t v e fits =
    let n = t.cluster_count in
    let zeroes : fill_slices zero_cluster (slice_start h.num_threads n) (slice_len h.num_threads n)
          h.schedule t.clusters
        ≡ replicate n zero_cluster =
      fill_slices_all zero_cluster (slice_start h.num_threads n) (slice_len h.num_threads n)
        h.schedule t.clusters n e
        (λ j l.
          let (i, inside, slice) = slice_of h.num_threads n j v.threaded fits l in
          (i, v.all_run i inside, slice)) in
    rw zeroes refl

-- Where the host keeps its promises and the allocation succeeds, `resize` to a positive number of MiB
-- below `2 ^ 43` makes a table of 32768 zero clusters for each MiB and generation 0, in which no
-- 64-bit key is found, and no entry counted as full at any age.
pub resize_empty :
    (h : Host) (t u : Table) (mb_size key : ℕ) (max_age : ℤ)
    → IsHost h
    → 0 < mb_size
    → mb_size < 2 ^ 43
    → key < 2 ^ 64
    → resize h t mb_size ≡ some u
    → (u ≡ record {
      cluster_count = mb_size * 32768;
      clusters = replicate (mb_size * 32768) zero_cluster;
      generation8 = 0;
    })
      × IsSized u
      × ((probe u key).0 ≡ false)
      × (hashfull u max_age ≡ 0)
unfolding resize
resize_empty h t u mb_size key max_age v lo hi fits e =
    let (cs, got, at) = allocated (h.alloc bytes hint) e in
    let cleared : u ≡ empty_table (mb_size * 32768) =
      sym at
      ∙ clear_zeroes h (record t { cluster_count = count; clusters = cs }) v
          (v.storage bytes hint cs got ∙ omega arith) (omega arith)
      ∙ ap empty_table (omega arith) in
    rw cleared (
      refl,
      empty_table-IsSized (mb_size * 32768) (omega arith),
      probe-empty_table (mb_size * 32768) key (omega arith) fits,
      hashfull-empty_table (mb_size * 32768) max_age,
    )
  where
    count : ℕ
    count = u64 (mb_size * 1024 * 1024) / cluster_bytes

    bytes : ℕ
    bytes = count * cluster_bytes

    hint : Bool
    hint = leb (h.numa_nodes * h.huge_page_bytes * 8) bytes

    sized : List Cluster → Table
    sized cs = clear h (record t { cluster_count = count; clusters = cs })

    allocated :
        (o : Option (List Cluster))
        → (elim o [ none ↦ none | some cs ↦ some (sized cs) ]) ≡ some u
        → (cs : List Cluster) × (o ≡ some cs) × (sized cs ≡ u)
    allocated none e = cc
    allocated (some cs) e = (cs, refl, cc)
