-- ===== src/Transposition/Host.antt =====
-- src/engine/tt.cpp: `resize` and `clear`, over what the engine's host provides: an allocator and a
-- pool of threads. A thread pool runs the jobs of `clear` in some order; `schedule` is the order in
-- which they run. (The code's own `order` only chooses the thread that is given a job.)
pub mod Clearing
use stockfish.Base.{
  ℕ, zero, suc, ◌+◌, ◌-◌, ◌*◌, ◌/◌, ◌%◌, ◌^◌, ◌<◌, ◌≡◌, Bool, not, ◌==◌, leb, if◌then◌else◌, Option,
  none, some, List, [], ◌∷◌,
}
use stockfish.Base.Lists.{length, Contains}
use stockfish.Base.Fill.{fill_slices}
use stockfish.Base.Words.{u64}
use stockfish.Transposition.Table.{Table, Cluster, zero_cluster, cluster_bytes}

pub record Host : Type 0 where
  pub numa_nodes : ℕ
  pub huge_page_bytes : ℕ
  pub num_threads : ℕ
  pub schedule : List ℕ
  -- `arena_alloc_hinted`: storage with unspecified contents, or a null pointer.
  pub alloc : ℕ → Bool → Option (List Cluster)

-- What the host promises: there is a thread, every job runs, and the storage has the size asked for.
pub record IsHost (h : Host) : Type 0 where
  pub threaded : 0 < h.num_threads
  pub all_run : (i : ℕ) → i < h.num_threads → Contains i h.schedule
  pub storage :
      (bytes : ℕ) (hint : Bool) (cs : List Cluster)
      → h.alloc bytes hint ≡ some cs
      → length cs ≡ bytes / cluster_bytes

unfoldable pub slice_start : ℕ → ℕ → ℕ → ℕ
slice_start threads count i = u64 (count / threads * i)

unfoldable pub slice_len : ℕ → ℕ → ℕ → ℕ
slice_len threads count i =
    if not (i + 1 == threads)
    then count / threads
    else u64 (count + 2 ^ 64 - slice_start threads count i)

-- The jobs, in the order in which they run; each is a `memset` of its slice.
unfoldable pub clear : Host → Table → Table
clear h t = record t {
  clusters =
      fill_slices zero_cluster (slice_start h.num_threads t.cluster_count)
        (slice_len h.num_threads t.cluster_count) h.schedule t.clusters;
  generation8 = 0;
}

-- `engine_abort` is `none`.
unfoldable pub resize : Host → Table → ℕ → Option Table
resize h t mb_size =
    let count = u64 (mb_size * 1024 * 1024) / cluster_bytes in
    let bytes = count * cluster_bytes in
    let huge_page_hint = leb (h.numa_nodes * h.huge_page_bytes * 8) bytes in
    elim (h.alloc bytes huge_page_hint) [
      | none ↦ none
      | some cs ↦ some (clear h (record t { cluster_count = count; clusters = cs }))
    ]
