-- ===== src/Transposition/Tests.antt =====
-- src/engine/tt.cpp: a table of two clusters, and the theorems at it.
use stockfish.Base.{
  ℕ, zero, suc, ◌+◌, ◌*◌, ◌/◌, ◌%◌, ◌^◌, ◌≤◌, ◌<◌, ◌≡◌, refl, ◌≢◌, inl, inr, Bool, true, false,
  arith, List, [], ◌∷◌, Option, some,
}
use stockfish.Base.Int.{pos, neg}
use stockfish.Base.Lists.{length, replicate, length-replicate, Contains}
use stockfish.Basetypes.{mul_hi64}
use stockfish.Transposition.Entry.{
  Entry, read, save, overwrites, relative_age, pack_gen_bound, bound_of, pv_of,
}
use stockfish.Transposition.Entry.Packing.{unpack_packed}
use stockfish.Transposition.Entry.Saving.{IsValid, save_reads_back, save_keeps, save_protects}
use stockfish.Transposition.Table.{
  Table, Cluster, first_entry, probe, write, hashfull, generation, zero_cluster,
}
use stockfish.Transposition.Table.Layout.{IsSized, IsInside}
use stockfish.Transposition.Table.Occupancy.{empty_table, empty_table-IsSized, hashfull-le}
use stockfish.Transposition.Table.Ageing.{searches, age_after_searches}
use stockfish.Transposition.Table.Rewriting.{
  Probed, probe-Probed, probe_after_write, probe_elsewhere,
}
use stockfish.Transposition.Host.{Host, IsHost, clear, resize}
use stockfish.Transposition.Host.Clearing.{clear_zeroes, resize_empty}

abbrev two_clusters : Table
two_clusters = empty_table 2

two_clusters-IsSized : IsSized two_clusters
two_clusters-IsSized = empty_table-IsSized 2 (omega arith)

-- A key of the second cluster, and one of the first.
abbrev high_key : ℕ
high_key = 2 ^ 63 + 0x1234

abbrev low_key : ℕ
low_key = 0x5678

-- An entry of `high_key`: depth 7, exact, of generation 3.
abbrev stored : Entry
stored = record {
  key16 = 0x1234;
  depth8 = 10;
  gen_bound8 = 99;
  move16 = 796;
  value16 = pos 31;
  eval16 = neg (pos 12);
}

stored-IsValid : IsValid stored
stored-IsValid = omega arith

unpack_packed_example :
    (bound_of 99 ≡ 3) × (pv_of 99 ≡ false) × (relative_age stored ((3 + 40) % 32) ≡ 40 % 32)
unfolding pack_gen_bound
unpack_packed_example = unpack_packed 3 3 40 false stored (omega arith) (omega arith) refl

-- An exact result without a move overwrites the entry and keeps its move.
save_reads_back_example :
    let new = save stored high_key (pos 50) true 3 (pos 2) 0 (pos 7) 4 in
    (new.key16 ≡ 0x1234)
    × (0 < new.depth8)
    × (read new new.depth8 ≡ record {
      move = 796;
      value = pos 50;
      eval = pos 7;
      depth = pos 2;
      bound = 3;
      is_pv = true;
    })
    × (relative_age new 4 ≡ 0)
unfolding overwrites
save_reads_back_example =
    save_reads_back stored high_key (pos 50) true 3 (pos 2) 0 (pos 7) 4 refl (omega arith)
      (omega arith) (omega arith) (omega arith) (omega arith) (omega arith) (omega arith)
      (omega arith)

-- A shallow upper bound does not overwrite it.
save_keeps_example :
    let new = save stored high_key (pos 50) false 1 (neg (pos 1)) 33 (pos 7) 3 in
    (new.key16 ≡ 0x1234)
    × (new.gen_bound8 ≡ 99)
    × (new.value16 ≡ pos 31)
    × (new.eval16 ≡ neg (pos 12))
    × (new.move16 ≡ 33)
    × (new.depth8 ≤ 10)
    × (10 ≤ new.depth8 + 1)
unfolding overwrites
save_keeps_example =
    save_keeps stored high_key (pos 50) false 1 (neg (pos 1)) 33 (pos 7) 3 stored-IsValid
      (omega arith) refl

save_protects_example :
    10 ≤ (save stored high_key (pos 50) false 1 (pos 5) 33 (pos 7) 3).depth8 + 3 + 2 * 0
unfolding relative_age
save_protects_example =
    save_protects stored high_key (pos 50) false 1 (pos 5) 33 (pos 7) 3 stored-IsValid (omega arith)
      refl (omega arith) refl (omega arith) (omega arith)

age_after_searches_example :
    ((searches 40 (record two_clusters { generation8 = 3 })).clusters ≡ replicate 2 zero_cluster)
    × ((searches 40 (record two_clusters { generation8 = 3 })).generation8 < 32)
    × (relative_age stored (generation (searches 40 (record two_clusters { generation8 = 3 })))
        ≡ 40 % 32)
unfolding pack_gen_bound generation
age_after_searches_example =
    age_after_searches 40 3 false (record two_clusters { generation8 = 3 }) stored (omega arith)
      (omega arith) refl

hashfull-le_example : hashfull two_clusters (pos 0) ≤ 1000
hashfull-le_example = hashfull-le two_clusters (pos 0) two_clusters-IsSized

probe-Probed_example :
    Probed two_clusters high_key
      (probe two_clusters high_key).0
      (probe two_clusters high_key).1
      (probe two_clusters high_key).2
    × IsInside two_clusters (probe two_clusters high_key).2
    × ((probe two_clusters high_key).2.cluster ≡ first_entry two_clusters high_key)
probe-Probed_example = probe-Probed two_clusters high_key two_clusters-IsSized (omega arith)

probe_after_write_example :
    let w = (probe two_clusters high_key).2 in
    probe (write two_clusters w high_key (pos 50) true 3 (pos 2) 796 (pos 7) 4) high_key ≡ (
      true,
      record { move = 796; value = pos 50; eval = pos 7; depth = pos 2; bound = 3; is_pv = true },
      w,
    )
unfolding overwrites
probe_after_write_example =
    probe_after_write two_clusters high_key two_clusters-IsSized (omega arith) (pos 50) true 3
      (pos 2) 796 (pos 7) 4 refl (omega arith) (omega arith) (omega arith) (omega arith)
      (omega arith) (omega arith) (omega arith) (omega arith)

homes_differ : first_entry two_clusters low_key ≢ first_entry two_clusters high_key
unfolding first_entry mul_hi64
homes_differ = omega arith

probe_elsewhere_example :
    probe
      (write two_clusters
        (probe two_clusters high_key).2
        high_key
        (pos 50)
        true
        3
        (pos 2)
        796
        (pos 7)
        4)
      low_key
    ≡ probe two_clusters low_key
probe_elsewhere_example =
    probe_elsewhere two_clusters high_key two_clusters-IsSized (omega arith) (pos 50) true 3 (pos 2)
      796 (pos 7) 4 low_key homes_differ

-- Two threads that run their jobs in reverse, and an allocator that returns used storage.
abbrev used_storage : ℕ → Bool → Option (List Cluster)
used_storage bytes hint = some (replicate (bytes / 32) (stored ∷ stored ∷ stored ∷ []))

abbrev two_threads : Host
two_threads = record {
  numa_nodes = 1;
  huge_page_bytes = 2 ^ 30;
  num_threads = 2;
  schedule = 1 ∷ 0 ∷ [];
  alloc = used_storage;
}

two_jobs : (i : ℕ) → i < 2 → Contains i (1 ∷ 0 ∷ [])
two_jobs zero h = inr (inl refl)
two_jobs (suc zero) h = inl refl
two_jobs (suc (suc i)) h = absurd (omega arith)

two_threads-IsHost : IsHost two_threads
two_threads-IsHost = record {
  threaded = omega arith;
  all_run = two_jobs;
  storage = λ bytes hint cs e. storage_length bytes cs e;
}
  where
    storage_length :
        (bytes : ℕ) (cs : List Cluster)
        → some (replicate (bytes / 32) (stored ∷ stored ∷ stored ∷ [])) ≡ some cs
        → length cs ≡ bytes / 32
    storage_length bytes cs e =
        let same : replicate (bytes / 32) (stored ∷ stored ∷ stored ∷ []) ≡ cs = cc in
        rw (← same) (length-replicate (bytes / 32) (stored ∷ stored ∷ stored ∷ []))

clear_zeroes_example :
    clear two_threads (record {
      cluster_count = 3;
      clusters = replicate 3 (stored ∷ stored ∷ stored ∷ []);
      generation8 = 9;
    })
    ≡ empty_table 3
clear_zeroes_example =
    clear_zeroes two_threads
      (record {
        cluster_count = 3;
        clusters = replicate 3 (stored ∷ stored ∷ stored ∷ []);
        generation8 = 9;
      })
      two_threads-IsHost refl (omega arith)

resized : Table
resized = clear two_threads (record {
  cluster_count = 32768;
  clusters = replicate 32768 (stored ∷ stored ∷ stored ∷ []);
  generation8 = 0;
})

resize_empty_example :
    (resized ≡ empty_table 32768)
    × IsSized resized
    × ((probe resized high_key).0 ≡ false)
    × (hashfull resized (pos 31) ≡ 0)
resize_empty_example =
    resize_empty two_threads two_clusters resized 1 high_key (pos 31) two_threads-IsHost
      (omega arith) (omega arith) (omega arith) resized_is
  where
    resized_is : resize two_threads two_clusters 1 ≡ some resized
    resized_is = unfold resize resized in refl
