-- ===== src/Transposition/Table/Occupancy.antt =====
-- src/engine/tt.cpp: `hashfull`, and the table that holds nothing.
use stockfish.Base.{
  ℕ, zero, suc, ◌*◌, ◌^◌, ◌≤◌, ◌<◌, ◌≡◌, refl, Bool, true, false, arith, List, [], ◌∷◌, Bool-cases,
  inl, inr, ◌==◌, to_ℕ,
}
use stockfish.Base.Int.{ℤ}
use stockfish.Base.Lists.{length, get_or, replicate, take, All, length-replicate, All-replicate}
use stockfish.Base.Words.{u16}
use stockfish.Transposition.Entry.{is_occupied}
use stockfish.Transposition.Table.{
  Table, Cluster, cluster_size, zero_cluster, first_entry, cluster_at, find_key, answer, probe,
  hashfull, counts_as_full, full_in_cluster, full_in_clusters,
}
use stockfish.Transposition.Table.Layout.{IsSized, first_entry-lt}

-- A table of `n` clusters that hold nothing.
abbrev pub empty_table : ℕ → Table
empty_table n = record { cluster_count = n; clusters = replicate n zero_cluster; generation8 = 0 }

pub empty_table-IsSized : (n : ℕ) → 0 < n → IsSized (empty_table n)
empty_table-IsSized n h = record {
  counted = length-replicate n zero_cluster;
  allocated = h;
  full = All-replicate (λ (c : Cluster). length c ≡ cluster_size) n zero_cluster refl;
}

get_or-replicate_in : (n i : ℕ) (c d : Cluster) → i < n → get_or (replicate n c) i d ≡ c
get_or-replicate_in zero i c d h = absurd (omega arith)
get_or-replicate_in (suc n) zero c d h = refl
get_or-replicate_in (suc n) (suc i) c d h = get_or-replicate_in n i c d (omega arith)

-- The zero entries match the keys that end in sixteen zero bits, and are not occupied.
pub probe-empty_table : (n key : ℕ) → 0 < n → key < 2 ^ 64 → (probe (empty_table n) key).0 ≡ false
unfolding probe answer find_key is_occupied cluster_at
probe-empty_table n key hn hk =
    let c = first_entry (empty_table n) key in
    let inside : c < n = first_entry-lt (empty_table n) key (empty_table-IsSized n hn) hk in
    let home : get_or (replicate n zero_cluster) c [] ≡ zero_cluster =
      get_or-replicate_in n c zero_cluster [] inside in
    rw home (elim (Bool-cases (0 == u16 key)) [
      | inl same ↦ rw (same, home) refl
      | inr other ↦ rw other refl
    ])

full_in_clusters-zero :
    (gen k n : ℕ) (max_age : ℤ)
    → full_in_clusters gen max_age (take k (replicate n zero_cluster)) ≡ 0
unfolding full_in_clusters full_in_cluster counts_as_full is_occupied
full_in_clusters-zero gen zero n max_age = refl
full_in_clusters-zero gen (suc k) zero max_age = refl
full_in_clusters-zero gen (suc k) (suc n) max_age =
    omega (arith, full_in_clusters-zero gen k n max_age)

pub hashfull-empty_table : (n : ℕ) (max_age : ℤ) → hashfull (empty_table n) max_age ≡ 0
unfolding hashfull
hashfull-empty_table n max_age = rw (full_in_clusters-zero 0 1000 n max_age) refl

to_ℕ-le : (b : Bool) → to_ℕ b ≤ 1
to_ℕ-le true = omega arith
to_ℕ-le false = omega arith

full_in_cluster-le :
    (gen : ℕ) (max_age : ℤ) (c : Cluster) → full_in_cluster gen max_age c ≤ length c
unfolding full_in_cluster
full_in_cluster-le gen max_age [] = omega arith
full_in_cluster-le gen max_age (e ∷ es) =
    omega (arith, to_ℕ-le (counts_as_full gen max_age e), full_in_cluster-le gen max_age es)

full_in_clusters-le :
    (gen k : ℕ) (max_age : ℤ) (cs : List Cluster)
    → All (λ (c : Cluster). length c ≡ cluster_size) cs
    → full_in_clusters gen max_age (take k cs) ≤ 3 * k
unfolding full_in_clusters
full_in_clusters-le gen zero max_age cs a = omega arith
full_in_clusters-le gen (suc k) max_age [] a = omega arith
full_in_clusters-le gen (suc k) max_age (c ∷ cs) a =
    omega (arith, a.0, full_in_cluster-le gen max_age c, full_in_clusters-le gen k max_age cs a.1)

-- In a table of three-entry clusters, at any age, `hashfull` is at most 1000.
pub hashfull-le : (t : Table) (max_age : ℤ) → IsSized t → hashfull t max_age ≤ 1000
unfolding hashfull
hashfull-le t max_age z =
    omega (arith, full_in_clusters-le t.generation8 1000 max_age t.clusters z.full)
