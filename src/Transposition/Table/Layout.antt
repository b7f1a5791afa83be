-- ===== src/Transposition/Table/Layout.antt =====
-- src/engine/tt.cpp: the table as an array: sizes, and reading an entry after a store.
use stockfish.Base.{
  ℕ, zero, suc, [], ◌∷◌, ◌^◌, ◌<◌, ◌≡◌, refl, ◌∙◌, ◌⊎◌, inl, inr, ◌≢◌, List, arith,
}
use stockfish.Base.Lists.{
  length, get_or, set, All, All-set, length-set, get_or-set_self, get_or-set_ne,
}
use native.Mathlib.Decide.{ℕ_discrete}
use stockfish.Basetypes.MulHigh.{mul_hi64-lt}
use stockfish.Transposition.Entry.{Entry}
use stockfish.Transposition.Table.{
  Table, Cluster, TtWriter, cluster_size, zero_entry, first_entry, cluster_at, entry_at, store,
}

-- An allocated table: as many clusters as counted, at least one, of three entries each.
pub record IsSized (t : Table) : Type 0 where
  pub counted : length t.clusters ≡ t.cluster_count
  pub allocated : 0 < t.cluster_count
  pub full : All (λ (c : Cluster). length c ≡ cluster_size) t.clusters

-- A pointer into the table.
pub record IsInside (t : Table) (w : TtWriter) : Type 0 where
  pub cluster_in : w.cluster < t.cluster_count
  pub slot_in : w.slot < cluster_size

length-get_or :
    (cs : List Cluster) (i : ℕ)
    → All (λ (c : Cluster). length c ≡ cluster_size) cs
    → i < length cs
    → length (get_or cs i []) ≡ cluster_size
length-get_or [] i a h = absurd (omega arith)
length-get_or (c ∷ cs) zero a h = a.0
length-get_or (c ∷ cs) (suc i) a h = length-get_or cs i a.1 (omega arith)

-- The cluster of every 64-bit key lies in the table, and holds three entries.
pub length-cluster_at :
    (t : Table) (i : ℕ) → IsSized t → i < t.cluster_count → length (cluster_at t i) ≡ cluster_size
unfolding cluster_at
length-cluster_at t i z h = length-get_or t.clusters i z.full (rw z.counted h)

pub first_entry-lt :
    (t : Table) (key : ℕ) → IsSized t → key < 2 ^ 64 → first_entry t key < t.cluster_count
unfolding first_entry
first_entry-lt t key z h = mul_hi64-lt key t.cluster_count h z.allocated

pub store-IsSized :
    (t : Table) (w : TtWriter) (e : Entry) → IsSized t → IsInside t w → IsSized (store t w e)
unfolding store
store-IsSized t w e z v = record {
  counted = length-set t.clusters w.cluster (set (cluster_at t w.cluster) w.slot e) ∙ z.counted;
  allocated = z.allocated;
  full =
      All-set (λ (c : Cluster). length c ≡ cluster_size) t.clusters w.cluster
        (set (cluster_at t w.cluster) w.slot e) z.full
        (length-set (cluster_at t w.cluster) w.slot e
          ∙ length-cluster_at t w.cluster z v.cluster_in);
}

pub cluster_at-store :
    (t : Table) (w : TtWriter) (e : Entry)
    → IsSized t
    → IsInside t w
    → cluster_at (store t w e) w.cluster ≡ set (cluster_at t w.cluster) w.slot e
unfolding cluster_at store
cluster_at-store t w e z v =
    get_or-set_self t.clusters w.cluster (set (get_or t.clusters w.cluster []) w.slot e) []
      (rw z.counted v.cluster_in)

pub cluster_at-store_ne :
    (t : Table) (w : TtWriter) (j : ℕ) (e : Entry)
    → w.cluster ≢ j
    → cluster_at (store t w e) j ≡ cluster_at t j
unfolding cluster_at store
cluster_at-store_ne t w j e h =
    get_or-set_ne t.clusters w.cluster j (set (cluster_at t w.cluster) w.slot e) [] h

entry_at-store_ne :
    (t : Table) (w w' : TtWriter) (e : Entry)
    → IsSized t
    → IsInside t w
    → (w.cluster ≢ w'.cluster) ⊎ (w.slot ≢ w'.slot)
    → entry_at (store t w e) w' ≡ entry_at t w'
unfolding entry_at
entry_at-store_ne t w w' e z v (inl h) = rw (cluster_at-store_ne t w w'.cluster e h) refl
entry_at-store_ne t w w' e z v (inr h) = elim (ℕ_discrete w.cluster w'.cluster) [
  | yes same ↦
      rw (← same, cluster_at-store t w e z v)
        (get_or-set_ne (cluster_at t w.cluster) w.slot w'.slot e zero_entry h)
  | no differ ↦ rw (cluster_at-store_ne t w w'.cluster e differ) refl
]

-- A store is read back at its own place, and changes no other entry of the table.
pub entry_at-store :
    (t : Table) (w w' : TtWriter) (e : Entry)
    → IsSized t
    → IsInside t w
    → (entry_at (store t w e) w ≡ e)
      × ((w.cluster ≢ w'.cluster) ⊎ (w.slot ≢ w'.slot) → entry_at (store t w e) w' ≡ entry_at t w')
unfolding entry_at
entry_at-store t w w' e z v = (
  rw (cluster_at-store t w e z v) (
      get_or-set_self (cluster_at t w.cluster) w.slot e zero_entry
        (rw (length-cluster_at t w.cluster z v.cluster_in) v.slot_in)),
  entry_at-store_ne t w w' e z v,
)
