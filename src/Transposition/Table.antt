-- ===== src/Transposition/Table.antt =====
-- src/engine/tt.h and src/engine/tt.cpp: `TranspositionTable`, an array of clusters of three entries.
-- A pointer to an entry is the index of its cluster and its place in it.
pub mod Ageing
pub mod Layout
pub mod Occupancy
pub mod Probing
pub mod Rewriting
use stockfish.Base.{
  ℕ, zero, suc, ◌+◌, ◌-◌, ◌*◌, ◌/◌, ◌%◌, ◌^◌, Bool, true, false, ◌&&◌, ◌==◌, leb, if◌then◌else◌,
  to_ℕ, Option, none, some, List, [], ◌∷◌, bit_and,
}
use stockfish.Base.Lists.{get_or, set, replicate, take}
use stockfish.Base.Int.{ℤ, pos, sub_ℕ, ltb_ℤ, leb_ℤ}
use stockfish.Base.Words.{u8, u16, u64}
use stockfish.Basetypes.{mul_hi64}
use stockfish.Types.Moves.{Move, no_move}
use stockfish.Types.Scores.{Bound, bound_none, Value, value_none, Depth, depth_none}
use stockfish.Transposition.Entry.{
  Entry, TtData, read, is_occupied, relative_age, save, penalize, generation_mask,
}

abbrev pub cluster_size : ℕ
cluster_size = 3

-- `sizeof(Cluster)`: three entries of ten bytes, and two of padding.
abbrev pub cluster_bytes : ℕ
cluster_bytes = 32

abbrev pub Cluster : Type 0
Cluster = List Entry

pub record Table : Type 0 where
  pub cluster_count : ℕ
  pub clusters : List Cluster
  pub generation8 : ℕ

-- What `memset` to zero leaves.
abbrev pub zero_entry : Entry
zero_entry = record {
  key16 = 0;
  depth8 = 0;
  gen_bound8 = 0;
  move16 = 0;
  value16 = pos 0;
  eval16 = pos 0;
}

abbrev pub zero_cluster : Cluster
zero_cluster = replicate cluster_size zero_entry

-- `TTWriter`.
pub record TtWriter : Type 0 where
  pub cluster : ℕ
  pub slot : ℕ

unfoldable pub first_entry : Table → ℕ → ℕ
first_entry t key = mul_hi64 key t.cluster_count

unfoldable pub cluster_at : Table → ℕ → Cluster
cluster_at t i = get_or t.clusters i []

-- The loop over the cluster for a matching key.
unfoldable pub find_key : ℕ → ℕ → Cluster → Option ℕ
find_key key16 i [] = none
find_key key16 i (e ∷ es) = if e.key16 == key16 then some i else find_key key16 (i + 1) es

-- The value of an entry for the replacement: its depth minus eight times its age.
unfoldable pub worth : ℕ → Entry → ℤ
worth gen e = sub_ℕ e.depth8 (8 * relative_age e gen)

-- The loop that carries the entry to be replaced, and its value.
unfoldable pub least_worth : ℕ → ℕ → Cluster → ℕ → ℤ → ℕ
least_worth gen i [] replace replace_value = replace
least_worth gen i (e ∷ es) replace replace_value =
    let value = worth gen e in
    let better = ltb_ℤ value replace_value in
    least_worth gen (i + 1) es (if better then i else replace)
      (if better then value else replace_value)

unfoldable pub replace_slot : ℕ → Cluster → ℕ
replace_slot gen [] = 0
replace_slot gen (e ∷ es) = least_worth gen 1 es 0 (worth gen e)

abbrev pub no_data : TtData
no_data = record {
  move = no_move;
  value = value_none;
  eval = value_none;
  depth = depth_none;
  bound = bound_none;
  is_pv = false;
}

-- What is returned for a match, and without one.
unfoldable pub answer : Table → ℕ → Option ℕ → Bool × TtData × TtWriter
answer t c (some i) =
    let e = get_or (cluster_at t c) i zero_entry in
    (is_occupied e, read e e.depth8, record { cluster = c; slot = i })
answer t c none =
    (false, no_data, record { cluster = c; slot = replace_slot t.generation8 (cluster_at t c) })

unfoldable pub probe : Table → ℕ → Bool × TtData × TtWriter
probe t key = let c = first_entry t key in answer t c (find_key (u16 key) 0 (cluster_at t c))

unfoldable pub entry_at : Table → TtWriter → Entry
entry_at t w = get_or (cluster_at t w.cluster) w.slot zero_entry

unfoldable pub store : Table → TtWriter → Entry → Table
store t w e = record t {
  clusters = set t.clusters w.cluster (set (cluster_at t w.cluster) w.slot e);
}

-- `TTWriter::write`.
unfoldable pub write :
    Table → TtWriter → ℕ → Value → Bool → Bound → Depth → Move → Value → ℕ → Table
write t w k v pv b d m ev gen = store t w (save (entry_at t w) k v pv b d m ev gen)

-- `TTWriter::penalize`, on the table.
unfoldable pub penalize_at : Table → TtWriter → ℤ → Table
penalize_at t w penalty = store t w (penalize (entry_at t w) penalty)

unfoldable pub new_search : Table → Table
new_search t = record t { generation8 = bit_and (u8 (t.generation8 + 1)) generation_mask }

unfoldable pub generation : Table → ℕ
generation t = t.generation8

unfoldable pub counts_as_full : ℕ → ℤ → Entry → Bool
counts_as_full gen max_age e = is_occupied e && leb_ℤ (pos (relative_age e gen)) max_age

unfoldable pub full_in_cluster : ℕ → ℤ → Cluster → ℕ
full_in_cluster gen max_age [] = 0
full_in_cluster gen max_age (e ∷ es) =
    to_ℕ (counts_as_full gen max_age e) + full_in_cluster gen max_age es

unfoldable pub full_in_clusters : ℕ → ℤ → List Cluster → ℕ
full_in_clusters gen max_age [] = 0
full_in_clusters gen max_age (c ∷ cs) =
    full_in_cluster gen max_age c + full_in_clusters gen max_age cs

-- The walk over the first thousand clusters.
unfoldable pub hashfull : Table → ℤ → ℕ
hashfull t max_age = full_in_clusters t.generation8 max_age (take 1000 t.clusters) / cluster_size
