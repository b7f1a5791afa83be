-- ===== src/Transposition/Table/Rewriting.antt =====
-- src/engine/tt.cpp: a probe, a write through its writer, and the next probe of the same key.
use stockfish.Base.{
  ℕ, ◌≢◌, ◌||◌, if◌then◌else◌, ◌+◌, ◌-◌, ◌^◌, ◌<◌, ◌≡◌, refl, sym, ◌∙◌, Option, none, some, Bool,
  true, false, not, arith, ◌==◌,
}
use stockfish.Base.Lists.{get_or, set}
use stockfish.Base.Int.{pos, neg, ◌≤ℤ◌, ◌<ℤ◌}
use stockfish.Base.Words.{u16}
use stockfish.Types.Moves.{Move, is_some_move}
use stockfish.Types.Scores.{Bound, Value, Depth, depth_none}
use stockfish.Transposition.Entry.{Entry, TtData, read, is_occupied, save, overwrites}
use stockfish.Transposition.Entry.Saving.{key16-save, save_reads_back}
use stockfish.Transposition.Table.{
  Table, TtWriter, zero_entry, no_data, answer, first_entry, cluster_at, find_key, probe, entry_at,
  store, write,
}
use stockfish.Transposition.Table.Layout.{
  IsSized, IsInside, length-cluster_at, first_entry-lt, cluster_at-store_ne, cluster_at-store,
  entry_at-store,
}
use stockfish.Transposition.Table.Probing.{
  find_key_found, find_key-set_found, find_key-set_missing, IsFirstLeast, replace_slot-IsFirstLeast,
}

-- What a probe returns: the entry of the key, with its data if it is occupied, or nothing and the
-- entry of least worth of a cluster that has no entry of the key.
-- A probe reads its cluster and the generation.
answer_local :
    (t u : Table) (c : ℕ) (o : Option ℕ)
    → cluster_at u c ≡ cluster_at t c
    → u.generation8 ≡ t.generation8
    → answer u c o ≡ answer t c o
unfolding answer
answer_local t u c (some i) h g = rw h refl
answer_local t u c none h g = rw (h, g) refl

probe-store_ne :
    (t : Table) (w : TtWriter) (e : Entry) (key : ℕ)
    → cluster_at (store t w e) (first_entry t key) ≡ cluster_at t (first_entry t key)
    → probe (store t w e) key ≡ probe t key
probe-store_ne t w e key h =
    let c = first_entry t key in
    let home : first_entry (store t w e) key ≡ c = unfold first_entry store in refl in
    let same : (store t w e).generation8 ≡ t.generation8 = unfold store in refl in
    unfold probe in
    rw (home, h) (answer_local t (store t w e) c (find_key (u16 key) 0 (cluster_at t c)) h same)

positive : (n : ℕ) → 0 < n → not (n == 0) ≡ true
positive n h = ground arith

pub data Probed (t : Table) (key : ℕ) (found : Bool) (d : TtData) (w : TtWriter) : Type 0 where
  hit :
      find_key (u16 key) 0 (cluster_at t w.cluster) ≡ some w.slot
      → (entry_at t w).key16 ≡ u16 key
      → found ≡ is_occupied (entry_at t w)
      → d ≡ read (entry_at t w) (entry_at t w).depth8
      → Probed t key found d w
  miss :
      find_key (u16 key) 0 (cluster_at t w.cluster) ≡ none
      → found ≡ false
      → d ≡ no_data
      → IsFirstLeast t.generation8 (cluster_at t w.cluster) w.slot
      → Probed t key found d w

module _ (t : Table) (key : ℕ) (sized : IsSized t) (fits : key < 2 ^ 64) where
  answer-Probed :
      (o : Option ℕ)
      → find_key (u16 key) 0 (cluster_at t (first_entry t key)) ≡ o
      → let (found, d, w) = answer t (first_entry t key) o in
        Probed t key found d w × IsInside t w × (w.cluster ≡ first_entry t key)
  unfolding answer entry_at
  answer-Probed (some i) h =
      let c = first_entry t key in
      let (r, at, inside, same) = find_key_found (u16 key) 0 i (cluster_at t c) h in
      let place : i ≡ r = omega arith in
      let three = length-cluster_at t c sized (first_entry-lt t key sized fits) in
      (
        hit h (rw place same) refl refl,
        record { cluster_in = first_entry-lt t key sized fits; slot_in = omega arith },
        refl,
      )
  answer-Probed none h =
      let c = first_entry t key in
      let three = length-cluster_at t c sized (first_entry-lt t key sized fits) in
      let least = replace_slot-IsFirstLeast t.generation8 (cluster_at t c) (omega arith) in
      (
        miss h refl refl least,
        record { cluster_in = first_entry-lt t key sized fits; slot_in = omega (arith, least.0) },
        refl,
      )

  -- A probe of a 64-bit key, in a table of three-entry clusters, returns a writer to an entry of the
  -- key's cluster. Either this is the first entry of the key, with its data, found where it is
  -- occupied; or the cluster has none, the data is that of a miss, and the writer is to the first
  -- entry of least worth.
  pub probe-Probed :
      Probed t key (probe t key).0 (probe t key).1 (probe t key).2
      × IsInside t (probe t key).2
      × ((probe t key).2.cluster ≡ first_entry t key)
  unfolding probe
  probe-Probed = answer-Probed (find_key (u16 key) 0 (cluster_at t (first_entry t key))) refl

  probe_lands :
      (w : TtWriter) (e : Entry)
      → IsInside t w
      → w.cluster ≡ first_entry t key
      → find_key (u16 key) 0 (set (cluster_at t w.cluster) w.slot e) ≡ some w.slot
      → probe (store t w e) key ≡ (is_occupied e, read e e.depth8, w)
  probe_lands w e inside at found =
      let home : first_entry (store t w e) key ≡ w.cluster = unfold first_entry store in sym at in
      let there : find_key (u16 key) 0 (cluster_at (store t w e) w.cluster) ≡ some w.slot =
        rw (cluster_at-store t w e sized inside) found in
      let kept : get_or (cluster_at (store t w e) w.cluster) w.slot zero_entry ≡ e =
        unfold entry_at in (entry_at-store t w w e sized inside).0 in
      unfold probe in rw (home, there) (unfold answer in rw kept refl)

  found_again :
      {found : Bool} {d : TtData} {w : TtWriter} (e : Entry)
      → e.key16 ≡ u16 key
      → Probed t key found d w
      → IsInside t w
      → w.cluster ≡ first_entry t key
      → find_key (u16 key) 0 (set (cluster_at t w.cluster) w.slot e) ≡ some w.slot
  found_again {w = w} e same (hit h k f d) inside at =
      let start : 0 + w.slot ≡ w.slot = omega arith in
      rw start at
        (find_key-set_found (u16 key) 0 w.slot (cluster_at t w.cluster) e (rw start h) same)
  found_again {w = w} e same (miss h f d least) inside at =
      let start : 0 + w.slot ≡ w.slot = omega arith in
      rw start at
        (find_key-set_missing (u16 key) 0 w.slot (cluster_at t w.cluster) e h least.0 same)

  -- Storing an entry of the key through that writer makes the next probe of the key end at it.
  pub probe-store :
      (e : Entry)
      → e.key16 ≡ u16 key
      → probe (store t (probe t key).2 e) key ≡ (is_occupied e, read e e.depth8, (probe t key).2)
  probe-store e same =
      let (p, inside, at) = probe-Probed in
      probe_lands (probe t key).2 e inside at (found_again e same p inside at)

  module _ (v : Value) (pv : Bool) (b : Bound) (d : Depth) (m : Move) (ev : Value) (gen : ℕ) where
    -- The next probe of the key ends at the entry written, whatever `save` kept of the old one.
    probe-write :
        let w = (probe t key).2 in
        let e = save (entry_at t w) key v pv b d m ev gen in
        probe (write t w key v pv b d m ev gen) key ≡ (is_occupied e, read e e.depth8, w)
    unfolding write
    probe-write =
        probe-store (save (entry_at t (probe t key).2) key v pv b d m ev gen)
          (key16-save (entry_at t (probe t key).2) key v pv b d m ev gen)

    -- In a table of three-entry clusters, a write of a 64-bit key through the writer that a probe of
    -- the key returned, where `save` overwrites the entry: with a depth that eight bits hold, a bound
    -- and a generation in range, and a value and an evaluation of 16 bits, the next probe of the key
    -- finds it, at the same place, with the value, evaluation, depth, bound and pv flag written; the
    -- move is the new one, or the old one where none is given and the entry was of the same key.
    pub probe_after_write :
        overwrites (entry_at t (probe t key).2) key pv b d gen ≡ true
        → depth_none <ℤ d
        → d <ℤ pos 253
        → b < 4
        → gen < 32
        → neg (pos (2 ^ 15)) ≤ℤ v
        → v ≤ℤ pos (2 ^ 15 - 1)
        → neg (pos (2 ^ 15)) ≤ℤ ev
        → ev ≤ℤ pos (2 ^ 15 - 1)
        → let w = (probe t key).2 in
          let old = entry_at t w in
          probe (write t w key v pv b d m ev gen) key ≡ (
            true,
            record {
              move = if is_some_move m || not (u16 key == old.key16) then m else old.move16;
              value = v;
              eval = ev;
              depth = d;
              bound = b;
              is_pv = pv;
            },
            w,
          )
    probe_after_write go dlo dhi hb hg vlo vhi elo ehi =
        let old = entry_at t (probe t key).2 in
        let back = save_reads_back old key v pv b d m ev gen go dlo dhi hb hg vlo vhi elo ehi in
        let occupied : is_occupied (save old key v pv b d m ev gen) ≡ true =
          unfold is_occupied in positive _ back.1 in
        probe-write ∙ cc (occupied, back.2)

    -- A write through the writer of a probe changes the result of no probe of a key of another
    -- cluster.
    pub probe_elsewhere :
        (key' : ℕ)
        → first_entry t key' ≢ first_entry t key
        → probe (write t (probe t key).2 key v pv b d m ev gen) key' ≡ probe t key'
    probe_elsewhere key' other =
        let (p, inside, at) = probe-Probed in
        let w = (probe t key).2 in
        let e = save (entry_at t w) key v pv b d m ev gen in
        let apart : w.cluster ≢ first_entry t key' = λ h. other (sym h ∙ at) in
        unfold write in
        probe-store_ne t w e key' (cluster_at-store_ne t w (first_entry t key') e apart)
