-- ===== src/Transposition/Entry/Saving.antt =====
-- src/engine/tt.cpp: what `TTEntry::save` and `TTWriter::penalize` leave in an entry.
use stockfish.Base.{
  Bool-cases, inl, inr, ℕ, ◌+◌, ◌-◌, ◌*◌, ◌%◌, ◌^◌, ◌≤◌, ◌<◌, ◌≡◌, refl, ◌≢◌, Bool, true, false,
  arith, ◌==◌, to_ℕ, not, ◌||◌, if◌then◌else◌,
}
use stockfish.Base.Int.{ltb_ℤ, sub_ℕ, ℤ, pos, neg, ◌≤ℤ◌, ◌<ℤ◌, ◌+ℤ◌, ◌-ℤ◌}
use stockfish.Base.Words.{to_unsigned, u16, i16}
use stockfish.Types.Scores.{Bound, Value, Depth, bound_exact, depth_none}
use stockfish.Types.Moves.{Move, is_some_move}
use stockfish.Transposition.Entry.{
  Entry, relative_age, save, read, overwrite, overwrites, keep_move, age_decisive,
}
use stockfish.Transposition.Entry.Packing.{unpack_packed}

-- The fields fit their widths.
pub record IsValid (e : Entry) : Type 0 where
  pub key_fits : e.key16 < 2 ^ 16
  pub depth_fits : e.depth8 < 2 ^ 8
  pub gen_bound_fits : e.gen_bound8 < 2 ^ 8
  pub move_fits : e.move16 < 2 ^ 16
  pub value_low : neg (pos (2 ^ 15)) ≤ℤ e.value16
  pub value_high : e.value16 ≤ℤ pos (2 ^ 15 - 1)
  pub eval_low : neg (pos (2 ^ 15)) ≤ℤ e.eval16
  pub eval_high : e.eval16 ≤ℤ pos (2 ^ 15 - 1)

-- A value that fits `i16` is kept by the conversion.
pub i16_kept : (v : ℤ) → neg (pos (2 ^ 15)) ≤ℤ v → v ≤ℤ pos (2 ^ 15 - 1) → i16 v ≡ v
i16_kept v lo hi = ground arith

pub i16_fits : (v : ℤ) → (neg (pos (2 ^ 15)) ≤ℤ i16 v) × (i16 v ≤ℤ pos (2 ^ 15 - 1))
i16_fits v = ground arith

pub stored_depth :
    (d : ℤ)
    → depth_none <ℤ d
    → d <ℤ pos 253
    → (0 < to_unsigned (2 ^ 8) (d -ℤ depth_none))
      × (depth_none +ℤ pos (to_unsigned (2 ^ 8) (d -ℤ depth_none)) ≡ d)
unfolding ◌+ℤ◌ ◌-ℤ◌
stored_depth d lo hi = (ground arith, ground arith)

-- The tests of `save` read no field that the store to `move16` changes.
overwrites-keep_move :
    (e : Entry) (k : ℕ) (pv : Bool) (b : Bound) (d : Depth) (m : Move) (current : ℕ)
    → overwrites (keep_move e k m) k pv b d current ≡ overwrites e k pv b d current
unfolding keep_move overwrites
overwrites-keep_move e k pv b d m current =
    elim (Bool-cases (is_some_move m || not (u16 k == e.key16))) [ inl h ↦ rw h | inr h ↦ rw h ]

-- What secondary aging leaves: a depth that is the same or one less, and the rest as it was.
age_decisive_fields :
    (e : Entry)
    → IsValid e
    → ((age_decisive e).key16 ≡ e.key16)
      × ((age_decisive e).gen_bound8 ≡ e.gen_bound8)
      × ((age_decisive e).value16 ≡ e.value16)
      × ((age_decisive e).eval16 ≡ e.eval16)
      × ((age_decisive e).move16 ≡ e.move16)
      × ((age_decisive e).depth8 ≤ e.depth8)
      × (e.depth8 ≤ (age_decisive e).depth8 + 1)
unfolding age_decisive
age_decisive_fields e w = ground arith

keep_move_lem :
    (e : Entry) (k : ℕ) (m : Move)
    → keep_move e k m
      ≡ record e { move16 = if is_some_move m || not (u16 k == e.key16) then m else e.move16 }
unfolding keep_move
keep_move_lem e k m = ground arith

keep_move-IsValid :
    (e : Entry) (k : ℕ) (m : Move) → IsValid e → m < 2 ^ 16 → IsValid (keep_move e k m)
unfolding keep_move
keep_move-IsValid e k m w hm = ground arith

overwrite_reads_back :
    (e : Entry) (k : ℕ) (v : Value) (pv : Bool) (b : Bound) (d : Depth) (ev : Value) (current : ℕ)
    → depth_none <ℤ d
    → d <ℤ pos 253
    → b < 4
    → current < 32
    → neg (pos (2 ^ 15)) ≤ℤ v
    → v ≤ℤ pos (2 ^ 15 - 1)
    → neg (pos (2 ^ 15)) ≤ℤ ev
    → ev ≤ℤ pos (2 ^ 15 - 1)
    → let n = overwrite e k v pv b d ev current in
      (n.key16 ≡ u16 k)
      × (0 < n.depth8)
      × (read n n.depth8
          ≡ record { move = e.move16; value = v; eval = ev; depth = d; bound = b; is_pv = pv })
      × (relative_age n current ≡ 0)
unfolding overwrite read
overwrite_reads_back e k v pv b d ev current dlo dhi hb hc vlo vhi elo ehi =
    let n = overwrite e k v pv b d ev current in
    let fields = unpack_packed current b 0 pv n hc hb refl in
    let now : (current + 0) % 32 ≡ current = omega arith in
    (
      refl,
      (stored_depth d dlo dhi).0,
      cc (i16_kept v vlo vhi, i16_kept ev elo ehi, (stored_depth d dlo dhi).1, fields.0, fields.1),
      rw now at fields.2,
    )

-- An entry that is not overwritten is one for the same key, of the current generation.
not_overwrites :
    (e : Entry) (k : ℕ) (pv : Bool) (b : Bound) (d : Depth) (current : ℕ)
    → overwrites e k pv b d current ≡ false
    → ((u16 k == e.key16) ≡ true)
      × ((b == bound_exact) ≡ false)
      × (ltb_ℤ (sub_ℕ e.depth8 4) (d -ℤ depth_none +ℤ pos (2 * to_ℕ pv)) ≡ false)
      × ((relative_age e current == 0) ≡ true)
unfolding overwrites
not_overwrites e k pv b d current h =
    four_tests (b == bound_exact) (u16 k == e.key16)
      (ltb_ℤ (sub_ℕ e.depth8 4) (d -ℤ depth_none +ℤ pos (2 * to_ℕ pv)))
      (relative_age e current == 0) h
  where
    four_tests :
        (exact same deeper now : Bool)
        → (exact || (not same || (deeper || not now))) ≡ false
        → (same ≡ true) × (exact ≡ false) × (deeper ≡ false) × (now ≡ true)
    four_tests exact same deeper now h = ground arith

-- Where the other tests of `save` fail, it overwrites on the strength of the depth.
overwrites_deeper :
    (e : Entry) (k : ℕ) (pv : Bool) (b : Bound) (d : Depth) (current : ℕ)
    → (u16 k == e.key16) ≡ true
    → (b == bound_exact) ≡ false
    → (relative_age e current == 0) ≡ true
    → overwrites e k pv b d current ≡ true
    → ltb_ℤ (sub_ℕ e.depth8 4) (d -ℤ depth_none +ℤ pos (2 * to_ℕ pv)) ≡ true
unfolding overwrites
overwrites_deeper e k pv b d current same inexact now h =
    last_test (b == bound_exact) (u16 k == e.key16)
      (ltb_ℤ (sub_ℕ e.depth8 4) (d -ℤ depth_none +ℤ pos (2 * to_ℕ pv)))
      (relative_age e current == 0) same inexact now h
  where
    last_test :
        (exact same deeper now : Bool)
        → same ≡ true
        → exact ≡ false
        → now ≡ true
        → (exact || (not same || (deeper || not now))) ≡ true
        → deeper ≡ true
    last_test exact same deeper now p q r h = ground arith

deeper_bound :
    (depth8 bonus : ℕ) (d : Depth)
    → depth_none <ℤ d
    → d <ℤ pos 253
    → ltb_ℤ (sub_ℕ depth8 4) (d -ℤ depth_none +ℤ pos (2 * bonus)) ≡ true
    → depth8 ≤ to_unsigned (2 ^ 8) (d -ℤ depth_none) + 3 + 2 * bonus
unfolding ◌+ℤ◌ ◌-ℤ◌
deeper_bound depth8 bonus d lo hi h = ground arith

key16-age_decisive : (e : Entry) → (age_decisive e).key16 ≡ e.key16
unfolding age_decisive
key16-age_decisive e = ground arith

key16-keep_move : (e : Entry) (k : ℕ) (m : Move) → (keep_move e k m).key16 ≡ e.key16
unfolding keep_move
key16-keep_move e k m = ground arith

module _ (e : Entry) (k : ℕ) (v : Value) (pv : Bool) (b : Bound) (d : Depth) (m : Move) (ev : Value)
    (current : ℕ) where
  abbrev after : Entry
  after = save e k v pv b d m ev current

  -- Whatever is saved, the entry is then one for the key.
  pub key16-save : after.key16 ≡ u16 k
  unfolding save
  key16-save = elim (Bool-cases (overwrites e k pv b d current)) [
    | inl go ↦ rw (overwrites-keep_move e k pv b d m current, go) (unfold overwrite in refl)
    | inr stay ↦
        let same = (not_overwrites e k pv b d current stay).0 in
        rw (overwrites-keep_move e k pv b d m current, stay)
          (ground (arith, same, key16-age_decisive (keep_move e k m), key16-keep_move e k m))
  ]

  -- Where `save` overwrites, with a depth that eight bits hold, a bound and a generation in range,
  -- and a value and an evaluation of 16 bits: the entry is then of the key, occupied, of age zero, and
  -- reading it gives what was saved, but for a missing move of the same key, which is the old one.
  pub save_reads_back :
      overwrites e k pv b d current ≡ true
      → depth_none <ℤ d
      → d <ℤ pos 253
      → b < 4
      → current < 32
      → neg (pos (2 ^ 15)) ≤ℤ v
      → v ≤ℤ pos (2 ^ 15 - 1)
      → neg (pos (2 ^ 15)) ≤ℤ ev
      → ev ≤ℤ pos (2 ^ 15 - 1)
      → (after.key16 ≡ u16 k)
        × (0 < after.depth8)
        × (read after after.depth8 ≡ record {
          move = if is_some_move m || not (u16 k == e.key16) then m else e.move16;
          value = v;
          eval = ev;
          depth = d;
          bound = b;
          is_pv = pv;
        })
        × (relative_age after current ≡ 0)
  unfolding save
  save_reads_back go dlo dhi hb hc vlo vhi elo ehi =
      rw (overwrites-keep_move e k pv b d m current, go, keep_move_lem e k m)
        (overwrite_reads_back (record e { move16 = moved }) k v pv b d ev current dlo dhi hb hc vlo
          vhi elo ehi)
    where
      moved : Move
      moved = if is_some_move m || not (u16 k == e.key16) then m else e.move16

  -- Where `save` does not overwrite a valid entry, key, generation, bound, pv flag, value and
  -- evaluation stay, a 16-bit move that is given replaces the old one, and the depth stays or falls
  -- by one.
  pub save_keeps :
      IsValid e
      → m < 2 ^ 16
      → overwrites e k pv b d current ≡ false
      → (after.key16 ≡ e.key16)
        × (after.gen_bound8 ≡ e.gen_bound8)
        × (after.value16 ≡ e.value16)
        × (after.eval16 ≡ e.eval16)
        × (after.move16 ≡ (if is_some_move m then m else e.move16))
        × (after.depth8 ≤ e.depth8)
        × (e.depth8 ≤ after.depth8 + 1)
  unfolding save
  save_keeps w hm stay =
      let same = (not_overwrites e k pv b d current stay).0 in
      rw (overwrites-keep_move e k pv b d m current, stay)
        (ground (
          arith,
          same,
          kept_move same,
          keep_move_lem e k m,
          age_decisive_fields (keep_move e k m) (keep_move-IsValid e k m w hm),
        ))
    where
      kept_move :
          (u16 k == e.key16) ≡ true
          → (keep_move e k m).move16 ≡ (if is_some_move m then m else e.move16)
      kept_move same = rw (keep_move_lem e k m, same) (either_way (is_some_move m))
        where
          either_way :
              (some : Bool)
              → (if some || false then m else e.move16) ≡ (if some then m else e.move16)
          either_way true = refl
          either_way false = refl

  -- A save of the same key that is not exact, in the generation of a valid entry, with a depth that
  -- eight bits hold, costs the entry at most three plies of its depth, five at a pv node.
  pub save_protects :
      IsValid e
      → m < 2 ^ 16
      → u16 k ≡ e.key16
      → b ≢ bound_exact
      → relative_age e current ≡ 0
      → depth_none <ℤ d
      → d <ℤ pos 253
      → e.depth8 ≤ after.depth8 + 3 + 2 * to_ℕ pv
  unfolding save overwrite
  save_protects w hm same inexact now dlo dhi = elim (Bool-cases (overwrites e k pv b d current)) [
    | inl go ↦ deep_enough go
    | inr stay ↦ omega (arith, (save_keeps w hm stay).6)
  ]
    where
      deep_enough : overwrites e k pv b d current ≡ true → e.depth8 ≤ after.depth8 + 3 + 2 * to_ℕ pv
      deep_enough go =
          let deeper =
            overwrites_deeper e k pv b d current (ground arith) (ground arith) (ground arith) go in
          let depth : after.depth8 ≡ to_unsigned (2 ^ 8) (d -ℤ depth_none) =
            rw (overwrites-keep_move e k pv b d m current, go) refl in
          omega (arith, depth, deeper_bound e.depth8 (to_ℕ pv) d dlo dhi deeper)
