-- ===== src/Transposition/Entry.antt =====
-- src/engine/tt.cpp: `TTEntry`, ten bytes of the table, and the packing of its third byte.
pub mod Packing
pub mod Saving
use stockfish.Base.{
  ℕ, ◌+◌, ◌-◌, ◌*◌, ◌/◌, ◌%◌, ◌^◌, bit_and, bit_or, Bool, not, ◌&&◌, ◌||◌, ◌==◌, ltb, if◌then◌else◌,
  to_ℕ,
}
use stockfish.Base.Int.{ℤ, pos, sub_ℕ, abs, max_ℤ, ltb_ℤ, leb_ℤ, ◌+ℤ◌, ◌-ℤ◌}
use stockfish.Base.Words.{u8, u16, i16, to_unsigned}
use stockfish.Types.Moves.{Move, is_some_move}
use stockfish.Types.Scores.{
  Bound, bound_exact, Value, value_infinite, is_decisive, Depth, depth_none,
}

abbrev pub generation_bits : ℕ
generation_bits = 5

abbrev pub generation_mask : ℕ
generation_mask = 2 ^ generation_bits - 1

abbrev pub bound_shift : ℕ
bound_shift = generation_bits

abbrev pub bound_mask : ℕ
bound_mask = bound_exact * 2 ^ bound_shift

abbrev pub pv_shift : ℕ
pv_shift = bound_shift + 2

abbrev pub pv_mask : ℕ
pv_mask = 2 ^ pv_shift

unfoldable pub pack_gen_bound : ℕ → Bound → Bool → ℕ
pack_gen_bound gen b pv = u8 (bit_or (bit_or gen (b * 2 ^ bound_shift)) (to_ℕ pv * 2 ^ pv_shift))

unfoldable pub bound_of : ℕ → Bound
bound_of gb = bit_and gb bound_mask / 2 ^ bound_shift

unfoldable pub pv_of : ℕ → Bool
pv_of gb = not (bit_and gb pv_mask == 0)

-- `TTData`, a copy of an entry.
pub record TtData : Type 0 where
  pub move : Move
  pub value : Value
  pub eval : Value
  pub depth : Depth
  pub bound : Bound
  pub is_pv : Bool

-- `TTEntry`.
pub record Entry : Type 0 where
  pub key16 : ℕ
  pub depth8 : ℕ
  pub gen_bound8 : ℕ
  pub move16 : Move
  pub value16 : ℤ
  pub eval16 : ℤ

-- The depth is the caller's copy of `depth8`.
unfoldable pub read : Entry → ℕ → TtData
read e d8 = record {
  move = e.move16;
  value = e.value16;
  eval = e.eval16;
  depth = depth_none +ℤ pos d8;
  bound = bound_of e.gen_bound8;
  is_pv = pv_of e.gen_bound8;
}

unfoldable pub is_occupied : Entry → Bool
is_occupied e = not (e.depth8 == 0)

-- An `int` difference, of which the mask keeps five bits.
unfoldable pub relative_age : Entry → ℕ → ℕ
relative_age e current = bit_and (to_unsigned (2 ^ 32) (sub_ℕ current e.gen_bound8)) generation_mask

-- Whether `save` overwrites the entry: the tests of its second `if`, in their order.
unfoldable pub overwrites : Entry → ℕ → Bool → Bound → Depth → ℕ → Bool
unfolding relative_age ◌+ℤ◌ ◌-ℤ◌
overwrites e k pv b d current =
    b == bound_exact
    || (not (u16 k == e.key16)
        || (ltb_ℤ (sub_ℕ e.depth8 4) (d -ℤ depth_none +ℤ pos (2 * to_ℕ pv))
            || not (relative_age e current == 0)))

unfoldable pub keep_move : Entry → ℕ → Move → Entry
keep_move e k m = if is_some_move m || not (u16 k == e.key16) then record e { move16 = m } else e

unfoldable pub overwrite : Entry → ℕ → Value → Bool → Bound → Depth → Value → ℕ → Entry
overwrite e k v pv b d ev current = record e {
  key16 = u16 k;
  depth8 = to_unsigned (2 ^ 8) (d -ℤ depth_none);
  gen_bound8 = pack_gen_bound current b pv;
  value16 = i16 v;
  eval16 = i16 ev;
}

-- Secondary aging.
unfoldable pub age_decisive : Entry → Entry
unfolding bound_of is_decisive ◌+ℤ◌
age_decisive e =
    if leb_ℤ (pos 5) (pos e.depth8 +ℤ depth_none) && not (bound_of e.gen_bound8 == bound_exact)
    then (if ltb (abs e.value16) value_infinite && is_decisive e.value16
        then record e { depth8 = to_unsigned (2 ^ 8) (max_ℤ (sub_ℕ e.depth8 1) (pos 0)) }
        else e)
    else e

-- `key16` is loaded once, before the store to `move16`, which is another field.
unfoldable pub save : Entry → ℕ → Value → Bool → Bound → Depth → Move → Value → ℕ → Entry
save e k v pv b d m ev current =
    let kept = keep_move e k m in
    if overwrites kept k pv b d current
    then overwrite kept k v pv b d ev current
    else age_decisive kept

-- `TTWriter::penalize`.
unfoldable pub penalize : Entry → ℤ → Entry
unfolding ◌-ℤ◌
penalize e penalty = record e {
  depth8 = to_unsigned (2 ^ 8) (max_ℤ (pos e.depth8 -ℤ penalty) (pos 0));
}
