-- ===== src/Transposition/Entry/Packing.antt =====
-- src/engine/tt.cpp: the byte that holds the generation, the bound and the pv flag.
use stockfish.Base.{
  ℕ, ◌+◌, ◌-◌, ◌*◌, ◌/◌, ◌%◌, ◌^◌, ◌<◌, ◌≡◌, refl, ap, ◌∙◌, Bool, true, false, arith, ◌==◌, to_ℕ,
  not,
}
use stockfish.Base.Int.{sub_ℕ}
use stockfish.Base.Words.{to_unsigned}
use stockfish.Base.Bits.Fields.{bit_and-low_mask, bit_and-high_mask}
use stockfish.Base.Bits.Tables.{equal_on_grid, equal_on_grid_sound}
use stockfish.Transposition.Entry.{Entry, pack_gen_bound, bound_of, pv_of, relative_age}

-- The fields do not overlap, so that `|` adds them.
pub pack_gen_bound-sum :
    (gen b : ℕ) (pv : Bool)
    → gen < 32
    → b < 4
    → pack_gen_bound gen b pv ≡ gen + b * 32 + to_ℕ pv * 128
unfolding pack_gen_bound equal_on_grid
pack_gen_bound-sum gen b true hg hb =
    equal_on_grid_sound 32 4 (λ g b. pack_gen_bound g b true) (λ g b. g + b * 32 + 128) gen b refl
      hg hb
pack_gen_bound-sum gen b false hg hb =
    equal_on_grid_sound 32 4 (λ g b. pack_gen_bound g b false) (λ g b. g + b * 32 + 0) gen b refl hg
      hb

pub bound_of-div : (gb : ℕ) → bound_of gb ≡ gb / 32 % 4
unfolding bound_of
bound_of-div gb =
    ap (λ t. t / 32) (bit_and-high_mask 5 gb 3 96 refl)
    ∙ omega (arith, bit_and-low_mask 2 3 (gb / 2 ^ 5) refl)

pub pv_of-div : (gb : ℕ) → pv_of gb ≡ not (gb / 128 % 2 == 0)
unfolding pv_of
pv_of-div gb =
    ap (λ t. not (t == 0)) (bit_and-high_mask 7 gb 1 128 refl)
    ∙ ground (arith, bit_and-low_mask 1 1 (gb / 2 ^ 7) refl)

pub relative_age-mod :
    (e : Entry) (current : ℕ)
    → current < 32
    → e.gen_bound8 < 256
    → relative_age e current ≡ (current + 32 - e.gen_bound8 % 32) % 32
unfolding relative_age
relative_age-mod e current hc hg =
    bit_and-low_mask 5 31 (to_unsigned (2 ^ 32) (sub_ℕ current e.gen_bound8)) refl ∙ ground arith

-- For every generation below 32, bound and pv flag, the unpackers read off the packed byte the bound
-- and the flag that went in; and an entry with that byte has, `n` generations later, age `n` modulo 32.
pub unpack_packed :
    (gen b n : ℕ) (pv : Bool) (e : Entry)
    → gen < 32
    → b < 4
    → e.gen_bound8 ≡ pack_gen_bound gen b pv
    → (bound_of e.gen_bound8 ≡ b)
      × (pv_of e.gen_bound8 ≡ pv)
      × (relative_age e ((gen + n) % 32) ≡ n % 32)
unpack_packed gen b n pv e hg hb h =
    let sum = pack_gen_bound-sum gen b pv hg hb in
    (
      bound_of-div e.gen_bound8 ∙ ground (arith, sum),
      pv_of-div e.gen_bound8 ∙ ground (arith, sum),
      relative_age-mod e ((gen + n) % 32) (omega arith) (ground (arith, sum)) ∙ ground (arith, sum),
    )
