-- ===== src/Transposition/Table/Ageing.antt =====
-- src/engine/tt.cpp: generations: `new_search`, and the age of an entry some searches later.
use stockfish.Base.{ℕ, zero, suc, ◌+◌, ◌%◌, ◌<◌, ◌≡◌, refl, ◌∙◌, Bool, arith}
use stockfish.Base.Bits.Fields.{bit_and-low_mask}
use stockfish.Base.Words.{u8}
use stockfish.Transposition.Entry.{Entry, relative_age, pack_gen_bound}
use stockfish.Transposition.Entry.Packing.{unpack_packed}
use stockfish.Transposition.Table.{Table, new_search, generation}

-- The table after `n` searches.
unfoldable pub searches : ℕ → Table → Table
searches zero t = t
searches (suc n) t = new_search (searches n t)

new_search-mod :
    (t : Table) → t.generation8 < 32 → (new_search t).generation8 ≡ (t.generation8 + 1) % 32
unfolding new_search
new_search-mod t h = bit_and-low_mask 5 31 (u8 (t.generation8 + 1)) refl ∙ omega arith

generation-searches :
    (n : ℕ) (t : Table) → t.generation8 < 32 → (searches n t).generation8 ≡ (t.generation8 + n) % 32
unfolding searches
generation-searches zero t h = omega arith
generation-searches (suc n) t h =
    let ih = generation-searches n t h in
    new_search-mod (searches n t) (omega (arith, ih)) ∙ omega (arith, ih)

clusters-searches : (n : ℕ) (t : Table) → (searches n t).clusters ≡ t.clusters
unfolding searches new_search
clusters-searches zero t = refl
clusters-searches (suc n) t = clusters-searches n t

-- From a generation below 32, `n` searches leave the clusters as they were and the generation below
-- 32, and an entry packed in the first generation then has age `n` modulo 32.
pub age_after_searches :
    (n b : ℕ) (pv : Bool) (t : Table) (e : Entry)
    → t.generation8 < 32
    → b < 4
    → e.gen_bound8 ≡ pack_gen_bound (generation t) b pv
    → ((searches n t).clusters ≡ t.clusters)
      × ((searches n t).generation8 < 32)
      × (relative_age e (generation (searches n t)) ≡ n % 32)
unfolding generation
age_after_searches n b pv t e h hb p =
    let at = generation-searches n t h in
    (
      clusters-searches n t,
      omega (arith, at),
      rw at (unpack_packed t.generation8 b n pv e h hb p).2,
    )
