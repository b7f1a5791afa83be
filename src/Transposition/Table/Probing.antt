-- ===== src/Transposition/Table/Probing.antt =====
-- src/engine/tt.cpp: `TranspositionTable::probe`: which entry it finds, and which it gives up.
use stockfish.Base.{
  ℕ, zero, suc, ◌+◌, ◌<◌, ◌≡◌, refl, inl, inr, [], ◌∷◌, none, some, arith, ◌==◌, Bool-cases,
}
use stockfish.Base.Lists.{length, get_or, set}
use stockfish.Base.Tests.{ltb→lt}
use stockfish.Base.Int.{ℤ, ◌≤ℤ◌, ◌<ℤ◌, ltb_ℤ}
use stockfish.Transposition.Entry.{Entry}
use stockfish.Transposition.Table.{Cluster, zero_entry, find_key, worth, least_worth, replace_slot}

-- A key that is found stands at the place returned.
pub find_key_found :
    (k i j : ℕ) (es : Cluster)
    → find_key k i es ≡ some j
    → (r : ℕ) × (j ≡ i + r) × (r < length es) × ((get_or es r zero_entry).key16 ≡ k)
unfolding find_key
find_key_found k i j [] h = cc
find_key_found k i j (e ∷ es) h = elim (Bool-cases (e.key16 == k)) [
  | inl hit ↦ (0, ground arith, omega arith, ground arith)
  | inr miss ↦
      let (r, at, inside, key) = find_key_found k (i + 1) j es (rw miss at h) in
      (suc r, omega arith, omega arith, key)
]

-- The first match stays the first when its entry is replaced by one of the same key.
pub find_key-set_found :
    (k i r : ℕ) (es : Cluster) (e : Entry)
    → find_key k i es ≡ some (i + r)
    → e.key16 ≡ k
    → find_key k i (set es r e) ≡ some (i + r)
unfolding find_key
find_key-set_found k i r [] e h p = h
find_key-set_found k i zero (x ∷ es) e h p = ground arith
find_key-set_found k i (suc r) (x ∷ es) e h p = ground (arith, find_key-set_found k (i + 1) r es e)

-- With no match, an entry of the key is found wherever it is put.
pub find_key-set_missing :
    (k i r : ℕ) (es : Cluster) (e : Entry)
    → find_key k i es ≡ none
    → r < length es
    → e.key16 ≡ k
    → find_key k i (set es r e) ≡ some (i + r)
unfolding find_key
find_key-set_missing k i r [] e h l p = absurd (omega arith)
find_key-set_missing k i zero (x ∷ es) e h l p = ground arith
find_key-set_missing k i (suc r) (x ∷ es) e h l p =
    ground (arith, find_key-set_missing k (i + 1) r es e)

-- What the replacement loop returns after a start at `replace`: the start, which no entry of the
-- rest beats, or the first entry of least worth.
data Least (gen i : ℕ) (es : Cluster) (replace : ℕ) (replace_value : ℤ) (out : ℕ) : Type 0 where
  start :
      out ≡ replace
      → ((q : ℕ) → q < length es → replace_value ≤ℤ worth gen (get_or es q zero_entry))
      → Least gen i es replace replace_value out
  later :
      (r : ℕ)
      → out ≡ i + r
      → r < length es
      → worth gen (get_or es r zero_entry) <ℤ replace_value
      → ((q : ℕ)
          → q < length es
          → worth gen (get_or es r zero_entry) ≤ℤ worth gen (get_or es q zero_entry))
      → ((q : ℕ) → q < r → worth gen (get_or es r zero_entry) <ℤ worth gen (get_or es q zero_entry))
      → Least gen i es replace replace_value out

module _ (gen : ℕ) (x : ℤ) (e : Entry) (es : Cluster) where
  no_less_cons :
      x ≤ℤ worth gen e
      → ((q : ℕ) → q < length es → x ≤ℤ worth gen (get_or es q zero_entry))
      → (q : ℕ) → q < suc (length es)
      → x ≤ℤ worth gen (get_or (e ∷ es) q zero_entry)
  no_less_cons h t zero l = h
  no_less_cons h t (suc q) l = t q (omega arith)

  less_cons :
      (r : ℕ)
      → x <ℤ worth gen e
      → ((q : ℕ) → q < r → x <ℤ worth gen (get_or es q zero_entry))
      → (q : ℕ) → q < suc r
      → x <ℤ worth gen (get_or (e ∷ es) q zero_entry)
  less_cons r h t zero l = h
  less_cons r h t (suc q) l = t q (omega arith)

module _ (gen i : ℕ) (e : Entry) (es : Cluster) (replace : ℕ) (replace_value : ℤ) {out : ℕ} where
  Least-better :
      worth gen e <ℤ replace_value
      → Least gen (i + 1) es i (worth gen e) out
      → Least gen i (e ∷ es) replace replace_value out
  Least-better h (start at t) =
      later 0 (omega arith) (omega arith) h (no_less_cons gen (worth gen e) e es (omega arith) t)
        (λ q l. absurd (omega arith))
  Least-better h (later r at inside less t f) =
      later (suc r) (omega arith) (omega arith) (omega arith)
        (no_less_cons gen (worth gen (get_or es r zero_entry)) e es (omega arith) t)
        (less_cons gen (worth gen (get_or es r zero_entry)) e es r less f)

  Least-worse :
      replace_value ≤ℤ worth gen e
      → Least gen (i + 1) es replace replace_value out
      → Least gen i (e ∷ es) replace replace_value out
  Least-worse h (start at t) = start at (no_less_cons gen replace_value e es h t)
  Least-worse h (later r at inside less t f) =
      later (suc r) (omega arith) (omega arith) less
        (no_less_cons gen (worth gen (get_or es r zero_entry)) e es (omega arith) t)
        (less_cons gen (worth gen (get_or es r zero_entry)) e es r (omega arith) f)

least_worth-Least :
    (gen i : ℕ) (es : Cluster) (replace : ℕ) (replace_value : ℤ)
    → Least gen i es replace replace_value (least_worth gen i es replace replace_value)
unfolding least_worth
least_worth-Least gen i [] replace replace_value = start refl (λ q h. absurd (omega arith))
least_worth-Least gen i (e ∷ es) replace replace_value =
    elim (Bool-cases (ltb_ℤ (worth gen e) replace_value)) [
      | inl better ↦ rw better (
          Least-better gen i e es replace replace_value (ltb→lt _ _ better)
            (least_worth-Least gen (i + 1) es i (worth gen e)))
      | inr worse ↦ rw worse (
          Least-worse gen i e es replace replace_value (ground arith)
            (least_worth-Least gen (i + 1) es replace replace_value))
    ]

-- The first place of least worth: none is worth less, and every earlier one is worth more.
abbrev pub IsFirstLeast : ℕ → Cluster → ℕ → Type 0
IsFirstLeast gen es s =
    (s < length es)
    × ((q : ℕ)
        → q < length es
        → worth gen (get_or es s zero_entry) ≤ℤ worth gen (get_or es q zero_entry))
    × ((q : ℕ) → q < s → worth gen (get_or es s zero_entry) <ℤ worth gen (get_or es q zero_entry))

Least-IsFirstLeast :
    (gen : ℕ) (e : Entry) (es : Cluster) {out : ℕ}
    → Least gen 1 es 0 (worth gen e) out
    → IsFirstLeast gen (e ∷ es) out
Least-IsFirstLeast gen e es (start at t) =
    rw at (
      omega arith,
      no_less_cons gen (worth gen e) e es (omega arith) t,
      λ q l. absurd (omega arith),
    )
Least-IsFirstLeast gen e es {out} (later r at inside less t f) =
    let place : out ≡ suc r = omega arith in
    rw place (
      omega arith,
      no_less_cons gen (worth gen (get_or es r zero_entry)) e es (omega arith) t,
      less_cons gen (worth gen (get_or es r zero_entry)) e es r less f,
    )

-- The entry given up is the first of least worth.
pub replace_slot-IsFirstLeast :
    (gen : ℕ) (es : Cluster) → 0 < length es → IsFirstLeast gen es (replace_slot gen es)
unfolding replace_slot
replace_slot-IsFirstLeast gen [] h = absurd (omega arith)
replace_slot-IsFirstLeast gen (e ∷ es) h =
    Least-IsFirstLeast gen e es (least_worth-Least gen 1 es 0 (worth gen e))
