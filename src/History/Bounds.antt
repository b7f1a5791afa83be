-- ===== src/History/Bounds.antt =====
-- src/engine/history.h: the counters stay within their limit.
use stockfish.Base.{ℕ, suc, min, ◌+◌, ◌-◌, ◌*◌, ◌/◌, ◌^◌, ◌≤◌, ◌<◌, ◌≡◌, arith}
use stockfish.Base.Int.{ℤ, pos, negsuc, neg, abs, clamp, div_ℕ, ◌≤ℤ◌, ◌+ℤ◌, ◌-ℤ◌, ◌*ℤ◌}
use stockfish.Base.Words.{i16}
use native.Mathlib.Nat.{
  mul-le-mul_left, mul-le-mul_right, div-le_of_le-mul, lt-mul-div-succ, mul_comm, mul-div_cancel,
}
use native.Mathlib.Decide.{dec_le}
use stockfish.History.{update}

cross_terms :
    (limit n c x : ℕ) → limit ≡ n + x → c ≤ limit → limit * n + limit * c ≤ limit * limit + n * c
cross_terms limit n c x e hc =
    let room : x * c ≤ x * limit = mul-le-mul_left {m = c} {n = limit} x hc in
    let room' : x * c ≤ x * (n + x) = rw e at room in rw e (omega arith)

no_room :
    (limit n c q : ℕ) → n ≤ limit → c ≤ limit → n * c < limit * (q + 1) → limit + q + 1 ≤ n + c → ⊥
no_room limit n c q hn hc hq h =
    let cross = cross_terms limit n c (limit - n) (omega arith) hc in
    let scaled : limit * (limit + q + 1) ≤ limit * (n + c) =
      mul-le-mul_left {m = limit + q + 1} {n = n + c} limit h in
    omega arith

-- The share of the value that is taken off.
decay_bounds :
    (limit n c : ℕ)
    → 0 < limit
    → n ≤ limit
    → c ≤ limit
    → (n * c / limit ≤ n) × (n * c / limit ≤ c) × (n + c ≤ limit + n * c / limit)
decay_bounds limit n c h hn hc = (
  div-le_of_le-mul limit
      (omega (arith, mul-le-mul_left {m = c} {n = limit} n hc, mul_comm n limit)),
  div-le_of_le-mul limit (mul-le-mul_right {m = n} {n = limit} c hn),
  elim (dec_le (n + c) (limit + n * c / limit)) [
    | yes p ↦ p
    | no p ↦
        absurd (no_room limit n c (n * c / limit) hn hc (lt-mul-div-succ (n * c) h) (omega arith))
  ],
)

-- The share has the sign of the value.
share_of_pos : (n c limit : ℕ) → div_ℕ (pos n *ℤ pos c) limit ≡ pos (n * c / limit)
unfolding ◌*ℤ◌
share_of_pos n c limit =
    let product : n * c + 0 * 0 ≡ n * c = omega arith in
    let none_off : n * 0 + 0 * c ≡ 0 = omega arith in rw (product, none_off) (ground arith)

share_of_neg : (n c limit : ℕ) → div_ℕ (negsuc n *ℤ pos c) limit ≡ neg (pos (suc n * c / limit))
unfolding ◌*ℤ◌
share_of_neg n c limit =
    let product : 0 * 0 + suc n * c ≡ suc n * c = omega arith in
    let none_off : 0 * c + suc n * 0 ≡ 0 = omega arith in rw (product, none_off) (ground arith)

-- The counter before it is stored.
abbrev raw_sum : ℕ → ℤ → ℤ → ℤ
raw_sum limit val clamped = val +ℤ clamped -ℤ div_ℕ (val *ℤ pos (abs clamped)) limit

-- What the share of a value satisfies beside a bonus.
record IsShare (limit n c q : ℕ) : Type 0 where
  below_value : q ≤ n
  below_bonus : q ≤ c
  enough : n + c ≤ limit + q

decay-IsShare :
    (limit n c : ℕ) → 0 < limit → n ≤ limit → c ≤ limit → IsShare limit n c (n * c / limit)
decay-IsShare limit n c h hn hc =
    let bounds = decay_bounds limit n c h hn hc in
    record { below_value = bounds.0; below_bonus = bounds.1; enough = bounds.2 }

sum_of_pos :
    (limit n q : ℕ) (clamped : ℤ)
    → n ≤ limit
    → abs clamped ≤ limit
    → IsShare limit n (abs clamped) q
    → (abs (pos n +ℤ clamped -ℤ pos q) ≤ limit)
unfolding ◌+ℤ◌ ◌-ℤ◌
sum_of_pos limit n q clamped hn hc s = ground arith

sum_of_neg :
    (limit n q : ℕ) (clamped : ℤ)
    → suc n ≤ limit
    → abs clamped ≤ limit
    → IsShare limit (suc n) (abs clamped) q
    → (abs (negsuc n +ℤ clamped -ℤ neg (pos q)) ≤ limit)
unfolding ◌+ℤ◌ ◌-ℤ◌
sum_of_neg limit n q clamped hn hc s = ground arith

raw_sum_within :
    (limit : ℕ) (val clamped : ℤ)
    → 0 < limit
    → abs val ≤ limit
    → abs clamped ≤ limit
    → abs (raw_sum limit val clamped) ≤ limit
raw_sum_within limit (pos n) clamped h hv hc = rw (share_of_pos n (abs clamped) limit) (
    sum_of_pos limit n (n * abs clamped / limit) clamped (omega arith) hc
      (decay-IsShare limit n (abs clamped) h (omega arith) hc))
raw_sum_within limit (negsuc n) clamped h hv hc = rw (share_of_neg n (abs clamped) limit) (
    sum_of_neg limit n (suc n * abs clamped / limit) clamped (omega arith) hc
      (decay-IsShare limit (suc n) (abs clamped) h (omega arith) hc))

clamp_within : (limit : ℕ) (bonus : ℤ) → abs (clamp bonus (neg (pos limit)) (pos limit)) ≤ limit
clamp_within limit bonus = ground arith

i16_small : (v : ℤ) → abs v < 2 ^ 15 → i16 v ≡ v
i16_small v h = ground arith

-- The stored counter is the exact sum: nothing is cut off.
update-raw_sum :
    (limit : ℕ) (val bonus : ℤ)
    → 0 < limit
    → limit < 2 ^ 15
    → abs val ≤ limit
    → update limit val bonus ≡ raw_sum limit val (clamp bonus (neg (pos limit)) (pos limit))
unfolding update
update-raw_sum limit val bonus h fits hv =
    let clamped = clamp bonus (neg (pos limit)) (pos limit) in
    i16_small (raw_sum limit val clamped)
      (omega (arith, raw_sum_within limit val clamped h hv (clamp_within limit bonus)))

-- A counter within its limit, a positive number below `2 ^ 15`, stays within it, whatever the bonus.
pub update_within :
    (limit : ℕ) (val bonus : ℤ)
    → 0 < limit
    → limit < 2 ^ 15
    → abs val ≤ limit
    → abs (update limit val bonus) ≤ limit
update_within limit val bonus h fits hv = rw (update-raw_sum limit val bonus h fits hv) (
    raw_sum_within limit val (clamp bonus (neg (pos limit)) (pos limit)) h hv
      (clamp_within limit bonus))

sum_of_pos_up :
    (limit n c q : ℕ)
    → IsShare limit n c q
    → (pos n ≤ℤ pos n +ℤ pos c -ℤ pos q) × (pos n +ℤ neg (pos c) -ℤ pos q ≤ℤ pos n)
unfolding ◌+ℤ◌ ◌-ℤ◌
sum_of_pos_up limit n c q s = ground arith

sum_of_neg_up :
    (limit n c q : ℕ)
    → IsShare limit (suc n) c q
    → (negsuc n ≤ℤ negsuc n +ℤ pos c -ℤ neg (pos q))
      × (negsuc n +ℤ neg (pos c) -ℤ neg (pos q) ≤ℤ negsuc n)
unfolding ◌+ℤ◌ ◌-ℤ◌
sum_of_neg_up limit n c q s = ground arith

abs-neg : (c : ℕ) → abs (neg (pos c)) ≡ c
abs-neg c = ground arith

raw_sum_up :
    (limit : ℕ) (val : ℤ) (c : ℕ)
    → 0 < limit
    → abs val ≤ limit
    → c ≤ limit
    → (val ≤ℤ raw_sum limit val (pos c)) × (raw_sum limit val (neg (pos c)) ≤ℤ val)
raw_sum_up limit (pos n) c h hv hc =
    let share = decay-IsShare limit n c h (omega arith) hc in
    let up = sum_of_pos_up limit n c (n * c / limit) share in
    let whole : abs (pos c) ≡ c = omega arith in rw (abs-neg c, whole, share_of_pos n c limit) up
raw_sum_up limit (negsuc n) c h hv hc =
    let share = decay-IsShare limit (suc n) c h (omega arith) hc in
    let up = sum_of_neg_up limit n c (suc n * c / limit) share in
    let whole : abs (pos c) ≡ c = omega arith in rw (abs-neg c, whole, share_of_neg n c limit) up

clamp_small :
    (limit b : ℕ)
    → (clamp (pos b) (neg (pos limit)) (pos limit) ≡ pos (min b limit))
      × (clamp (neg (pos b)) (neg (pos limit)) (pos limit) ≡ neg (pos (min b limit)))
clamp_small limit b = ground arith

-- A bonus never lowers a counter within its limit, a positive number below `2 ^ 15`, and a malus of
-- any size never raises it.
pub update_direction :
    (limit : ℕ) (val : ℤ) (b : ℕ)
    → 0 < limit
    → limit < 2 ^ 15
    → abs val ≤ limit
    → (val ≤ℤ update limit val (pos b)) × (update limit val (neg (pos b)) ≤ℤ val)
update_direction limit val b h fits hv =
    rw
      (
        update-raw_sum limit val (pos b) h fits hv,
        update-raw_sum limit val (neg (pos b)) h fits hv,
        (clamp_small limit b).0,
        (clamp_small limit b).1,
      )
      (raw_sum_up limit val (min b limit) h hv (omega arith))

raw_sum_full :
    (limit : ℕ) (val : ℤ)
    → 0 < limit
    → abs val ≤ limit
    → (raw_sum limit val (pos limit) ≡ pos limit)
      × (raw_sum limit val (neg (pos limit)) ≡ neg (pos limit))
unfolding ◌+ℤ◌ ◌-ℤ◌
raw_sum_full limit (pos n) h hv =
    let whole : abs (pos limit) ≡ limit = omega arith in
    let all : n * limit / limit ≡ n = mul-div_cancel n h in
    rw (abs-neg limit, whole, share_of_pos n limit limit, all) (ground arith)
raw_sum_full limit (negsuc n) h hv =
    let whole : abs (pos limit) ≡ limit = omega arith in
    let all : suc n * limit / limit ≡ suc n = mul-div_cancel (suc n) h in
    rw (abs-neg limit, whole, share_of_neg n limit limit, all) (ground arith)

-- A bonus of the limit or more sets a counter within its limit, a positive number below `2 ^ 15`, to
-- the limit, and such a malus to its negation.
pub update_saturates :
    (limit : ℕ) (val : ℤ) (b : ℕ)
    → 0 < limit
    → limit < 2 ^ 15
    → abs val ≤ limit
    → limit ≤ b
    → (update limit val (pos b) ≡ pos limit) × (update limit val (neg (pos b)) ≡ neg (pos limit))
update_saturates limit val b h fits hv hb =
    let cut : min b limit ≡ limit = omega arith in
    rw
      (
        update-raw_sum limit val (pos b) h fits hv,
        update-raw_sum limit val (neg (pos b)) h fits hv,
        (clamp_small limit b).0,
        (clamp_small limit b).1,
        cut,
      )
      (raw_sum_full limit val h hv)
