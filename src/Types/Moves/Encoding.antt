-- ===== src/Types/Moves/Encoding.antt =====
-- src/engine/types.h: the 16 bits of a move hold its four fields.
use stockfish.Base.{
  ℕ, ◌+◌, ◌-◌, ◌*◌, ◌/◌, ◌%◌, ◌^◌, ◌≤◌, ◌<◌, ◌≡◌, refl, ◌∙◌, ◌⊎◌, ◌↔◌, false, arith, ap,
}
use stockfish.Base.Bits.Fields.{bit_and-low_mask, bit_and-high_mask}
use stockfish.Types.Moves.{
  Move, of_squares, make, from_sq, to_sq, move_type, promotion_type, is_ok, normal,
}

pub from_sq-div : (m : Move) → from_sq m ≡ m / 64 % 64
unfolding from_sq
from_sq-div m = bit_and-low_mask 6 0x3F (m / 2 ^ 6) refl

pub to_sq-mod : (m : Move) → to_sq m ≡ m % 64
unfolding to_sq
to_sq-mod m = bit_and-low_mask 6 0x3F m refl

pub promotion_type-div : (m : Move) → promotion_type m ≡ m / 4096 % 4 + 2
unfolding promotion_type
promotion_type-div m = ap (λ t. t + 2) (bit_and-low_mask 2 3 (m / 2 ^ 12) refl)

pub move_type-div : (m : Move) → move_type m ≡ m / 16384 % 4 * 16384
unfolding move_type
move_type-div m =
    bit_and-high_mask 14 m 3 (3 * 2 ^ 14) refl
    ∙ ap (λ t. t * 2 ^ 14) (bit_and-low_mask 2 3 (m / 2 ^ 14) refl)

-- A move made of a type, two squares of the board and a promotion piece from knight to queen has
-- exactly these fields, and fits 16 bits.
pub make_fields :
    (k from to pt : ℕ)
    → k < 4
    → from < 64
    → to < 64
    → 2 ≤ pt
    → pt ≤ 5
    → let m = make (k * 2 ^ 14) from to pt in
      (move_type m ≡ k * 2 ^ 14)
      × (from_sq m ≡ from)
      × (to_sq m ≡ to)
      × (promotion_type m ≡ pt)
      × (m < 2 ^ 16)
unfolding make
make_fields k from to pt hk hf ht lo hi =
    let m = make (k * 2 ^ 14) from to pt in
    let sum : m ≡ k * 2 ^ 14 + (pt - 2) * 2 ^ 12 + from * 2 ^ 6 + to = ground arith in
    (
      move_type-div m ∙ omega arith,
      from_sq-div m ∙ omega arith,
      to_sq-mod m ∙ omega arith,
      promotion_type-div m ∙ omega arith,
      omega arith,
    )

-- Every 16-bit number is the move of its own fields: no two moves share all four.
pub make_of_fields :
    (m : Move) → m < 2 ^ 16 → make (move_type m) (from_sq m) (to_sq m) (promotion_type m) ≡ m
unfolding make
make_of_fields m h =
    ground (arith, from_sq-div m, to_sq-mod m, promotion_type-div m, move_type-div m)

-- For two squares of the board the constructor gives the `NORMAL` move, which is not ok exactly for
-- A1 to A1 and B1 to B1.
pub of_squares-is_ok :
    (from to : ℕ)
    → from < 64
    → to < 64
    → (of_squares from to ≡ make normal from to 2)
      × ((is_ok (of_squares from to) ≡ false) ↔ (((from ≡ 0) × (to ≡ 0)) ⊎ ((from ≡ 1) × (to ≡ 1))))
unfolding of_squares make is_ok
of_squares-is_ok from to hf ht =
    let sum : (from * 64 + to) % 2 ^ 16 ≡ from * 64 + to = omega arith in
    (omega arith, rw sum ((λ h. ground arith), (λ h. ground arith)))
