-- ===== src/Bitboard/Within.antt =====
-- Sets of squares that lie in others, and the attacks of pawns.
use stockfish.Base.{
  ℕ, zero, suc, ◌<◌, not, ◌-◌, ◌*◌, ◌/◌, ◌^◌, ◌≡◌, refl, sym, ap, ◌∙◌, inl, inr, true, ◌==◌,
  Bool-cases, bit_and, bit_or, arith,
}
use mathlib.Core.Path.{subst}
use native.Mathlib.Nat.{pow-suc, div-div-eq-div-mul}
use stockfish.Base.Int.{pos, negsuc}
use stockfish.Base.Words.{u64}
use stockfish.Base.Bits.{
  test_bit, test_bit-bit_and, test_bit-bit_xor, test_bit-bit_or, test_bit-two_pow,
}
use stockfish.Base.Bits.Tables.{passes_below, passes_below_sound}
use stockfish.Base.Bits.Fields.{bit_and-low_mask}
use stockfish.Types.Board.{Color, white}
use stockfish.Bitboard.{Bitboard, shift, pawn_attacks_bb, complement, file_a_bb, file_h_bb}
use stockfish.Attacks.{pawn_attacks}

-- Every square of one set is in the other.
abbrev pub Within : Bitboard → Bitboard → Type 0
Within a b = (i : ℕ) → test_bit a i ≡ true → test_bit b i ≡ true

Within-bit_or : (a b c d : Bitboard) → Within a b → Within c d → Within (bit_or a c) (bit_or b d)
Within-bit_or a b c d v w i h = elim (Bool-cases (test_bit a i)) [
  | inl e ↦ ground (arith, test_bit-bit_or i b d, v i e)
  | inr e ↦ ground (arith, test_bit-bit_or i a c, test_bit-bit_or i b d, w i)
]

Within-mask : (a b m : Bitboard) → Within a b → Within (bit_and a m) (bit_and b m)
Within-mask a b m w i h = ground (arith, test_bit-bit_and i a m, test_bit-bit_and i b m, w i)

Within-u64 : (a b : ℕ) → Within a b → Within (u64 a) (u64 b)
Within-u64 a b w =
    let m = 2 ^ 64 - 1 in
    subst (λ x. Within x (u64 b)) (bit_and-low_mask 64 m a refl)
      (subst (λ x. Within (bit_and a m) x) (bit_and-low_mask 64 m b refl) (Within-mask a b m w))

Within-double : (a b : ℕ) → Within a b → Within (a * 2) (b * 2)
unfolding test_bit
Within-double a b w zero h = absurd (ground arith)
Within-double a b w (suc i) h =
    let e : a * 2 / 2 ≡ a = omega arith in
    let k : b * 2 / 2 ≡ b = omega arith in
    ap (λ x. test_bit x i) k ∙ w i (sym (ap (λ x. test_bit x i) e) ∙ h)

Within-half : (a b : ℕ) → Within a b → Within (a / 2) (b / 2)
unfolding test_bit
Within-half a b w i h = w (suc i) h

Within-left : (k a b : ℕ) → Within a b → Within (a * 2 ^ k) (b * 2 ^ k)
Within-left zero a b w =
    subst (λ x. Within x (b * 1)) (omega arith) (subst (Within a) (omega arith) w)
Within-left (suc k) a b w =
    let twice : (x : ℕ) → x * 2 ^ k * 2 ≡ x * 2 ^ suc k =
      λ x. omega (arith, ap (λ (t : ℕ). x * t) (pow-suc 2 k)) in
    subst (λ x. Within x (b * 2 ^ suc k)) (twice a)
      (subst (Within (a * 2 ^ k * 2)) (twice b)
        (Within-double (a * 2 ^ k) (b * 2 ^ k) (Within-left k a b w)))

Within-right : (k a b : ℕ) → Within a b → Within (a / 2 ^ k) (b / 2 ^ k)
Within-right zero a b w =
    subst (λ x. Within x (b / 1)) (omega arith) (subst (Within a) (omega arith) w)
Within-right (suc k) a b w =
    let halves : (x : ℕ) → x / 2 / 2 ^ k ≡ x / 2 ^ suc k =
      λ x. div-div-eq-div-mul x 2 (2 ^ k) ∙ ap (λ t. x / t) (omega (arith, pow-suc 2 k)) in
    subst (λ x. Within x (b / 2 ^ suc k)) (halves a)
      (subst (Within (a / 2 / 2 ^ k)) (halves b)
        (Within-right k (a / 2) (b / 2) (Within-half a b w)))

module _ (a b : Bitboard) (w : Within a b) where
  up : (k m : ℕ) → Within (u64 (bit_and a m * 2 ^ k)) (u64 (bit_and b m * 2 ^ k))
  up k m =
      Within-u64 (bit_and a m * 2 ^ k) (bit_and b m * 2 ^ k)
        (Within-left k (bit_and a m) (bit_and b m) (Within-mask a b m w))

  down : (k m : ℕ) → Within (bit_and a m / 2 ^ k) (bit_and b m / 2 ^ k)
  down k m = Within-right k (bit_and a m) (bit_and b m) (Within-mask a b m w)

  Within-pawn_attacks_bb : (c : Color) → Within (pawn_attacks_bb c a) (pawn_attacks_bb c b)
  unfolding pawn_attacks_bb shift
  Within-pawn_attacks_bb c = elim (Bool-cases (c == white)) [
    | inl e ↦ rw e (
        Within-bit_or (shift a (pos 7)) (shift b (pos 7)) (shift a (pos 9)) (shift b (pos 9))
          (up 7 (complement file_a_bb)) (up 9 (complement file_h_bb)))
    | inr e ↦ rw e (
        Within-bit_or (shift a (negsuc 8)) (shift b (negsuc 8)) (shift a (negsuc 6))
          (shift b (negsuc 6)) (down 9 (complement file_a_bb)) (down 7 (complement file_h_bb)))
  ]

-- A square of a set of pawns attacks no more than the set.
pub pawn_attacks-Within :
    (c : Color) (b s : ℕ) → test_bit b s ≡ true → Within (pawn_attacks c s) (pawn_attacks_bb c b)
unfolding pawn_attacks
pawn_attacks-Within c b s h = Within-pawn_attacks_bb (2 ^ s) b here c
  where
    here : Within (2 ^ s) b
    here i e = let at : s ≡ i = ground (arith, test_bit-two_pow i s) in ap (test_bit b) (sym at) ∙ h

-- The digits of the squares that a set leaves out.
pub complement_digit : (b i : ℕ) → i < 64 → test_bit (complement b) i ≡ not (test_bit b i)
complement_digit b i h =
    test_bit-bit_xor i b (2 ^ 64 - 1)
    ∙ ground (arith, passes_below_sound 64 (λ i. test_bit (2 ^ 64 - 1) i) i table h)
  where
    table : passes_below 64 (λ i. test_bit (2 ^ 64 - 1) i) ≡ true
    table = unfold passes_below in unfold test_bit in refl
