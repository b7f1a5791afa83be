-- ===== src/Attacks/Rays.antt =====
-- The fuel of the walks along a ray: no ray of the board has more than seven squares.
use stockfish.Base.{
  ℕ, zero, suc, ◌+◌, ◌-◌, ◌≤◌, ◌<◌, ◌≡◌, refl, sym, ap, ◌∙◌, bit_and, bit_or, Bool, true, not, ◌||◌,
  ◌==◌, if◌then◌else◌, List, [], ◌∷◌, arith,
}
use stockfish.Base.Int.{ℤ, pos, negsuc}
use stockfish.Base.Lists.{All, All-mono}
use stockfish.Base.Bits.Tables.{passes_below, passes_below_sound}
use stockfish.Types.Board.{Square, step_by}
use stockfish.Bitboard.{Bitboard}
use stockfish.Attacks.{safe_destination, slide}
use stockfish.Attacks.Lines.{walk_line}

-- From the square, the edge stops a walk within `n` steps.
edge_within : ℕ → ℤ → Square → Bool
edge_within zero d s = safe_destination s d == 0
edge_within (suc n) d s = safe_destination s d == 0 || edge_within n d (step_by s d)

edge_within-suc :
    (n : ℕ) (d : ℤ) (s : Square)
    → edge_within (suc n) d s ≡ (safe_destination s d == 0 || edge_within n d (step_by s d))
unfolding edge_within
edge_within-suc n d s = refl

slide-suc :
    (n : ℕ) (s : Square) (d : ℤ) (occupied attacks : Bitboard)
    → slide (suc n) s d occupied attacks ≡ (
        if safe_destination s d == 0
        then attacks
        else if not (bit_and occupied (safe_destination s d) == 0)
        then bit_or attacks (safe_destination s d)
        else slide n (step_by s d) d occupied (bit_or attacks (safe_destination s d)))
unfolding slide
slide-suc n s d occupied attacks = refl

walk_line-suc :
    (n : ℕ) (s : Square) (d : ℤ) (mask : Bitboard)
    → walk_line (suc n) s d mask ≡ (
        if safe_destination s d == 0
        then mask
        else walk_line n (step_by s d) d (bit_or mask (safe_destination s d)))
unfolding walk_line
walk_line-suc n s d mask = refl

at_edge : (s : Square) (d : ℤ) → edge_within zero d s ≡ true → (safe_destination s d == 0) ≡ true
unfolding edge_within
at_edge s d h = h

slide-fuel :
    (n k : ℕ) (s : Square) (d : ℤ) (occupied attacks : Bitboard)
    → edge_within n d s ≡ true
    → slide (suc n + k) s d occupied attacks ≡ slide (suc n) s d occupied attacks
slide-fuel zero k s d occupied attacks h =
    ground
      (arith, at_edge s d h, slide-suc k s d occupied attacks, slide-suc zero s d occupied attacks)
slide-fuel (suc n) k s d occupied attacks h = ground (
  arith,
  edge_within-suc n d s,
  slide-suc (suc n + k) s d occupied attacks,
  slide-suc (suc n) s d occupied attacks,
  slide-fuel n k (step_by s d) d occupied (bit_or attacks (safe_destination s d)),
)

walk_line-fuel :
    (n k : ℕ) (s : Square) (d : ℤ) (mask : Bitboard)
    → edge_within n d s ≡ true
    → walk_line (suc n + k) s d mask ≡ walk_line (suc n) s d mask
walk_line-fuel zero k s d mask h =
    ground (arith, at_edge s d h, walk_line-suc k s d mask, walk_line-suc zero s d mask)
walk_line-fuel (suc n) k s d mask h = ground (
  arith,
  edge_within-suc n d s,
  walk_line-suc (suc n + k) s d mask,
  walk_line-suc (suc n) s d mask,
  walk_line-fuel n k (step_by s d) d (bit_or mask (safe_destination s d)),
)

-- The directions of the rook and of the bishop.
abbrev pub directions : List ℤ
directions = pos 8 ∷ negsuc 7 ∷ pos 1 ∷ negsuc 0 ∷ pos 9 ∷ negsuc 6 ∷ negsuc 8 ∷ pos 7 ∷ []

-- What the walks give in one direction with a fuel is what they give with that of the code's model.
abbrev pub Agrees : ℕ → Square → Bitboard → ℤ → Type 0
Agrees n s occupied d =
    ((attacks : Bitboard) → slide n s d occupied attacks ≡ slide 8 s d occupied attacks)
    × ((mask : Bitboard) → walk_line n s d mask ≡ walk_line 8 s d mask)

agrees :
    (n : ℕ) (s : Square) (occupied : Bitboard) (d : ℤ)
    → 8 ≤ n
    → edge_within 7 d s ≡ true
    → Agrees n s occupied d
agrees n s occupied d le h =
    let more : 8 + (n - 8) ≡ n = omega arith in
    (
      λ attacks.
          ap (λ k. slide k s d occupied attacks) (sym more)
          ∙ slide-fuel 7 (n - 8) s d occupied attacks h,
      λ mask. ap (λ k. walk_line k s d mask) (sym more) ∙ walk_line-fuel 7 (n - 8) s d mask h,
    )

module _ (s : Square) (lt : s < 64) where
  edge_near : (d : ℤ) → passes_below 64 (edge_within 7 d) ≡ true → edge_within 7 d s ≡ true
  edge_near d table = passes_below_sound 64 (edge_within 7 d) s table lt

  edges_near : All (λ d. edge_within 7 d s ≡ true) directions
  unfolding passes_below edge_within safe_destination step_by
  edges_near = (
    edge_near (pos 8) refl,
    (
      edge_near (negsuc 7) refl,
      (
        edge_near (pos 1) refl,
        (
          edge_near (negsuc 0) refl,
          (
            edge_near (pos 9) refl,
            (edge_near (negsuc 6) refl, (edge_near (negsuc 8) refl, (edge_near (pos 7) refl, tt))),
          ),
        ),
      ),
    ),
  )

-- From a square of the board, in every direction of the rook and the bishop, the walk up to the first
-- occupied square and the walk to the edge give with eight steps what they give with any more.
pub rays_end :
    (n : ℕ) (s : Square) (occupied : Bitboard)
    → s < 64
    → 8 ≤ n
    → All (Agrees n s occupied) directions
rays_end n s occupied lt le =
    All-mono (λ d h. agrees n s occupied d le h) directions (edges_near s lt)
