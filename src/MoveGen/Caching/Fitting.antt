-- ===== src/MoveGen/Caching/Fitting.antt =====
-- The 16 slots of the cache of src/engine/movegen.h: what the capture list fills of them.
use stockfish.Base.{
  ℕ, zero, suc, ◌+◌, ◌≤◌, ◌<◌, ◌≡◌, refl, sym, ap, ◌∙◌, inl, inr, Bool, ◌&&◌, ◌==◌, Bool-cases, ltb,
  leb, to_ℕ, List, [], ◌∷◌, bit_and, arith,
}
use stockfish.Base.Filters.{tally}
use stockfish.Base.Lists.{length, All, All-mono}
use mathlib.Core.Path.{ap₂}
use stockfish.Base.Tests.{leb→le}
use stockfish.Bitboard.Within.{complement_digit}
use stockfish.Base.Arrays.{Array, count_below}
use stockfish.Base.Bits.{test_bit, test_bit-bit_and}
use stockfish.Types.Board.{Color, PieceType, bishop, rook, queen}
use stockfish.Bitboard.{Bitboard, complement, squares_of}
use stockfish.Bitboard.Scanning.{squares_of-tally}
use stockfish.Position.Placement.Consistency.{IsConsistent, of_type}
use stockfish.Position.State.{Position, colored_of}
use stockfish.MoveGen.{GenType}
use stockfish.MoveGen.Pieces.{CacheMode}
use stockfish.MoveGen.Targets.{OnBoard, squares_of-All}
use stockfish.MoveGen.Generating.{generate_all}
use stockfish.MoveGen.Caching.Types.{stretch}
use stockfish.MoveGen.Caching.Quiets.{officers_next}

-- The members of a list that are below a bound, counted by their values.
unfoldable by_value : ℕ → List ℕ → ℕ
unfolding tally
by_value zero xs = 0
by_value (suc n) xs = by_value n xs + tally (λ x. x == n) xs

by_value-nil : (n : ℕ) → by_value n [] ≡ 0
unfolding by_value tally
by_value-nil zero = refl
by_value-nil (suc n) = omega (arith, by_value-nil n)

by_value-cons : (n x : ℕ) (xs : List ℕ) → by_value n (x ∷ xs) ≡ to_ℕ (ltb x n) + by_value n xs
unfolding by_value tally
by_value-cons zero x xs = ground arith
by_value-cons (suc n) x xs = ground (arith, by_value-cons n x xs)

length-by_value : (n : ℕ) (xs : List ℕ) → All (λ x. x < n) xs → length xs ≡ by_value n xs
length-by_value n [] h = sym (by_value-nil n)
length-by_value n (x ∷ xs) h = ground (arith, length-by_value n xs h.1, by_value-cons n x xs, h.0)

module _ (b : Bitboard) (board : OnBoard b) where
  by_value-squares_of : (n : ℕ) → by_value n (squares_of b) ≡ count_below n (test_bit b)
  unfolding by_value count_below
  by_value-squares_of zero = refl
  by_value-squares_of (suc n) = omega (arith, by_value-squares_of n, squares_of-tally b n board)

  length-squares_of : length (squares_of b) ≡ count_below 64 (test_bit b)
  length-squares_of =
      length-by_value 64 (squares_of b)
        (All-mono (λ s e. board s e) (squares_of b) (squares_of-All b board))
      ∙ by_value-squares_of 64

-- Tests of which one at most passes where a fourth one does, counted.
count_split :
    (n : ℕ) (f g h k : ℕ → Bool)
    → ((i : ℕ) → i < n → to_ℕ (f i) + to_ℕ (g i) + to_ℕ (h i) ≤ to_ℕ (k i))
    → count_below n f + count_below n g + count_below n h ≤ count_below n k
unfolding count_below
count_split zero f g h k each = omega arith
count_split (suc n) f g h k each =
    omega (arith, count_split n f g h k (λ i l. each i (omega arith)), each n (omega arith))

count_two :
    (n : ℕ) (f g h : ℕ → Bool)
    → ((i : ℕ) → i < n → to_ℕ (f i) + to_ℕ (g i) ≡ to_ℕ (h i))
    → count_below n f + count_below n g ≡ count_below n h
unfolding count_below
count_two zero f g h each = refl
count_two (suc n) f g h each =
    omega (arith, count_two n f g h (λ i l. each i (omega arith)), each n (omega arith))

module _ (p : Position) (us : Color) (c : IsConsistent p.placement) where
  module _ (pt : PieceType) where
    own_digit :
        (i : ℕ)
        → test_bit (colored_of p.placement us pt) i
          ≡ (test_bit (p.placement.by_color_bb us) i && of_type pt (p.placement.board i))
    unfolding colored_of
    own_digit i =
        test_bit-bit_and i (p.placement.by_color_bb us) (p.placement.by_type_bb pt)
        ∙ ap (λ d. test_bit (p.placement.by_color_bb us) i && d) (c.types pt i)

    own_OnBoard : OnBoard (colored_of p.placement us pt)
    unfolding of_type
    own_OnBoard i e = elim (Bool-cases (leb 64 i)) [
      | inl le ↦ absurd (ground (arith, own_digit i, e, c.on_board i (leb→le 64 i le)))
      | inr lt ↦ ground arith
    ]

    part_OnBoard : (b : Bitboard) → OnBoard (bit_and (colored_of p.placement us pt) b)
    part_OnBoard b i e =
        own_OnBoard i (ground (arith, test_bit-bit_and i (colored_of p.placement us pt) b))

    stretch_counts : stretch p us pt ≡ count_below 64 (test_bit (colored_of p.placement us pt))
    stretch_counts =
        let own = colored_of p.placement us pt in
        let blockers = p.st.blockers_for_king us in
        let free = bit_and own (complement blockers) in
        let pinned = bit_and own blockers in
        ap₂ ◌+◌ (length-squares_of free (part_OnBoard (complement blockers)))
          (length-squares_of pinned (part_OnBoard blockers))
        ∙ count_two 64 (test_bit free) (test_bit pinned) (test_bit own) (λ i l. ground (
          arith,
          test_bit-bit_and i own (complement blockers),
          test_bit-bit_and i own blockers,
          complement_digit blockers i l,
        ))

  one_type :
      (i : ℕ)
      → to_ℕ (test_bit (colored_of p.placement us bishop) i)
          + to_ℕ (test_bit (colored_of p.placement us rook) i)
          + to_ℕ (test_bit (colored_of p.placement us queen) i)
        ≤ to_ℕ (test_bit (p.placement.by_color_bb us) i)
  unfolding of_type
  one_type i = ground (arith, own_digit bishop i, own_digit rook i, own_digit queen i)

  sliders_fit :
      stretch p us bishop + stretch p us rook + stretch p us queen
      ≤ count_below 64 (test_bit (p.placement.by_color_bb us))
  sliders_fit = omega (
    arith,
    stretch_counts bishop,
    stretch_counts rook,
    stretch_counts queen,
    count_split 64 (test_bit (colored_of p.placement us bishop))
        (test_bit (colored_of p.placement us rook)) (test_bit (colored_of p.placement us queen))
        (test_bit (p.placement.by_color_bb us)) (λ i l. one_type i),
  )

-- Where squares, sets and numbers of pieces agree and the side to move has at most 16 pieces, the list
-- of captures that fills the cache writes at most 16 sets to it.
pub cache_fits :
    (p : Position) (cache : Array Bitboard)
    → IsConsistent p.placement
    → count_below 64 (test_bit (p.placement.by_color_bb p.side_to_move)) ≤ 16
    → (generate_all GenType.captures CacheMode.fill_cache p p.side_to_move cache).1.next ≤ 16
unfolding generate_all
cache_fits p cache c few = omega (
  arith,
  sliders_fit p p.side_to_move c,
  officers_next p p.side_to_move GenType.captures refl (record { att = cache; next = 0 }),
)
