-- ===== src/MoveGen/Targets.antt =====
-- Where the moves of the pieces of src/engine/movegen.cpp lead.
use stockfish.Base.{
  ℕ, ◌+◌, ◌≤◌, ◌<◌, ◌≡◌, refl, ap, ◌∙◌, inl, inr, Bool, true, false, ◌==◌, Bool-cases,
  if◌then◌else◌, to_ℕ, List, [], ◌∷◌, ◌++◌, map, bit_and, arith,
}
use mathlib.Core.Path.{ap₂}
use stockfish.Base.Filters.{tally}
use stockfish.Base.Lists.{All, All-mono, All-append}
use stockfish.Base.Bits.{test_bit, test_bit-bit_and}
use stockfish.Base.Bits.Fields.{bit_and-low_mask}
use stockfish.Types.Board.{Color, PieceType, Square, knight}
use stockfish.Types.Moves.{Move, of_squares, to_sq}
use stockfish.Bitboard.{Bitboard, squares_of}
use stockfish.Bitboard.Scanning.{squares_of-tally}
use stockfish.Position.State.{Position}
use stockfish.MoveGen.Pawns.{splat_moves}
use stockfish.MoveGen.Pieces.{CacheMode, Sliders, look_up, walk_pieces, generate_moves, whole_board}
use stockfish.MoveGen.Caching.Types.{unpinned, pinned, pin_line}

-- Each element of a list is found in it.
All-found : (xs : List ℕ) → All (λ x. 1 ≤ tally (λ t. t == x) xs) xs
unfolding tally
All-found [] = tt
All-found (x ∷ xs) = (ground arith, All-mono (λ y h. omega (arith, h)) xs (All-found xs))

-- `b` has no digit beyond the board.
abbrev pub OnBoard : Bitboard → Type 0
OnBoard b = (i : ℕ) → test_bit b i ≡ true → i < 64

module _ (b : Bitboard) (board : OnBoard b) where
  pub squares_of-All : All (λ s. test_bit b s ≡ true) (squares_of b)
  squares_of-All =
      All-mono
        (λ s h. elim (Bool-cases (test_bit b s)) [
          | inl e ↦ e
          | inr e ↦ absurd (omega (arith, h, squares_of-tally b s board, ap to_ℕ e))
        ])
        (squares_of b) (All-found (squares_of b))

to_sq-of_squares : (from s : ℕ) → s < 64 → to_sq (of_squares from s) ≡ s
unfolding to_sq of_squares
to_sq-of_squares from s h = bit_and-low_mask 6 63 _ refl ∙ omega arith

module _ (from : Square) (b : Bitboard) (board : OnBoard b) where
  lands :
      (ss : List ℕ)
      → All (λ s. test_bit b s ≡ true) ss
      → All (λ m. test_bit b (to_sq m) ≡ true) (map (λ to. of_squares from to) ss)
  lands [] h = tt
  lands (s ∷ ss) h = (ap (test_bit b) (to_sq-of_squares from s (board s h.0)) ∙ h.0, lands ss h.1)

  pub splat_moves-All : All (λ m. test_bit b (to_sq m) ≡ true) (splat_moves from b)
  unfolding splat_moves
  splat_moves-All = lands (squares_of b) (squares_of-All b board)

  landings :
      (t : Square) (ss : List ℕ)
      → All (λ s. test_bit b s ≡ true) ss
      → tally (λ m. to_sq m == t) (map (λ to. of_squares from to) ss) ≡ tally (λ s. s == t) ss
  unfolding tally
  landings t [] h = refl
  landings t (s ∷ ss) h =
      ap₂ ◌+◌ (ap (λ x. to_ℕ (x == t)) (to_sq-of_squares from s (board s h.0))) (landings t ss h.1)

  -- One move to each square of the set, and to no other.
  pub splat_moves-tally :
      (t : Square) → tally (λ m. to_sq m == t) (splat_moves from b) ≡ to_ℕ (test_bit b t)
  unfolding splat_moves
  splat_moves-tally t =
      landings t (squares_of b) (squares_of-All b board) ∙ squares_of-tally b t board

pub right_digit : (a b i : ℕ) → test_bit (bit_and a b) i ≡ true → test_bit b i ≡ true
right_digit a b i h = ground (arith, test_bit-bit_and i a b)

pub OnBoard-bit_and : (a b : Bitboard) → OnBoard b → OnBoard (bit_and a b)
OnBoard-bit_and a b board i h = board i (ground (arith, test_bit-bit_and i a b))

-- The pieces, in every mode, whatever the cache holds.
module _ (mode : CacheMode) (p : Position) (pt : PieceType) (target : Bitboard)
    (board : OnBoard target) where
  abbrev Hits : List Move → Type 0
  Hits ms = All (λ m. test_bit target (to_sq m) ≡ true) ms

  walk-Hits :
      (line : Square → Bitboard) (froms : List Square) (s : Sliders)
      → Hits (walk_pieces mode p pt target line froms s).0
  unfolding walk_pieces
  walk-Hits line [] s = tt
  walk-Hits line (from ∷ froms) s =
      let a = (look_up mode p pt (from) (line from) s).0 in
      let here : Hits (splat_moves from (bit_and a target)) =
        All-mono (λ m h. right_digit a target (to_sq m) h) (splat_moves from (bit_and a target))
          (splat_moves-All from (bit_and a target) (OnBoard-bit_and a target board)) in
      All-append (λ m. test_bit target (to_sq m) ≡ true) (splat_moves from (bit_and a target)) _
        here (walk-Hits line froms (look_up mode p pt from (line from) s).1)

  either-Hits :
      (b : Bool) (xs : List Move) (t : Sliders) (r : List Move × Sliders)
      → Hits xs
      → Hits r.0
      → Hits (xs ++ (if b then ([], t) else r).0)
  either-Hits true xs t r h k = All-append _ xs [] h tt
  either-Hits false xs t r h k = All-append _ xs r.0 h k

  -- Every move of a piece other than pawn and king leads to a square of the target, whatever the mode
  -- and the cache, where the target lies on the board.
  pub generate_moves-Hits :
      (us : Color) (s : Sliders) → Hits (generate_moves mode pt p target us s).0
  unfolding generate_moves
  generate_moves-Hits us s =
      let first = walk_pieces mode p pt target whole_board (unpinned p us pt) s in
      let second = walk_pieces mode p pt target (pin_line p us pt) (pinned p us pt) first.1 in
      either-Hits (pt == knight) first.0 first.1 second (walk-Hits whole_board (unpinned p us pt) s)
        (walk-Hits (pin_line p us pt) (pinned p us pt) first.1)
