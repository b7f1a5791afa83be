-- ===== src/MoveGen/Caching/Types.antt =====
-- The cache of src/engine/movegen.cpp over the two loops of `generate_moves`.
use stockfish.Base.{ℕ, ◌+◌, ◌<◌, ◌≡◌, refl, sym, ap, ◌∙◌, ◌==◌, false, List, ◌++◌, arith, bit_and}
use mathlib.Core.Path.{subst, ap₂}
use stockfish.Base.Lists.{length}
use stockfish.Base.Arrays.{Array}
use stockfish.Types.Board.{Color, PieceType, Square, knight, king}
use stockfish.Types.Moves.{Move}
use stockfish.Bitboard.{Bitboard, complement, squares_of}
use stockfish.Attacks.{line_bb}
use stockfish.Position.State.{Position, colored_of, square}
use stockfish.MoveGen.Pieces.{CacheMode, Sliders, walk_pieces, generate_moves, whole_board}
use stockfish.MoveGen.Caching.{Holds, Holds-cong, fills, reads}

module _ (p : Position) (us : Color) (pt : PieceType) where
  -- The squares of the two loops, and the line that a pinned piece is cut to.
  abbrev pub unpinned : List Square
  unpinned =
      squares_of (bit_and (colored_of p.placement us pt) (complement (p.st.blockers_for_king us)))

  abbrev pub pinned : List Square
  pinned = squares_of (bit_and (colored_of p.placement us pt) (p.st.blockers_for_king us))

  abbrev pub pin_line : Square → Bitboard
  pin_line from = line_bb (square p.placement us king) from

  abbrev pub stretch : ℕ
  stretch = length unpinned + length pinned

  abbrev pub HoldsType : Array Bitboard → ℕ → Type 0
  HoldsType att i =
      Holds p pt whole_board att i unpinned × Holds p pt pin_line att (i + length unpinned) pinned

  pub HoldsType-cong :
      (a b : Array Bitboard) (i : ℕ)
      → ((j : ℕ) → j < i + stretch → b j ≡ a j)
      → HoldsType a i
      → HoldsType b i
  HoldsType-cong a b i h k = (
    Holds-cong p pt whole_board a b i unpinned (λ j l. h j (omega arith)) k.0,
    Holds-cong p pt pin_line a b (i + length unpinned) pinned (λ j l. h j (omega arith)) k.1,
  )

  module _ (target : Bitboard) (slider : (pt == knight) ≡ false) where
    abbrev first : CacheMode → Sliders → List Move × Sliders
    first mode s = walk_pieces mode p pt target whole_board unpinned s

    abbrev second : CacheMode → Sliders → List Move × Sliders
    second mode s = walk_pieces mode p pt target pin_line pinned s

    two_loops :
        (mode : CacheMode) (s : Sliders)
        → generate_moves mode pt p target us s
          ≡ ((first mode s).0 ++ (second mode (first mode s).1).0, (second mode (first mode s).1).1)
    unfolding generate_moves
    two_loops mode s = rw slider refl

    pub type_fills :
        (s t : Sliders)
        → ((generate_moves CacheMode.fill_cache pt p target us s).0
            ≡ (generate_moves CacheMode.no_cache pt p target us t).0)
          × ((generate_moves CacheMode.fill_cache pt p target us s).1.next ≡ s.next + stretch)
          × ((j : ℕ)
              → j < s.next
              → (generate_moves CacheMode.fill_cache pt p target us s).1.att j ≡ s.att j)
          × HoldsType (generate_moves CacheMode.fill_cache pt p target us s).1.att s.next
    type_fills s t =
        let a = fills p pt whole_board target slider unpinned s t in
        let s1 = (first CacheMode.fill_cache s).1 in
        let b = fills p pt pin_line target slider pinned s1 (first CacheMode.no_cache t).1 in
        let s2 = (second CacheMode.fill_cache s1).1 in
        let e = two_loops CacheMode.fill_cache s in
        (
          ap (λ r. r.0) e ∙ ap₂ ◌++◌ a.0 b.0 ∙ sym (ap (λ r. r.0) (two_loops CacheMode.no_cache t)),
          ap (λ r. r.1.next) e ∙ omega (arith, a.1, b.1),
          λ j l. ap (λ r. r.1.att j) e ∙ b.2 j (omega (arith, a.1)) ∙ a.2 j l,
          subst (λ r. HoldsType r.1.att s.next) (sym e)
              (
                Holds-cong p pt whole_board s1.att s2.att s.next unpinned
                    (λ j l. b.2 j (omega (arith, a.1))) a.3,
                subst (λ i. Holds p pt pin_line s2.att i pinned) a.1 b.3,
              ),
        )

    pub type_reads :
        (s t : Sliders)
        → HoldsType s.att s.next
        → ((generate_moves CacheMode.use_cache pt p target us s).0
            ≡ (generate_moves CacheMode.no_cache pt p target us t).0)
          × ((generate_moves CacheMode.use_cache pt p target us s).1
              ≡ record s { next = s.next + stretch })
    type_reads s t h =
        let a = reads p pt whole_board target slider unpinned s t h.0 in
        let s1 : Sliders = record s { next = s.next + length unpinned } in
        let b = reads p pt pin_line target slider pinned s1 (first CacheMode.no_cache t).1 h.1 in
        let e = two_loops CacheMode.use_cache s in
        let after : second CacheMode.use_cache (first CacheMode.use_cache s).1
            ≡ second CacheMode.use_cache s1 =
          ap (second CacheMode.use_cache) a.1 in
        (
          ap (λ r. r.0) e
              ∙ ap₂ ◌++◌ a.0 (ap (λ r. r.0) after ∙ b.0)
              ∙ sym (ap (λ r. r.0) (two_loops CacheMode.no_cache t)),
          ap (λ r. r.1) e
              ∙ ap (λ r. r.1) after
              ∙ b.1
              ∙ ap (λ n. record s { next = n }) (omega arith),
        )
