-- ===== src/MoveGen/Pieces.antt =====
-- src/engine/movegen.h and movegen.cpp: the moves of the pieces other than pawns and kings, with the
-- cache of the sliders' attacks (`SliderCache`).
use stockfish.Base.{ℕ, ◌+◌, ◌-◌, ◌^◌, bit_and, ◌==◌, if◌then◌else◌, List, [], ◌∷◌, ◌++◌}
use stockfish.Base.Arrays.{Array, put}
use stockfish.Types.Board.{Color, PieceType, Square, knight, king}
use stockfish.Types.Moves.{Move}
use stockfish.Bitboard.{Bitboard, complement, squares_of}
use stockfish.Attacks.{attacks_bb, line_bb}
use stockfish.Position.State.{Position, all_of, colored_of, square}
use stockfish.MoveGen.Pawns.{splat_moves}

-- `SliderCacheMode`.
pub data CacheMode : Type 0 where
  no_cache : CacheMode
  fill_cache : CacheMode
  use_cache : CacheMode

-- `SliderCache` and the index `next`. The code's array has 16 slots, and an assertion says that a write
-- is to one of them; the array here has no end, and Caching/Fitting.antt is about that bound.
pub record Sliders : Type 0 where
  pub att : Array Bitboard
  pub next : ℕ

-- The lambda `attacks`: of a type in a mode, from a square, cut to a line.
unfoldable pub cut_attacks : Position → PieceType → Square → Bitboard → Bitboard
unfolding attacks_bb all_of
cut_attacks p pt from line = bit_and (attacks_bb pt from (all_of p.placement)) line

unfoldable pub look_up :
    CacheMode → Position → PieceType → Square → Bitboard → Sliders → Bitboard × Sliders
unfolding cut_attacks put
look_up mode p pt from line s =
    if pt == knight then (cut_attacks p pt from line, s) else elim mode [
      | CacheMode.no_cache ↦ (cut_attacks p pt from line, s)
      | CacheMode.fill_cache ↦ (
        cut_attacks p pt from line,
        record { att = put s.att s.next (cut_attacks p pt from line); next = s.next + 1 },
      )
      | CacheMode.use_cache ↦ (s.att s.next, record s { next = s.next + 1 })
    ]

-- One of the two loops, over the squares of its set; `line` is what a piece on the square is cut to.
unfoldable pub walk_pieces :
    CacheMode
    → Position
    → PieceType
    → Bitboard
    → (Square → Bitboard)
    → List Square
    → Sliders
    → List Move × Sliders
unfolding look_up splat_moves
walk_pieces mode p pt target line [] s = ([], s)
walk_pieces mode p pt target line (from ∷ froms) s =
    let (a, s') = look_up mode p pt from (line from) s in
    let (ms, s'') = walk_pieces mode p pt target line froms s' in
    (splat_moves from (bit_and a target) ++ ms, s'')

abbrev pub whole_board : Square → Bitboard
whole_board from = 2 ^ 64 - 1

unfoldable pub generate_moves :
    CacheMode → PieceType → Position → Bitboard → Color → Sliders → List Move × Sliders
unfolding walk_pieces colored_of square line_bb squares_of
generate_moves mode pt p target us s =
    let ksq = square p.placement us king in
    let pinned = p.st.blockers_for_king us in
    let own = colored_of p.placement us pt in
    let (ms, s') =
      walk_pieces mode p pt target whole_board (squares_of (bit_and own (complement pinned))) s in
    let (ms', s'') =
      if pt == knight
      then ([], s')
      else walk_pieces mode p pt target (λ from. line_bb ksq from) (squares_of (bit_and own pinned))
          s' in
    (ms ++ ms', s'')
