-- ===== src/Attacks.antt =====
-- src/engine/attacks.h and attacks.cpp: the squares that a piece attacks. The tables that the code
-- fills when it starts are functions here, of the expressions that fill them; a table of magic
-- bitboards answers what `sliding_attack` gives for the occupancy.
pub mod Lines
pub mod Rays
mod Tests
use stockfish.Base.{
  ℕ, zero, suc, bit_and, bit_or, not, ◌&&◌, ◌||◌, ◌==◌, leb, if◌then◌else◌, List, [], ◌∷◌,
}
use stockfish.Base.Int.{ℤ, pos, negsuc, sub_ℕ, abs}
use stockfish.Types.Board.{
  Square, Color, PieceType, Piece, pawn, knight, bishop, rook, queen, king, is_ok, file_of, step_by,
  type_of, color_of,
}
use stockfish.Bitboard.{Bitboard, square_bb, has, with_square, pawn_attacks_bb}

-- The set of the one square a step away, or the empty set.
unfoldable pub safe_destination : Square → ℤ → Bitboard
unfolding step_by is_ok file_of
safe_destination s step =
    let to = step_by s step in
    if is_ok to && leb (abs (sub_ℕ (file_of s) (file_of to))) 2 then square_bb to else 0

-- One direction of `sliding_attack`: up to the edge, or to the first occupied square.
unfoldable pub slide : ℕ → Square → ℤ → Bitboard → Bitboard → Bitboard
unfolding safe_destination step_by
slide zero s d occupied attacks = attacks
slide (suc fuel) s d occupied attacks =
    let dest = safe_destination s d in
    let joined = bit_or attacks dest in
    let rest = slide fuel (step_by s d) d occupied joined in
    if dest == 0 then attacks else if not (bit_and occupied dest == 0) then joined else rest

unfoldable pub slide_all : List ℤ → Square → Bitboard → Bitboard → Bitboard
unfolding slide
slide_all [] s occupied attacks = attacks
slide_all (d ∷ ds) s occupied attacks = slide_all ds s occupied (slide 8 s d occupied attacks)

abbrev pub rook_directions : List ℤ
rook_directions = pos 8 ∷ negsuc 7 ∷ pos 1 ∷ negsuc 0 ∷ []

abbrev pub bishop_directions : List ℤ
bishop_directions = pos 9 ∷ negsuc 6 ∷ negsuc 8 ∷ pos 7 ∷ []

unfoldable pub sliding_attack : PieceType → Square → Bitboard → Bitboard
unfolding slide_all
sliding_attack pt sq occupied =
    slide_all (if pt == rook then rook_directions else bishop_directions) sq occupied 0

unfoldable pub join_steps : List ℤ → Square → Bitboard
unfolding safe_destination
join_steps [] sq = 0
join_steps (step ∷ steps) sq = bit_or (safe_destination sq step) (join_steps steps sq)

unfoldable pub knight_attack : Square → Bitboard
unfolding join_steps
knight_attack sq =
    join_steps (negsuc 16 ∷ negsuc 14 ∷ negsuc 9 ∷ negsuc 5 ∷ pos 6 ∷ pos 10 ∷ pos 15 ∷ pos 17 ∷ [])
      sq

unfoldable pub king_attack : Square → Bitboard
unfolding join_steps
king_attack sq =
    join_steps (negsuc 8 ∷ negsuc 7 ∷ negsuc 6 ∷ negsuc 0 ∷ pos 1 ∷ pos 7 ∷ pos 8 ∷ pos 9 ∷ []) sq

unfoldable pub pseudo_attacks : PieceType → Square → Bitboard
unfolding sliding_attack knight_attack king_attack
pseudo_attacks pt sq =
    if pt == rook || pt == bishop
    then sliding_attack pt sq 0
    else if pt == queen
    then bit_or (sliding_attack rook sq 0) (sliding_attack bishop sq 0)
    else if pt == knight
    then knight_attack sq
    else if pt == king
    then king_attack sq
    else 0

-- The rows of `PseudoAttacks` for the two colours.
unfoldable pub pawn_attacks : Color → Square → Bitboard
unfolding pawn_attacks_bb
pawn_attacks c s = pawn_attacks_bb c (square_bb s)

-- `attacks_bb` of a type other than the pawn, with an occupancy.
unfoldable pub attacks_bb : PieceType → Square → Bitboard → Bitboard
unfolding sliding_attack pseudo_attacks
attacks_bb pt s occupied =
    if pt == bishop || pt == rook
    then sliding_attack pt s occupied
    else if pt == queen
    then bit_or (sliding_attack bishop s occupied) (sliding_attack rook s occupied)
    else pseudo_attacks pt s

-- `attacks_bb` of a piece.
unfoldable pub piece_attacks_bb : Piece → Square → Bitboard → Bitboard
unfolding attacks_bb pawn_attacks type_of color_of
piece_attacks_bb pc s occupied =
    if type_of pc == pawn then pawn_attacks (color_of pc) s else attacks_bb (type_of pc) s occupied

-- Two squares on a line of a rook or of a bishop have an entry of `init`'s tables.
unfoldable pub for_aligned : (PieceType → Bitboard) → Square → Square → Bitboard
unfolding has pseudo_attacks
for_aligned entry s1 s2 =
    if has (pseudo_attacks rook s1) s2
    then entry rook
    else if has (pseudo_attacks bishop s1) s2
    then entry bishop
    else 0

unfoldable pub line_bb : Square → Square → Bitboard
unfolding for_aligned attacks_bb with_square
line_bb s1 s2 =
    for_aligned
      (λ pt. with_square (with_square (bit_and (attacks_bb pt s1 0) (attacks_bb pt s2 0)) s1) s2) s1
      s2

unfoldable pub between_bb : Square → Square → Bitboard
unfolding for_aligned attacks_bb with_square
between_bb s1 s2 =
    with_square
      (for_aligned
        (λ pt. bit_and (attacks_bb pt s1 (square_bb s2)) (attacks_bb pt s2 (square_bb s1))) s1 s2)
      s2

unfoldable pub ray_pass_bb : Square → Square → Bitboard
unfolding for_aligned attacks_bb with_square
ray_pass_bb s1 s2 =
    for_aligned
      (λ pt. bit_and (attacks_bb pt s1 0) (with_square (attacks_bb pt s2 (square_bb s1)) s2)) s1 s2
