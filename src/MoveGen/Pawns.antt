-- ===== src/MoveGen/Pawns.antt =====
-- src/engine/movegen.cpp: the moves of the pawns, on a build with no vector unit. What a function
-- writes at `moveList` is the list that it returns.
use stockfish.Base.{
  bit_and, bit_or, Bool, true, false, not, ◌&&◌, ◌||◌, ◌==◌, if◌then◌else◌, List, [], ◌∷◌, ◌++◌,
  map,
}
use stockfish.Base.Int.{ℤ, pos, negsuc, neg, ◌+ℤ◌}
use stockfish.Types.Board.{
  Color, Square, pawn, knight, bishop, rook, queen, king, white, opposite, file_of, pawn_push,
  step_by, step_back, sq_none,
}
use stockfish.Types.Moves.{Move, of_squares, make, promotion, en_passant}
use stockfish.Bitboard.{Bitboard, square_bb, has, complement, rank_bb, file_bb, shift, squares_of}
use stockfish.Attacks.Lines.{diag_bb, antidiag_bb}
use stockfish.Position.State.{Position, all_of, colored, colored_of, square}
use stockfish.MoveGen.{GenType, is_captures, is_quiets, is_evasions}

unfoldable pub splat_pawn_moves : ℤ → Bitboard → List Move
unfolding squares_of of_squares step_back
splat_pawn_moves offset to_bb = map (λ to. of_squares (step_back to offset) to) (squares_of to_bb)

unfoldable pub splat_moves : Square → Bitboard → List Move
unfolding squares_of of_squares
splat_moves from to_bb = map (λ to. of_squares from to) (squares_of to_bb)

unfoldable pub make_promotions : GenType → ℤ → Bool → Square → List Move
unfolding make step_back
make_promotions type d enemy to =
    let from = step_back to d in
    (if is_captures type || is_evasions type then make promotion from to queen ∷ [] else [])
    ++ (if is_captures type && enemy || (is_quiets type && not enemy || is_evasions type)
        then make promotion from to rook
          ∷ make promotion from to bishop
          ∷ make promotion from to knight
          ∷ []
        else [])

-- `while (b) moveList = make_promotions<...>(moveList, pop_lsb(b))`.
unfoldable pub promotions_to : GenType → ℤ → Bool → List Square → List Move
unfolding make_promotions
promotions_to type d enemy [] = []
promotions_to type d enemy (to ∷ tos) =
    make_promotions type d enemy to ++ promotions_to type d enemy tos

-- What `generate_pawn_moves` computes first.
pub record PawnSets : Type 0 where
  pub up : ℤ
  pub up_right : ℤ
  pub up_left : ℤ
  pub empty_squares : Bitboard
  pub enemies : Bitboard
  pub on_7 : Bitboard
  pub not_on_7 : Bitboard
  pub pushable : Bitboard
  pub can_capture_left : Bitboard
  pub can_capture_right : Bitboard

unfoldable pub pawn_sets : Color → GenType → Position → PawnSets
unfolding all_of colored colored_of square opposite rank_bb file_bb file_of diag_bb antidiag_bb
pawn_sets us type p =
    let t_rank_7 = rank_bb (if us == white then 6 else 1) in
    let pinned = p.st.blockers_for_king us in
    let ksq = square p.placement us king in
    let pawns = colored_of p.placement us pawn in
    record {
      up = pawn_push us;
      up_right = if us == white then pos 9 else negsuc 8;
      up_left = if us == white then pos 7 else negsuc 6;
      empty_squares = complement (all_of p.placement);
      enemies = if is_evasions type then p.st.checkers_bb else colored p.placement (opposite us);
      on_7 = bit_and pawns t_rank_7;
      not_on_7 = bit_and pawns (complement t_rank_7);
      pushable = bit_or (complement pinned) (file_bb (file_of ksq));
      can_capture_left = bit_or (complement pinned) (antidiag_bb ksq);
      can_capture_right = bit_or (complement pinned) (diag_bb ksq);
    }

-- Single and double pushes, no promotions.
unfoldable pub pawn_pushes : Color → GenType → PawnSets → Bitboard → List Move
unfolding shift rank_bb splat_pawn_moves ◌+ℤ◌
pawn_pushes us type s target =
    let t_rank_3 = rank_bb (if us == white then 2 else 5) in
    let b1 = bit_and (shift (bit_and s.not_on_7 s.pushable) s.up) s.empty_squares in
    let b2 = bit_and (shift (bit_and b1 t_rank_3) s.up) s.empty_squares in
    if is_captures type
    then []
    else splat_pawn_moves s.up (if is_evasions type then bit_and b1 target else b1)
      ++ splat_pawn_moves (s.up +ℤ s.up) (if is_evasions type then bit_and b2 target else b2)

unfoldable pub pawn_promotions : GenType → PawnSets → Bitboard → List Move
unfolding shift squares_of promotions_to
pawn_promotions type s target =
    let b1 = bit_and (shift (bit_and s.on_7 s.can_capture_right) s.up_right) s.enemies in
    let b2 = bit_and (shift (bit_and s.on_7 s.can_capture_left) s.up_left) s.enemies in
    let b3 = bit_and (shift (bit_and s.on_7 s.pushable) s.up) s.empty_squares in
    let b3' = if is_evasions type then bit_and b3 target else b3 in
    if s.on_7 == 0
    then []
    else promotions_to type s.up_right true (squares_of b1)
      ++ (promotions_to type s.up_left true (squares_of b2)
          ++ promotions_to type s.up false (squares_of b3'))

unfoldable pub en_passant_captures : PawnSets → Square → List Move
unfolding shift squares_of make
en_passant_captures s ep =
    let from = bit_and s.not_on_7 (
      bit_or (bit_and s.can_capture_right (shift (square_bb ep) (neg s.up_right)))
        (bit_and s.can_capture_left (shift (square_bb ep) (neg s.up_left)))) in
    map (λ f. make en_passant f ep knight) (squares_of from)

-- Standard and en passant captures.
unfoldable pub pawn_captures : GenType → PawnSets → Square → Bitboard → List Move
unfolding shift splat_pawn_moves has step_by en_passant_captures
pawn_captures type s ep target =
    let b1 = bit_and (shift (bit_and s.not_on_7 s.can_capture_right) s.up_right) s.enemies in
    let b2 = bit_and (shift (bit_and s.not_on_7 s.can_capture_left) s.up_left) s.enemies in
    if is_captures type || is_evasions type
    then splat_pawn_moves s.up_right b1
      ++ (splat_pawn_moves s.up_left b2
          ++ (if not (ep == sq_none) && not (is_evasions type && has target (step_by ep s.up))
              then en_passant_captures s ep
              else []))
    else []

unfoldable pub generate_pawn_moves : Color → GenType → Position → Bitboard → List Move
unfolding pawn_sets pawn_pushes pawn_promotions pawn_captures
generate_pawn_moves us type p target =
    let s = pawn_sets us type p in
    pawn_pushes us type s target
    ++ (pawn_promotions type s target ++ pawn_captures type s p.st.ep_square target)
