-- ===== src/MoveGen/Legality.antt =====
-- src/engine/position.cpp: `Position::legal`, the test of a move that comes from the table.
use stockfish.Base.{
  bit_and, bit_or, Bool, true, false, not, ◌&&◌, ◌||◌, ◌==◌, if◌then◌else◌, List, [], ◌∷◌,
}
use stockfish.Base.Int.{◌+ℤ◌}
use stockfish.Types.Board.{
  Square, no_piece, pawn, king, opposite, type_of, color_of, relative_rank_of, pawn_push, step_by,
  step_back,
}
use stockfish.Types.Moves.{Move, from_sq, to_sq, move_type, normal}
use stockfish.Bitboard.{has, rank_8_bb, rank_1_bb, more_than_one, lsb}
use stockfish.Attacks.{attacks_bb, pawn_attacks, between_bb, line_bb}
use stockfish.Position.Placement.{empty}
use stockfish.Position.State.{Position, all_of, colored, colored_of, square}
use stockfish.MoveGen.Generating.{generate_legal, threatened}

-- `MoveList::contains`.
unfoldable pub contains : List Move → Move → Bool
contains [] m = false
contains (x ∷ xs) m = x == m || contains xs m

-- A capture, a single push or a double push that is no promotion.
unfoldable pub is_pawn_move : Position → Square → Square → Bool
unfolding has pawn_attacks colored opposite step_by step_back empty relative_rank_of ◌+ℤ◌
is_pawn_move p from to =
    let us = p.side_to_move in
    let q = p.placement in
    let push = pawn_push us in
    let is_capture = has (bit_and (pawn_attacks us from) (colored q (opposite us))) to in
    let is_single_push = step_by from push == to && empty q to in
    let is_double_push =
      step_by from (push +ℤ push) == to
      && (relative_rank_of us from == 1 && (empty q to && empty q (step_back to push))) in
    not (has (bit_or rank_8_bb rank_1_bb) to) && (is_capture || (is_single_push || is_double_push))

-- How the piece moves: the tests that are the same in and out of check.
unfoldable pub is_pseudo_legal : Position → Move → Bool
unfolding has colored is_pawn_move attacks_bb all_of type_of color_of
is_pseudo_legal p m =
    let us = p.side_to_move in
    let from = from_sq m in
    let to = to_sq m in
    let pc = p.placement.board from in
    if pc == no_piece || not (color_of pc == us)
    then false
    else if has (colored p.placement us) to
    then false
    else if type_of pc == pawn
    then is_pawn_move p from to
    else has (attacks_bb (type_of pc) from (all_of p.placement)) to

-- A move of another piece than the king answers a check, and stays on the line of a pin.
unfoldable pub keeps_king_safe : Position → Square → Square → Bool
unfolding has more_than_one lsb between_bb line_bb square colored_of
keeps_king_safe p from to =
    let us = p.side_to_move in
    let checkers = p.st.checkers_bb in
    let answers =
      if checkers == 0
      then true
      else not (more_than_one checkers)
        && has (between_bb (square p.placement us king) (lsb checkers)) to in
    answers
    && (not (has (p.st.blockers_for_king us) from)
        || not (bit_and (line_bb from to) (colored_of p.placement us king) == 0))

unfoldable pub legal : Position → Move → Bool
unfolding generate_legal contains is_pseudo_legal keeps_king_safe type_of has threatened
legal p m =
    let from = from_sq m in
    let to = to_sq m in
    if not (move_type m == normal)
    then contains (generate_legal p) m
    else if not (is_pseudo_legal p m)
    then false
    else if not (type_of (p.placement.board from) == king)
    then keeps_king_safe p from to
    else not (has (threatened p) to)
