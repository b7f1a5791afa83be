-- ===== src/Position/MoveTests.antt =====
-- src/engine/position.h and position.cpp: what `Position` says of a move before it is made, and of the
-- repetition of positions.
pub mod Stages
use stockfish.Base.{
  ℕ, zero, suc, ◌-◌, ◌/◌, ◌%◌, ◌^◌, min, bit_and, bit_or, bit_xor, Bool, true, false, not, ◌&&◌,
  ◌||◌, ◌==◌, ltb, if◌then◌else◌, List, [], ◌∷◌,
}
use stockfish.Base.Int.{ℤ, pos, eqb_ℤ, ltb_ℤ}
use stockfish.Types.Board.{
  Piece, Square, no_piece, pawn, bishop, rook, queen, king, opposite, type_of, file_of, rank_of,
  make_square, relative_square,
}
use stockfish.Types.Moves.{
  Move, from_sq, to_sq, move_type, promotion_type, normal, promotion, en_passant, castling,
}
use stockfish.Bitboard.{Bitboard, toggle_square, with_square}
use stockfish.Attacks.{attacks_bb, line_bb}
use stockfish.Position.Placement.{empty}
use stockfish.Position.State.{
  Key, Zobrist, StateInfo, Position, all_of, colored, colored_of, square, adjust_key50,
}
use stockfish.Position.Attackers.{of_either}

unfoldable pub capture : Position → Move → Bool
capture p m =
    let mt = move_type m in
    if mt == normal || mt == promotion then not (empty p.placement (to_sq m)) else mt == en_passant

unfoldable pub capture_stage : Position → Move → Bool
capture_stage p m =
    let mt = move_type m in
    if mt == normal
    then not (empty p.placement (to_sq m))
    else if mt == promotion
    then not (empty p.placement (to_sq m)) || promotion_type m == queen
    else mt == en_passant

-- `b >> s & 1`.
unfoldable pub bit_at : Bitboard → Square → Bool
bit_at b s = b / 2 ^ s % 2 == 1

-- The cases of the `switch`: a check that the piece does not give where it lands.
unfoldable pub special_check : Position → Move → Bool
special_check p m =
    let us = p.side_to_move in
    let them = opposite us in
    let q = p.placement in
    let from = from_sq m in
    let to = to_sq m in
    let mt = move_type m in
    if mt == normal
    then false
    else if mt == promotion
    then not (
        bit_and (attacks_bb (promotion_type m) to (toggle_square (all_of q) from))
          (colored_of q them king)
        == 0)
    else if mt == en_passant
    then (let capsq = make_square (file_of to) (rank_of from) in
        let b = with_square (toggle_square (toggle_square (all_of q) from) capsq) to in
        let ksq = square q them king in
        not (
          bit_or (bit_and (attacks_bb rook ksq b) (bit_and (colored q us) (of_either q queen rook)))
            (bit_and (attacks_bb bishop ksq b) (bit_and (colored q us) (of_either q queen bishop)))
          == 0))
    else bit_at (p.st.check_squares rook) (relative_square us (if ltb from to then 5 else 3))

unfoldable pub gives_check : Position → Move → Bool
gives_check p m =
    let them = opposite p.side_to_move in
    let from = from_sq m in
    let to = to_sq m in
    if bit_at (p.st.check_squares (type_of (p.placement.board from))) to
    then true
    else if bit_at (p.st.blockers_for_king them) from
    then bit_and (line_bb from to) (colored_of p.placement them king) == 0
      || move_type m == castling
    else special_check p m

unfoldable pub prefetch_key : Zobrist → Position → Move → Key
prefetch_key z p m =
    let from = from_sq m in
    let to = to_sq m in
    let pc = p.placement.board from in
    let captured = p.placement.board to in
    let k =
      bit_xor (bit_xor p.st.key z.side)
        (bit_xor (bit_xor (z.psq captured to) (z.psq pc to)) (z.psq pc from)) in
    if not (captured == no_piece) || type_of pc == pawn then k else adjust_key50 1 p.st k

unfoldable pub is_repetition : Position → ℤ → Bool
is_repetition p ply = not (eqb_ℤ p.st.repetition (pos 0)) && ltb_ℤ p.st.repetition ply

-- The loop of `has_repeated`, over the states from the newest back.
unfoldable pub repeated_in : ℕ → List StateInfo → Bool
repeated_in zero states = false
repeated_in (suc n) [] = false
repeated_in (suc n) (s ∷ states) =
    let rest = repeated_in n states in if not (eqb_ℤ s.repetition (pos 0)) then true else rest

unfoldable pub has_repeated : Position → Bool
has_repeated p = repeated_in (min p.st.rule50 p.st.plies_from_null - 3) (p.st ∷ p.previous)
