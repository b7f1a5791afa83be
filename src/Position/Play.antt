-- ===== src/Position/Play.antt =====
-- src/engine/position.cpp: `do_move`, `undo_move` and the null move.
use stockfish.Base.{
  ℕ, ◌+◌, bit_and, bit_xor, Bool, not, ◌&&◌, ◌==◌, leb, min, if◌then◌else◌, List, [], ◌∷◌,
}
use stockfish.Base.Lists.{head_or, rest_of}
use stockfish.Base.Int.{ℤ, pos, neg, eqb_ℤ, ◌+ℤ◌, ◌-ℤ◌}
use stockfish.Types.Board.{
  Color, Piece, Square, no_piece, pawn, king, sq_none, opposite, file_of, make_piece, pawn_push,
  step_back,
}
use stockfish.Types.Moves.{
  Move, from_sq, to_sq, move_type, promotion_type, promotion, en_passant, castling,
}
use stockfish.Position.Placement.{Placement, put_piece, remove_piece, move_piece, swap_piece}
use stockfish.Position.Castling.{uncastle}
use stockfish.Position.Making.{Making, copy_state, take_captured, update_moved}
use stockfish.Position.State.{Key, Zobrist, StateInfo, Position, all_of, colored, square}
use stockfish.Position.Attackers.{attackers_to, set_extra_bitboards}

-- The pieces move; a castling is done already.
unfoldable pub place_moved : Move → Color → Square → Piece → Square → Piece → Placement → Placement
unfolding make_piece promotion_type
place_moved m us from pc to captured p =
    let to_pc = if move_type m == promotion then make_piece us (promotion_type m) else pc in
    if move_type m == castling
    then p
    else if not (captured == no_piece) && not (move_type m == en_passant)
    then swap_piece to to_pc (remove_piece from p)
    else if pc == to_pc
    then move_piece from to p
    else put_piece to_pc to (remove_piece from p)

-- The loop over the earlier states with the same side to move, from the fourth back: the states are
-- given from the one before the first that the loop visits.
unfoldable pub find_repetition : ℕ → Key → List StateInfo → ℕ → ℤ
find_repetition end key [] i = pos 0
find_repetition end key (a ∷ []) i = pos 0
find_repetition end key (a ∷ b ∷ states) i =
    let rest = find_repetition end key states (i + 2) in
    if leb i end
    then (if b.key == key
        then (if not (eqb_ℤ b.repetition (pos 0)) then neg (pos i) else pos i)
        else rest)
    else pos 0

-- The states from the third back.
unfoldable pub repetition_of : StateInfo → List StateInfo → ℤ
unfolding find_repetition
repetition_of st (a ∷ b ∷ states) =
    let end = min st.rule50 st.plies_from_null in
    if leb 4 end then find_repetition end st.key states 4 else pos 0
repetition_of st (a ∷ []) = pos 0
repetition_of st [] = pos 0

unfoldable pub captured_by : Move → Color → Placement → Piece
captured_by m us p =
    if move_type m == en_passant then make_piece (opposite us) pawn else p.board (to_sq m)

-- The phases up to the final key, which leave what is needed to place the pieces.
unfoldable pub update_state : Zobrist → Move → StateInfo → Position → Making
update_state z m new_st p =
    let us = p.side_to_move in
    let from = from_sq m in
    let pc = p.placement.board from in
    let start : Making = record {
      k = bit_xor p.st.key z.side;
      st = copy_state p.st new_st;
      placement = p.placement;
      to = to_sq m;
      captured = captured_by m us p.placement;
    } in
    update_moved z p m us from pc (take_captured z m us from start)

-- `new_st` is the caller's storage, of which the fields that are not written stay.
unfoldable pub do_move : Zobrist → Move → StateInfo → Bool → Position → Position
do_move z m new_st gives_check p =
    let us = p.side_to_move in
    let them = opposite us in
    let from = from_sq m in
    let pc = p.placement.board from in
    let w = update_state z m new_st p in
    let placed = place_moved m us from pc w.to w.captured w.placement in
    let checkers =
      if gives_check
      then bit_and (attackers_to placed (square placed them king) (all_of placed))
          (colored placed us)
      else 0 in
    let st =
      set_extra_bitboards placed them
        (record w.st { key = w.k; captured_piece = w.captured; checkers_bb = checkers }) in
    let states = p.st ∷ p.previous in
    record p {
      placement = placed;
      st = record st { repetition = repetition_of st states };
      previous = states;
      game_ply = p.game_ply +ℤ pos 1;
      side_to_move = them;
    }

-- The pieces go back.
unfoldable pub unplace : Move → Color → Piece → Placement → Placement
unplace m us captured p =
    let from = from_sq m in
    let to = to_sq m in
    let demoted = if move_type m == promotion then swap_piece to (make_piece us pawn) p else p in
    if move_type m == castling
    then uncastle us from to demoted
    else let back = move_piece to from demoted in
      let capsq = if move_type m == en_passant then step_back to (pawn_push us) else to in
      if not (captured == no_piece) then put_piece captured capsq back else back

-- The earlier state is the head of the list; the code dereferences `previous`.
unfoldable pub undo_move : Move → Position → Position
undo_move m p =
    let us = opposite p.side_to_move in
    record p {
      placement = unplace m us p.st.captured_piece p.placement;
      st = head_or p.previous p.st;
      previous = rest_of p.previous;
      game_ply = p.game_ply -ℤ pos 1;
      side_to_move = us;
    }

-- `memcpy` of the whole state, of which these fields change.
unfoldable pub do_null_move : Zobrist → Position → Position
do_null_move z p =
    let them = opposite p.side_to_move in
    let old = p.st in
    let no_ep =
      if not (old.ep_square == sq_none)
      then bit_xor old.key (z.enpassant (file_of old.ep_square))
      else old.key in
    let st = set_extra_bitboards p.placement them (record old {
      key = bit_xor no_ep z.side;
      ep_square = sq_none;
      plies_from_null = 0;
      captured_piece = no_piece;
    }) in
    record p {
      st = record st { repetition = pos 0 };
      previous = old ∷ p.previous;
      side_to_move = them;
    }

unfoldable pub undo_null_move : Position → Position
undo_null_move p = record p {
  st = head_or p.previous p.st;
  previous = rest_of p.previous;
  side_to_move = opposite p.side_to_move;
}
