-- ===== src/Position/Making.antt =====
-- src/engine/position.cpp: `do_move`, without the lists of changes for the evaluation network and
-- the prefetches. The phases of the function are the functions here, in its order.
use stockfish.Base.{
  ◌+◌, ◌-◌, bit_and, bit_or, bit_xor, Bool, not, ◌&&◌, ◌||◌, ◌==◌, leb, if◌then◌else◌, to_ℕ,
}
use stockfish.Base.Arrays.{put}
use stockfish.Base.Int.{pos_part, ◌+ℤ◌, ◌-ℤ◌}
use stockfish.Types.Board.{
  Color, Piece, Square, no_piece, pawn, bishop, king, sq_none, opposite, type_of, file_of,
  piece_value, make_piece, pawn_push, step_back,
}
use stockfish.Types.Castling.{without}
use stockfish.Types.Moves.{Move, move_type, promotion_type, promotion, en_passant, castling}
use stockfish.Bitboard.{has, complement}
use stockfish.Attacks.{pawn_attacks, line_bb}
use stockfish.Position.Placement.{Placement, remove_piece}
use stockfish.Position.Castling.{castle, rook_to, king_to}
use stockfish.Position.State.{Key, Zobrist, StateInfo, Position, colored_of, square}

-- What is at hand while a move is made: the new key and state, the pieces, and the two variables that
-- the code changes.
pub record Making : Type 0 where
  pub k : Key
  pub st : StateInfo
  pub placement : Placement
  pub to : Square
  pub captured : Piece

-- `memcpy` of the fields before `key`, and the counters.
unfoldable pub copy_state : StateInfo → StateInfo → StateInfo
copy_state old new_st = record new_st {
  material_key = old.material_key;
  pawn_key = old.pawn_key;
  minor_piece_key = old.minor_piece_key;
  non_pawn_key = old.non_pawn_key;
  non_pawn_material = old.non_pawn_material;
  rule50 = old.rule50 + 1;
  plies_from_null = old.plies_from_null + 1;
  castling_rights = old.castling_rights;
  ep_square = old.ep_square;
}

unfoldable pub make_castling : Zobrist → Color → Square → Making → Making
unfolding castle rook_to king_to put
make_castling z us from w =
    let change = bit_xor (z.psq w.captured w.to) (z.psq w.captured (rook_to us from w.to)) in
    record {
      k = bit_xor w.k change;
      st = record w.st {
        non_pawn_key = put w.st.non_pawn_key us (bit_xor (w.st.non_pawn_key us) change);
      };
      placement = castle us from w.to w.placement;
      to = king_to us from w.to;
      captured = no_piece;
    }

-- The square of the captured piece.
unfoldable pub capture_square : Move → Color → Piece → Square → Square
unfolding step_back type_of
capture_square m us captured to =
    if type_of captured == pawn && move_type m == en_passant
    then step_back to (pawn_push us)
    else to

unfoldable pub make_capture : Zobrist → Move → Color → Making → Making
unfolding opposite capture_square type_of piece_value put ◌-ℤ◌
make_capture z m us w =
    let them = opposite us in
    let pc = w.captured in
    let capsq = capture_square m us pc w.to in
    let change = z.psq pc capsq in
    let is_pawn = type_of pc == pawn in
    let passing = move_type m == en_passant in
    let left = if is_pawn && passing then remove_piece capsq w.placement else w.placement in
    let st = w.st in
    let minor = not is_pawn && leb (type_of pc) bishop in
    record w {
      k = bit_xor w.k change;
      placement = left;
      st = record st {
        pawn_key = if is_pawn then bit_xor st.pawn_key change else st.pawn_key;
        non_pawn_material =
            if is_pawn
            then st.non_pawn_material
            else put st.non_pawn_material them (st.non_pawn_material them -ℤ piece_value pc);
        non_pawn_key =
            if is_pawn
            then st.non_pawn_key
            else put st.non_pawn_key them (bit_xor (st.non_pawn_key them) change);
        minor_piece_key = if minor then bit_xor st.minor_piece_key change else st.minor_piece_key;
        material_key =
            bit_xor st.material_key
              (z.psq pc (8 + pos_part (left.piece_count pc) - to_ℕ (not passing)));
        rule50 = 0;
      };
    }

unfoldable pub take_captured : Zobrist → Move → Color → Square → Making → Making
unfolding make_castling make_capture
take_captured z m us from w =
    if move_type m == castling
    then make_castling z us from w
    else if not (w.captured == no_piece)
    then make_capture z m us w
    else w

-- The key of the moved piece, the en passant square and the castling rights.
unfoldable pub update_rights : Zobrist → Position → Square → Piece → Making → Making
unfolding file_of without
update_rights z p from pc w =
    let moved = bit_xor w.k (bit_xor (z.psq pc from) (z.psq pc w.to)) in
    let st = w.st in
    let no_ep =
      if not (st.ep_square == sq_none)
      then bit_xor moved (z.enpassant (file_of st.ep_square))
      else moved in
    let rights =
      without st.castling_rights
        (bit_or (p.castling_rights_mask from) (p.castling_rights_mask w.to)) in
    record w {
      k = bit_xor (bit_xor no_ep (z.castling st.castling_rights)) (z.castling rights);
      st = record st { ep_square = sq_none; castling_rights = rights };
    }

-- Whether a double push leaves a legal capture en passant.
unfoldable pub sets_ep : Position → Color → Square → Square → Placement → Bool
unfolding opposite pawn_attacks colored_of square has line_bb file_of
sets_ep p us from ep_square placement =
    let them = opposite us in
    let pawns = bit_and (pawn_attacks us ep_square) (colored_of placement them pawn) in
    let ksq = square placement them king in
    let not_blockers = complement (p.st.blockers_for_king them) in
    not (pawns == 0)
    && ((has not_blockers from || file_of from == file_of ksq)
        && not (bit_and pawns (bit_or not_blockers (line_bb ep_square ksq)) == 0))

unfoldable pub make_promotion : Zobrist → Move → Color → Piece → Making → Making
unfolding make_piece promotion_type piece_value put ◌+ℤ◌
make_promotion z m us pc w =
    let pt = promotion_type m in
    let promoted = make_piece us pt in
    let st = w.st in
    let n = w.placement.piece_count in
    let change = z.psq promoted w.to in
    record w {
      k = bit_xor w.k change;
      st = record st {
        material_key = bit_xor st.material_key (
            bit_xor (z.psq promoted (8 + pos_part (n promoted)))
              (z.psq pc (8 + pos_part (n pc) - 1)));
        non_pawn_key = put st.non_pawn_key us (bit_xor (st.non_pawn_key us) change);
        minor_piece_key =
            if leb pt bishop then bit_xor st.minor_piece_key change else st.minor_piece_key;
        non_pawn_material =
            put st.non_pawn_material us (st.non_pawn_material us +ℤ piece_value promoted);
      };
    }

-- What a pawn does besides moving.
unfoldable pub make_pawn : Zobrist → Position → Move → Color → Square → Piece → Making → Making
unfolding step_back sets_ep make_promotion file_of
make_pawn z p m us from pc w =
    let ep = step_back w.to (pawn_push us) in
    let special =
      if bit_xor w.to from == 16
      then (if sets_ep p us from ep w.placement
          then record w {
            k = bit_xor w.k (z.enpassant (file_of ep));
            st = record w.st { ep_square = ep };
          }
          else w)
      else if move_type m == promotion
      then make_promotion z m us pc w
      else w in
    record special {
      st = record special.st {
        pawn_key = bit_xor special.st.pawn_key (bit_xor (z.psq pc from) (z.psq pc w.to));
        rule50 = 0;
      };
    }

unfoldable pub make_non_pawn : Zobrist → Color → Square → Piece → Making → Making
unfolding put type_of
make_non_pawn z us from pc w =
    let change = bit_xor (z.psq pc from) (z.psq pc w.to) in
    let st = w.st in
    record w {
      st = record st {
        non_pawn_key = put st.non_pawn_key us (bit_xor (st.non_pawn_key us) change);
        minor_piece_key =
            if leb (type_of pc) bishop
            then bit_xor st.minor_piece_key change
            else st.minor_piece_key;
      };
    }

-- From the key of the moved piece to the final key.
unfoldable pub update_moved : Zobrist → Position → Move → Color → Square → Piece → Making → Making
update_moved z p m us from pc w =
    let updated = update_rights z p from pc w in
    if type_of pc == pawn
    then make_pawn z p m us from pc updated
    else make_non_pawn z us from pc updated
