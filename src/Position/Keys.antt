-- ===== src/Position/Keys.antt =====
-- src/engine/position.cpp: the keys of a position from scratch.
pub mod FullKey
use stockfish.Base.{
  ℕ, zero, suc, ◌+◌, bit_and, bit_xor, not, ◌==◌, leb, if◌then◌else◌, List, [], ◌∷◌,
}
use stockfish.Base.Arrays.{Array, put}
use stockfish.Base.Int.{ℤ, pos, pos_part, ◌+ℤ◌}
use stockfish.Types.Board.{
  Color, Piece, Square, white, black, pawn, bishop, king, sq_none, opposite, type_of, color_of,
  file_of, piece_value,
}
use stockfish.Bitboard.{squares_of}
use stockfish.Position.Placement.{Placement}
use stockfish.Position.State.{Key, Zobrist, StateInfo, all_of, colored, square}
use stockfish.Position.Attackers.{attackers_to, set_extra_bitboards}

-- `for (int cnt = 0; cnt < pieceCount[pc]; ++cnt)`.
unfoldable pub count_keys : Zobrist → Piece → ℕ → Key → Key
count_keys z pc zero k = k
count_keys z pc (suc n) k = bit_xor (count_keys z pc n k) (z.psq pc (8 + n))

unfoldable pub material_keys : Zobrist → Array ℤ → List Piece → Key → Key
unfolding count_keys
material_keys z n [] k = k
material_keys z n (pc ∷ pcs) k = material_keys z n pcs (count_keys z pc (pos_part (n pc)) k)

-- `Pieces`.
abbrev pub pieces : List Piece
pieces = 1 ∷ 2 ∷ 3 ∷ 4 ∷ 5 ∷ 6 ∷ 9 ∷ 10 ∷ 11 ∷ 12 ∷ 13 ∷ 14 ∷ []

unfoldable pub compute_material_key : Zobrist → Placement → Key
unfolding material_keys
compute_material_key z p = material_keys z p.piece_count pieces 0

-- The body of the loop of `set_state`.
unfoldable pub add_piece : Zobrist → Placement → Square → StateInfo → StateInfo
unfolding put ◌+ℤ◌ type_of color_of piece_value
add_piece z p s st =
    let pc = p.board s in
    let c = color_of pc in
    let k = z.psq pc s in
    let keyed = record st { key = bit_xor st.key k } in
    if type_of pc == pawn
    then record keyed { pawn_key = bit_xor keyed.pawn_key k }
    else let non_pawn = record keyed {
      non_pawn_key = put keyed.non_pawn_key c (bit_xor (keyed.non_pawn_key c) k);
    } in
      if not (type_of pc == king)
      then (let valued = record non_pawn {
        non_pawn_material =
            put non_pawn.non_pawn_material c (non_pawn.non_pawn_material c +ℤ piece_value pc);
      } in
          if leb (type_of pc) bishop
          then record valued { minor_piece_key = bit_xor valued.minor_piece_key k }
          else valued)
      else non_pawn

unfoldable pub add_pieces : Zobrist → Placement → List Square → StateInfo → StateInfo
unfolding add_piece
add_pieces z p [] st = st
add_pieces z p (s ∷ squares) st = add_pieces z p squares (add_piece z p s st)

unfoldable pub set_state : Zobrist → Placement → Color → StateInfo → StateInfo
unfolding add_pieces squares_of all_of colored square opposite attackers_to set_extra_bitboards
    compute_material_key file_of put
set_state z p side_to_move st =
    let cleared = record st {
      key = 0;
      minor_piece_key = 0;
      non_pawn_key = put (put st.non_pawn_key black 0) white 0;
      pawn_key = z.no_pawns;
      non_pawn_material = put (put st.non_pawn_material black (pos 0)) white (pos 0);
      checkers_bb =
          bit_and (attackers_to p (square p side_to_move king) (all_of p))
            (colored p (opposite side_to_move));
    } in
    let added =
      add_pieces z p (squares_of (all_of p)) (set_extra_bitboards p side_to_move cleared) in
    let with_ep =
      if not (added.ep_square == sq_none)
      then bit_xor added.key (z.enpassant (file_of added.ep_square))
      else added.key in
    let with_side = if side_to_move == black then bit_xor with_ep z.side else with_ep in
    record added {
      key = bit_xor with_side (z.castling added.castling_rights);
      material_key = compute_material_key z p;
    }
