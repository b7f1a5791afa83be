-- ===== src/Position/Attackers.antt =====
-- src/engine/position.cpp and position.h: the attacks on a square, pins, and the squares that give
-- check or are under attack.
pub mod Joining
pub mod Threats
pub mod Untouched
use stockfish.Base.{bit_and, bit_or, bit_xor, not, ◌&&◌, ◌==◌, if◌then◌else◌, List, [], ◌∷◌}
use stockfish.Base.Arrays.{Array, put}
use stockfish.Types.Board.{
  Color, PieceType, Square, white, black, all_pieces, pawn, knight, bishop, rook, queen, king,
  opposite,
}
use stockfish.Bitboard.{
  Bitboard, more_than_one, with_square, toggle_square, squares_of, pawn_attacks_bb,
}
use stockfish.Attacks.{attacks_bb, pseudo_attacks, pawn_attacks, between_bb}
use stockfish.Position.Placement.{Placement}
use stockfish.Position.State.{StateInfo, all_of, of, colored, colored_of, square}

-- `pieces(PieceType, PieceType)`.
unfoldable pub of_either : Placement → PieceType → PieceType → Bitboard
unfolding of
of_either p a b = bit_or (of p a) (of p b)

unfoldable pub attackers_to : Placement → Square → Bitboard → Bitboard
unfolding attacks_bb pseudo_attacks pawn_attacks of_either colored_of of
attackers_to p s occupied =
    bit_or
      (bit_or
        (bit_or
          (bit_or
            (bit_or (bit_and (attacks_bb rook s occupied) (of_either p rook queen))
              (bit_and (attacks_bb bishop s occupied) (of_either p bishop queen)))
            (bit_and (pawn_attacks black s) (colored_of p white pawn)))
          (bit_and (pawn_attacks white s) (colored_of p black pawn)))
        (bit_and (pseudo_attacks knight s) (of p knight)))
      (bit_and (pseudo_attacks king s) (of p king))

unfoldable pub join_attacks : PieceType → Bitboard → List Square → Bitboard → Bitboard
unfolding attacks_bb
join_attacks pt occupied [] threats = threats
join_attacks pt occupied (s ∷ attackers) threats =
    join_attacks pt occupied attackers (bit_or threats (attacks_bb pt s occupied))

unfoldable pub xattacks_by : Placement → PieceType → Color → Bitboard → Bitboard
unfolding join_attacks pawn_attacks_bb colored_of squares_of
xattacks_by p pt c occupied =
    if pt == pawn
    then (if c == white
        then pawn_attacks_bb white (colored_of p white pawn)
        else pawn_attacks_bb black (colored_of p black pawn))
    else join_attacks pt occupied (squares_of (colored_of p c pt)) 0

-- One sniper: what stands alone between it and the king blocks, and is pinned if it is the king's own.
unfoldable pub add_sniper : Placement → Color → Square → Bitboard → Square → StateInfo → StateInfo
unfolding between_bb more_than_one with_square colored put opposite
add_sniper p c ksq occupancy sniper st =
    let b = bit_and (between_bb ksq sniper) occupancy in
    let them = opposite c in
    if not (b == 0) && not (more_than_one b)
    then record st {
      blockers_for_king = put st.blockers_for_king c (bit_or (st.blockers_for_king c) b);
      pinners =
          if not (bit_and b (colored p c) == 0)
          then put st.pinners them (with_square (st.pinners them) sniper)
          else st.pinners;
    }
    else st

unfoldable pub add_snipers :
    Placement → Color → Square → Bitboard → List Square → StateInfo → StateInfo
unfolding add_sniper
add_snipers p c ksq occupancy [] st = st
add_snipers p c ksq occupancy (sniper ∷ snipers) st =
    add_snipers p c ksq occupancy snipers (add_sniper p c ksq occupancy sniper st)

unfoldable pub clear_blockers : Color → StateInfo → StateInfo
unfolding put opposite
clear_blockers c st = record st {
  blockers_for_king = put st.blockers_for_king c 0;
  pinners = put st.pinners (opposite c) 0;
}

-- The sliders that would attack the king on an empty board.
unfoldable pub snipers_of : Placement → Color → Square → Bitboard
unfolding pseudo_attacks of_either colored opposite
snipers_of p c ksq =
    bit_and
      (bit_or (bit_and (pseudo_attacks rook ksq) (of_either p queen rook))
        (bit_and (pseudo_attacks bishop ksq) (of_either p queen bishop)))
      (colored p (opposite c))

unfoldable pub update_slider_blockers : Placement → Color → StateInfo → StateInfo
unfolding square all_of squares_of
update_slider_blockers p c st =
    let ksq = square p c king in
    let snipers = snipers_of p c ksq in
    add_snipers p c ksq (bit_xor (all_of p) snipers) (squares_of snipers) (clear_blockers c st)

unfoldable pub set_extra_bitboards : Placement → Color → StateInfo → StateInfo
unfolding update_slider_blockers square attacks_bb pseudo_attacks pawn_attacks put opposite all_of
set_extra_bitboards p side_to_move st =
    let blocked = update_slider_blockers p black (update_slider_blockers p white st) in
    let them = opposite side_to_move in
    let ksq = square p them king in
    let bishop_attacks = attacks_bb bishop ksq (all_of p) in
    let rook_attacks = attacks_bb rook ksq (all_of p) in
    let sq1 = put blocked.check_squares pawn (pawn_attacks them ksq) in
    let sq2 = put sq1 knight (pseudo_attacks knight ksq) in
    let sq3 = put sq2 bishop bishop_attacks in
    let sq4 = put sq3 rook rook_attacks in
    let sq5 = put sq4 queen (bit_or (sq4 bishop) (sq4 rook)) in
    record blocked { check_squares = put sq5 king 0; threats = put blocked.threats all_pieces 0 }

-- One assignment of `compute_threats`: a type's attacks, joined to those of all.
unfoldable pub add_threats :
    Placement → Color → Bitboard → PieceType → Array Bitboard → Array Bitboard
unfolding xattacks_by put
add_threats p them occ pt threats =
    let own = xattacks_by p pt them occ in
    let stored = put threats pt own in put stored all_pieces (bit_or (stored all_pieces) own)

unfoldable pub compute_threats : Placement → Color → StateInfo → StateInfo
unfolding add_threats xattacks_by toggle_square square all_of put opposite
compute_threats p side_to_move st =
    let them = opposite side_to_move in
    let occ = toggle_square (all_of p) (square p side_to_move king) in
    let pawns = xattacks_by p pawn them occ in
    let first = put (put st.threats pawn pawns) all_pieces pawns in
    record st {
      threats = add_threats p them occ king (
          add_threats p them occ queen (
            add_threats p them occ rook
              (add_threats p them occ bishop (add_threats p them occ knight first))));
    }

-- `threats_by`: computed when they are first asked for.
unfoldable pub threats_by : Placement → Color → PieceType → StateInfo → Bitboard × StateInfo
unfolding compute_threats
threats_by p side_to_move pt st =
    let computed = if st.threats all_pieces == 0 then compute_threats p side_to_move st else st in
    (computed.threats pt, computed)
