-- ===== src/MoveGen/Generating.antt =====
-- src/engine/movegen.cpp: the lists of all the moves of a kind, and of all the legal moves.
use stockfish.Base.{bit_and, not, ◌&&◌, ◌==◌, ltb, if◌then◌else◌, List, [], ◌∷◌, ◌++◌}
use stockfish.Base.Arrays.{Array}
use stockfish.Types.Board.{
  Color, knight, bishop, rook, queen, king, opposite, all_pieces, relative_square,
}
use stockfish.Types.Castling.{CastlingRights, rights_of, king_side, queen_side, any_castling}
use stockfish.Types.Moves.{Move, make, castling}
use stockfish.Bitboard.{Bitboard, has, complement, more_than_one, lsb}
use stockfish.Attacks.{between_bb, pseudo_attacks}
use stockfish.Position.State.{Position, all_of, colored, square, can_castle, castling_impeded}
use stockfish.Position.Attackers.{threats_by}
use stockfish.MoveGen.{GenType, is_captures, is_quiets, is_evasions}
use stockfish.MoveGen.Pawns.{generate_pawn_moves, splat_moves}
use stockfish.MoveGen.Pieces.{CacheMode, Sliders, generate_moves}

-- The value of `pos.threats_by(ALL_PIECES)`.
unfoldable pub threatened : Position → Bitboard
unfolding threats_by
threatened p = (threats_by p.placement p.side_to_move all_pieces p.st).0

-- The target of a list's moves, but for the king's in an evasion.
unfoldable pub target_of : GenType → Position → Color → Bitboard
unfolding square between_bb lsb colored all_of opposite
target_of type p us =
    if is_evasions type
    then between_bb (square p.placement us king) (lsb p.st.checkers_bb)
    else if is_captures type
    then colored p.placement (opposite us)
    else complement (all_of p.placement)

-- The moves of all but the king, skipped in double check.
unfoldable pub officers : GenType → CacheMode → Position → Color → Sliders → List Move × Sliders
unfolding target_of generate_pawn_moves generate_moves more_than_one
officers type mode p us s =
    let target = target_of type p us in
    let (knights, s0) = generate_moves CacheMode.no_cache knight p target us s in
    let (bishops, s1) = generate_moves mode bishop p target us s0 in
    let (rooks, s2) = generate_moves mode rook p target us s1 in
    let (queens, s3) = generate_moves mode queen p target us s2 in
    if is_evasions type && more_than_one p.st.checkers_bb
    then ([], s)
    else (generate_pawn_moves us type p target ++ (knights ++ (bishops ++ (rooks ++ queens))), s3)

unfoldable pub king_moves : GenType → Position → Color → List Move
unfolding target_of colored square threatened splat_moves pseudo_attacks
king_moves type p us =
    let target =
      if is_evasions type then complement (colored p.placement us) else target_of type p us in
    let ksq = square p.placement us king in
    splat_moves ksq (bit_and (pseudo_attacks king ksq) (bit_and target (complement (threatened p))))

unfoldable pub castling_move : Position → Color → CastlingRights → List Move
unfolding square castling_impeded can_castle between_bb threatened has relative_square make
castling_move p us cr =
    let ksq = square p.placement us king in
    let rook_square = p.castling_rook_square cr in
    let to = relative_square us (if ltb ksq rook_square then 6 else 2) in
    if not (castling_impeded p cr)
      && (can_castle p.st cr
          && (bit_and (between_bb ksq to) (threatened p) == 0
              && not (has (p.st.blockers_for_king us) rook_square)))
    then make castling ksq rook_square knight ∷ []
    else []

unfoldable pub castling_moves : GenType → Position → Color → List Move
unfolding can_castle rights_of castling_move
castling_moves type p us =
    if is_quiets type && can_castle p.st (rights_of us any_castling)
    then castling_move p us (rights_of us king_side) ++ castling_move p us (rights_of us queen_side)
    else []

unfoldable pub generate_all :
    GenType → CacheMode → Position → Color → Array Bitboard → List Move × Sliders
unfolding officers king_moves castling_moves
generate_all type mode p us cache =
    let (ms, s) = officers type mode p us (record { att = cache; next = 0 }) in
    (ms ++ (king_moves type p us ++ castling_moves type p us), s)

-- `generate<Type>`.
unfoldable pub generate : GenType → Position → List Move
unfolding generate_all
generate type p = (generate_all type CacheMode.no_cache p p.side_to_move (λ i. 0)).0

-- `generate_cached<Type, CM>`: the moves, and the cache after it.
unfoldable pub generate_cached :
    GenType → CacheMode → Position → Array Bitboard → List Move × Array Bitboard
unfolding generate_all
generate_cached type mode p cache =
    let (ms, s) = generate_all type mode p p.side_to_move cache in (ms, s.att)

-- `generate<ALL>`.
unfoldable pub generate_legal : Position → List Move
unfolding generate
generate_legal p =
    if not (p.st.checkers_bb == 0)
    then generate GenType.evasions p
    else generate GenType.captures p ++ generate GenType.quiets p
