-- ===== src/Position/Tests.antt =====
-- Instances at small positions.
use stockfish.Base.{ℕ, ◌+◌, ◌*◌, ◌≡◌, refl, true, false, arith, inl, inr, []}
use stockfish.Base.Arrays.{put, count_below}
use stockfish.Base.Bits.{test_bit-zero}
use stockfish.Base.Int.{pos}
use stockfish.Types.Board.{Piece, no_piece, make_piece, type_of, color_of}
use stockfish.Base.{◌&&◌, ◌||◌, ◌==◌}
use stockfish.Types.Board.{queen}
use stockfish.Position.MoveTests.{capture, capture_stage}
use stockfish.Position.MoveTests.Stages.{capture_stage-capture}
use stockfish.Types.Moves.{promotion, promotion_type, Move, from_sq, to_sq, move_type}
use stockfish.Position.Placement.{Placement, put_piece, remove_piece, move_piece}
use stockfish.Position.Placement.Consistency.{IsPiece, IsConsistent, of_type, of_color, counted}
use stockfish.Position.Placement.Putting.{put_piece-IsConsistent}
use stockfish.Position.Placement.Removing.{remove_piece-IsConsistent}
use stockfish.Position.Placement.Moving.{move_piece-IsConsistent}
use stockfish.Position.Placement.Algebra.{
  eq_of_board, move_piece-put_piece, put_piece-remove_piece, remove_piece-put_piece,
}
use stockfish.Position.Castling.{king_to, rook_to}
use stockfish.Position.State.{Zobrist, StateInfo, Position}
use stockfish.Position.Play.{do_move, undo_move, do_null_move, undo_null_move}
use stockfish.Position.TakingBack.{Fits}
use stockfish.Position.Keeping.{do_move-IsConsistent}
use stockfish.Position.Keys.FullKey.{full_key}
use stockfish.Position.Keying.Kinds.{IsKeyed}
use stockfish.Position.Keying.Specials.{do_move-key}
use stockfish.Position.Undoing.{IsDoable, undo_move-do_move, undo_null_move-do_null_move}

abbrev bare : Placement
bare = record {
  board = λ s. no_piece;
  by_type_bb = λ t. 0;
  by_color_bb = λ c. 0;
  piece_count = λ i. pos 0;
}

bare-IsConsistent : IsConsistent bare
unfolding of_type of_color counted count_below
bare-IsConsistent = record {
  on_board = λ s h. refl;
  pieces = λ s. inl refl;
  types = λ t s. test_bit-zero s;
  colors = λ c s. test_bit-zero s;
  counts = λ i. refl;
}

abbrev white_king : Piece
white_king = 6

abbrev white_rook : Piece
white_rook = 4

white_king-IsPiece : IsPiece white_king
unfolding type_of color_of make_piece
white_king-IsPiece = record {
  typed = refl;
  type_le = omega arith;
  color_le = omega arith;
  made = refl;
}

white_rook-IsPiece : IsPiece white_rook
unfolding type_of color_of make_piece
white_rook-IsPiece = record {
  typed = refl;
  type_le = omega arith;
  color_le = omega arith;
  made = refl;
}

-- A king on F1.
abbrev one_king : Placement
one_king = put_piece white_king 5 bare

one_king-IsConsistent : IsConsistent one_king
one_king-IsConsistent =
    put_piece-IsConsistent bare white_king 5 bare-IsConsistent white_king-IsPiece (omega arith) refl

-- A king on F1 and a rook on G1, which change places when they castle.
abbrev neighbours : Placement
neighbours = put_piece white_rook 6 one_king

one_king_free : one_king.board 6 ≡ no_piece
unfolding put_piece put
one_king_free = refl

neighbours-IsConsistent : IsConsistent neighbours
neighbours-IsConsistent =
    put_piece-IsConsistent one_king white_rook 6 one_king-IsConsistent white_rook-IsPiece
      (omega arith) one_king_free

neighbours_king : neighbours.board 5 ≡ white_king
unfolding put_piece put
neighbours_king = refl

neighbours_rook : neighbours.board 6 ≡ white_rook
unfolding put_piece put
neighbours_rook = refl

neighbours_free : neighbours.board 20 ≡ no_piece
unfolding put_piece put
neighbours_free = refl

rook_there-IsPiece : IsPiece (neighbours.board 6)
rook_there-IsPiece = rw neighbours_rook white_rook-IsPiece

put_piece-IsConsistent_example : IsConsistent (put_piece 6 5 bare)
put_piece-IsConsistent_example =
    put_piece-IsConsistent bare 6 5 bare-IsConsistent white_king-IsPiece (omega arith) refl

remove_piece-IsConsistent_example : IsConsistent (remove_piece 6 neighbours)
remove_piece-IsConsistent_example =
    remove_piece-IsConsistent neighbours 6 neighbours-IsConsistent (omega arith) rook_there-IsPiece

move_piece-IsConsistent_example : IsConsistent (move_piece 6 20 neighbours)
move_piece-IsConsistent_example =
    move_piece-IsConsistent neighbours 6 20 neighbours-IsConsistent (omega arith) (omega arith)
      rook_there-IsPiece neighbours_free

move_piece-put_piece_example :
    move_piece 6 20 neighbours ≡ put_piece (neighbours.board 6) 20 (remove_piece 6 neighbours)
move_piece-put_piece_example =
    move_piece-put_piece neighbours 6 20 neighbours-IsConsistent (omega arith) (omega arith)
      rook_there-IsPiece neighbours_free

put_piece-remove_piece_example :
    put_piece (neighbours.board 6) 6 (remove_piece 6 neighbours) ≡ neighbours
put_piece-remove_piece_example =
    put_piece-remove_piece neighbours 6 neighbours-IsConsistent (omega arith) rook_there-IsPiece

remove_piece-put_piece_example : remove_piece 20 (put_piece 4 20 neighbours) ≡ neighbours
remove_piece-put_piece_example =
    remove_piece-put_piece neighbours 20 neighbours-IsConsistent (omega arith) 4 white_rook-IsPiece
      neighbours_free

rook_off_and_on : (s : ℕ) → (put_piece 4 6 one_king).board s ≡ neighbours.board s
rook_off_and_on s = refl

eq_of_board_example : put_piece 4 6 one_king ≡ neighbours
eq_of_board_example =
    eq_of_board (put_piece 4 6 one_king) neighbours neighbours-IsConsistent neighbours-IsConsistent
      rook_off_and_on

abbrev no_keys : Zobrist
no_keys = record {
  psq = λ pc s. pc * 64 + s;
  enpassant = λ f. 1000 + f;
  castling = λ cr. 2000 + cr;
  side = 3000;
  no_pawns = 4000;
}

abbrev blank : StateInfo
blank = record {
  material_key = 0;
  pawn_key = 0;
  minor_piece_key = 0;
  non_pawn_key = λ c. 0;
  non_pawn_material = λ c. pos 0;
  rule50 = 0;
  plies_from_null = 0;
  castling_rights = 1;
  ep_square = 64;
  key = 0;
  checkers_bb = 0;
  blockers_for_king = λ c. 0;
  pinners = λ c. 0;
  check_squares = λ pt. 0;
  threats = λ pt. 0;
  captured_piece = 0;
  repetition = pos 0;
}

abbrev to_castle : Position
to_castle = record {
  placement = neighbours;
  castling_rights_mask = λ s. 1;
  castling_rook_square = λ cr. 6;
  castling_path = λ cr. 0;
  st = blank;
  previous = [];
  game_ply = pos 0;
  side_to_move = 0;
  chess960 = true;
}

-- The king on F1 castles with the rook on G1.
abbrev short_castling : Move
short_castling = 49152 + 5 * 64 + 6

short_castling-IsDoable : IsDoable short_castling to_castle
unfolding from_sq to_sq move_type king_to rook_to make_piece
short_castling-IsDoable = record {
  consistent = neighbours-IsConsistent;
  side = omega arith;
  moves_piece = rw neighbours_king white_king-IsPiece;
  fits =
      Fits.castles refl neighbours_king neighbours_rook (omega arith) (omega arith) refl
        (inr (inr refl)) (inr (inl refl));
}

undo_move-do_move_example :
    undo_move short_castling (do_move no_keys short_castling blank false to_castle) ≡ to_castle
undo_move-do_move_example =
    undo_move-do_move no_keys short_castling blank false to_castle short_castling-IsDoable

undo_null_move-do_null_move_example : undo_null_move (do_null_move no_keys to_castle) ≡ to_castle
undo_null_move-do_null_move_example = undo_null_move-do_null_move no_keys to_castle (omega arith)

do_move-IsConsistent_example :
    IsConsistent (do_move no_keys short_castling blank false to_castle).placement
do_move-IsConsistent_example =
    do_move-IsConsistent no_keys short_castling blank false to_castle short_castling-IsDoable

-- The same position, with its key.
abbrev keyed_to_castle : Position
keyed_to_castle = record to_castle { st = record blank { key = full_key no_keys to_castle } }

keyed-IsDoable : IsDoable short_castling keyed_to_castle
keyed-IsDoable = record {
  consistent = neighbours-IsConsistent;
  side = omega arith;
  moves_piece = short_castling-IsDoable.moves_piece;
  fits = short_castling-IsDoable.fits;
}

short_castling-IsKeyed : IsKeyed no_keys short_castling keyed_to_castle
unfolding full_key from_sq to_sq move_type type_of put_piece put
short_castling-IsKeyed = record {
  keyed = refl;
  steps_on_board = λ e. absurd (ground (arith, e));
  promotes = λ e. absurd (omega (arith, e));
}

do_move-key_example :
    (do_move no_keys short_castling blank false keyed_to_castle).st.key
    ≡ full_key no_keys (do_move no_keys short_castling blank false keyed_to_castle)
do_move-key_example =
    do_move-key no_keys short_castling blank false keyed_to_castle keyed-IsDoable
      short_castling-IsKeyed

-- A pawn goes from H7 to H8 and becomes a queen.
abbrev queening : Move
queening = 16384 + 3 * 4096 + 55 * 64 + 63

capture_stage-capture_example : capture_stage to_castle queening ≡ (
    capture to_castle queening
    || (move_type queening == promotion && promotion_type queening == queen))
capture_stage-capture_example = capture_stage-capture to_castle queening
