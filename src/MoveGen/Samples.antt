-- ===== src/MoveGen/Samples.antt =====
-- Positions of chess, for the instances of theorems about src/engine/movegen.cpp and movepick.cpp.
use stockfish.Base.{ℕ, ◌+◌, ◌*◌, ◌==◌, if◌then◌else◌, false, List, [], ◌∷◌}
use stockfish.Base.Int.{pos}
use stockfish.Types.Board.{Piece, Square}
use stockfish.Position.Placement.{Placement, put_piece}
use stockfish.Position.Keys.{set_state}
use stockfish.Position.State.{Zobrist, StateInfo, Position}

abbrev empty_board : Placement
empty_board = record {
  board = λ s. 0;
  by_type_bb = λ t. 0;
  by_color_bb = λ c. 0;
  piece_count = λ i. pos 0;
}

-- The pieces of a list, from A1 on, rank by rank.
abbrev put_all : List Piece → Square → Placement → Placement
put_all [] s p = p
put_all (pc ∷ pcs) s p = put_all pcs (s + 1) (if pc == 0 then p else put_piece pc s p)

abbrev some_keys : Zobrist
some_keys = record {
  psq = λ pc s. pc * 64 + s;
  enpassant = λ f. 1000 + f;
  castling = λ cr. 2000 + cr;
  side = 3000;
  no_pawns = 4000;
}

abbrev pub no_state : ℕ → StateInfo
no_state rights = record {
  material_key = 0;
  pawn_key = 0;
  minor_piece_key = 0;
  non_pawn_key = λ c. 0;
  non_pawn_material = λ c. pos 0;
  rule50 = 0;
  plies_from_null = 0;
  castling_rights = rights;
  ep_square = 64;
  key = 0;
  checkers_bb = 0;
  blockers_for_king = λ c. 0;
  pinners = λ c. 0;
  check_squares = λ pt. 0;
  threats = λ pt. 0;
  captured_piece = 0;
  repetition = pos 0;
}

-- White to move, with the rights to castle.
abbrev white_to_move : List Piece → ℕ → Position
white_to_move pcs rights = record {
  placement = put_all pcs 0 empty_board;
  castling_rights_mask = λ s. 0;
  castling_rook_square = λ cr. if cr == 1 then 7 else 0;
  castling_path = λ cr. if cr == 1 then 0x60 else 0x0E;
  st = set_state some_keys (put_all pcs 0 empty_board) 0 (no_state rights);
  previous = [];
  game_ply = pos 0;
  side_to_move = 0;
  chess960 = false;
}

abbrev start_board : List Piece
start_board =
    4 ∷ 2 ∷ 3 ∷ 5 ∷ 6 ∷ 3 ∷ 2 ∷ 4 ∷ 1 ∷ 1 ∷ 1 ∷ 1 ∷ 1 ∷ 1 ∷ 1 ∷ 1 ∷ 0 ∷ 0 ∷ 0 ∷ 0 ∷ 0 ∷ 0 ∷ 0 ∷ 0
    ∷ 0 ∷ 0 ∷ 0 ∷ 0 ∷ 0 ∷ 0 ∷ 0 ∷ 0 ∷ 0 ∷ 0 ∷ 0 ∷ 0 ∷ 0 ∷ 0 ∷ 0 ∷ 0 ∷ 0 ∷ 0 ∷ 0 ∷ 0 ∷ 0 ∷ 0 ∷ 0 ∷ 0
    ∷ 9 ∷ 9 ∷ 9 ∷ 9 ∷ 9 ∷ 9 ∷ 9 ∷ 9 ∷ 12 ∷ 10 ∷ 11 ∷ 13 ∷ 14 ∷ 11 ∷ 10 ∷ 12 ∷ []

-- The position that a game begins with.
abbrev pub start : Position
start = white_to_move start_board 15

abbrev busy_board : List Piece
busy_board =
    4 ∷ 0 ∷ 0 ∷ 0 ∷ 6 ∷ 0 ∷ 0 ∷ 4 ∷ 1 ∷ 1 ∷ 1 ∷ 3 ∷ 3 ∷ 1 ∷ 1 ∷ 1 ∷ 0 ∷ 0 ∷ 2 ∷ 0 ∷ 0 ∷ 5 ∷ 0 ∷ 9
    ∷ 0 ∷ 9 ∷ 0 ∷ 0 ∷ 1 ∷ 0 ∷ 0 ∷ 0 ∷ 0 ∷ 0 ∷ 0 ∷ 1 ∷ 2 ∷ 0 ∷ 0 ∷ 0 ∷ 11 ∷ 10 ∷ 0 ∷ 0 ∷ 9 ∷ 10 ∷ 9
    ∷ 0 ∷ 9 ∷ 0 ∷ 9 ∷ 9 ∷ 13 ∷ 9 ∷ 11 ∷ 0 ∷ 12 ∷ 0 ∷ 0 ∷ 0 ∷ 14 ∷ 0 ∷ 0 ∷ 12 ∷ []

-- `r3k2r/p1ppqpb1/bn2pnp1/3PN3/1p2P3/2N2Q1p/PPPBBPPP/R3K2R w KQkq -`, with pins, captures and castling.
abbrev pub busy : Position
busy = white_to_move busy_board 15

abbrev checked_board : List Piece
checked_board =
    4 ∷ 0 ∷ 0 ∷ 5 ∷ 0 ∷ 4 ∷ 6 ∷ 0 ∷ 1 ∷ 9 ∷ 0 ∷ 1 ∷ 0 ∷ 0 ∷ 1 ∷ 1 ∷ 13 ∷ 0 ∷ 0 ∷ 0 ∷ 0 ∷ 2 ∷ 0 ∷ 0
    ∷ 3 ∷ 3 ∷ 1 ∷ 0 ∷ 1 ∷ 0 ∷ 0 ∷ 0 ∷ 10 ∷ 1 ∷ 0 ∷ 0 ∷ 0 ∷ 0 ∷ 0 ∷ 0 ∷ 0 ∷ 11 ∷ 0 ∷ 0 ∷ 0 ∷ 10 ∷ 11
    ∷ 2 ∷ 1 ∷ 9 ∷ 9 ∷ 9 ∷ 0 ∷ 9 ∷ 9 ∷ 9 ∷ 12 ∷ 0 ∷ 0 ∷ 0 ∷ 14 ∷ 0 ∷ 0 ∷ 12 ∷ []

-- `r3k2r/Pppp1ppp/1b3nbN/nP6/BBP1P3/q4N2/Pp1P2PP/R2Q1RK1 w kq -`, where White is in check.
abbrev pub checked : Position
checked = white_to_move checked_board 12
