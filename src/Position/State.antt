-- ===== src/Position/State.antt =====
-- src/engine/position.h: `StateInfo` and the members of `Position`. The chain of `previous` pointers
-- is the list of the earlier states, the newest first. Also the tables of random keys
-- (`Zobrist`), which `Position::init` fills.
use stockfish.Base.{ℕ, ◌-◌, ◌/◌, bit_and, bit_xor, Bool, not, ◌==◌, ltb, if◌then◌else◌, List}
use stockfish.Base.Arrays.{Array}
use stockfish.Base.Int.{ℤ}
use stockfish.Types.Board.{Color, Piece, PieceType, Square, all_pieces}
use stockfish.Types.Castling.{CastlingRights}
use stockfish.Types.Moves.{make_key}
use stockfish.Types.Scores.{Value}
use stockfish.Bitboard.{Bitboard, lsb}
use stockfish.Position.Placement.{Placement}

abbrev pub Key : Type 0
Key = ℕ

pub record Zobrist : Type 0 where
  pub psq : Piece → Square → Key
  pub enpassant : ℕ → Key
  pub castling : CastlingRights → Key
  pub side : Key
  pub no_pawns : Key

pub record StateInfo : Type 0 where
  pub material_key : Key
  pub pawn_key : Key
  pub minor_piece_key : Key
  pub non_pawn_key : Array Key
  pub non_pawn_material : Array Value
  pub rule50 : ℕ
  pub plies_from_null : ℕ
  pub castling_rights : CastlingRights
  pub ep_square : Square
  pub key : Key
  pub checkers_bb : Bitboard
  pub blockers_for_king : Array Bitboard
  pub pinners : Array Bitboard
  pub check_squares : Array Bitboard
  pub threats : Array Bitboard
  pub captured_piece : Piece
  pub repetition : ℤ

pub record Position : Type 0 where
  pub placement : Placement
  pub castling_rights_mask : Array CastlingRights
  pub castling_rook_square : Array Square
  pub castling_path : Array Bitboard
  pub st : StateInfo
  pub previous : List StateInfo
  pub game_ply : ℤ
  pub side_to_move : Color
  pub chess960 : Bool

-- `pieces()`, `pieces(PieceType)`, `pieces(Color)` and `pieces(Color, PieceType)`.
unfoldable pub all_of : Placement → Bitboard
all_of p = p.by_type_bb all_pieces

unfoldable pub of : Placement → PieceType → Bitboard
of p pt = p.by_type_bb pt

unfoldable pub colored : Placement → Color → Bitboard
colored p c = p.by_color_bb c

unfoldable pub colored_of : Placement → Color → PieceType → Bitboard
colored_of p c pt = bit_and (p.by_color_bb c) (p.by_type_bb pt)

-- `square<Pt>(Color)`.
unfoldable pub square : Placement → Color → PieceType → Square
unfolding colored_of lsb
square p c pt = lsb (colored_of p c pt)

unfoldable pub can_castle : StateInfo → CastlingRights → Bool
can_castle st cr = not (bit_and st.castling_rights cr == 0)

unfoldable pub castling_impeded : Position → CastlingRights → Bool
unfolding all_of
castling_impeded p cr = not (bit_and (all_of p.placement) (p.castling_path cr) == 0)

-- `adjust_key50<AfterMove>`, where `after_move` is 0 or 1.
unfoldable pub adjust_key50 : ℕ → StateInfo → Key → Key
unfolding make_key
adjust_key50 after_move st k =
    if ltb st.rule50 (14 - after_move)
    then k
    else bit_xor k (make_key ((st.rule50 - (14 - after_move)) / 8))

-- `Position::key`.
unfoldable pub position_key : Position → Key
unfolding adjust_key50
position_key p = adjust_key50 0 p.st p.st.key
