-- ===== src/Position/Castling.antt =====
-- src/engine/position.cpp: `do_castling`, in both directions.
use stockfish.Base.{ltb, if◌then◌else◌}
use stockfish.Types.Board.{Color, Square, rook, king, make_piece, relative_square}
use stockfish.Position.Placement.{Placement, put_piece, remove_piece}

-- The squares of a castling: where the king and the rook go.
unfoldable pub king_to : Color → Square → Square → Square
unfolding relative_square
king_to us from to = relative_square us (if ltb from to then 6 else 2)

unfoldable pub rook_to : Color → Square → Square → Square
unfolding relative_square
rook_to us from to = relative_square us (if ltb from to then 5 else 3)

-- `do_castling<true>`; the move is encoded as the king capturing its rook.
unfoldable pub castle : Color → Square → Square → Placement → Placement
castle us from rfrom p = put_piece (make_piece us rook) (rook_to us from rfrom) (
    put_piece (make_piece us king) (king_to us from rfrom)
      (remove_piece from (remove_piece rfrom p)))

-- `do_castling<false>`.
unfoldable pub uncastle : Color → Square → Square → Placement → Placement
uncastle us from rfrom p = put_piece (make_piece us rook) rfrom (
    put_piece (make_piece us king) from
      (remove_piece (king_to us from rfrom) (remove_piece (rook_to us from rfrom) p)))
