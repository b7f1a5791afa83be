-- ===== src/MovePicker/Scoring.antt =====
-- src/engine/movepick.cpp: `score`, the values that order a list, from the history statistics.
use stockfish.Base.{ℕ, ◌+◌, ◌^◌, bit_or, ◌&&◌, ◌||◌, ◌==◌, ltb, if◌then◌else◌, List, map, to_ℕ}
use stockfish.Base.Int.{ℤ, pos, negsuc, div_ℕ, ◌+ℤ◌, ◌-ℤ◌, ◌*ℤ◌}
use stockfish.Types.Board.{
  Color, Piece, PieceType, Square, pawn, knight, bishop, rook, queen, type_of, piece_value,
}
use stockfish.Types.Moves.{Move, from_sq, to_sq}
use stockfish.Bitboard.{Bitboard}
use stockfish.Position.State.{Position, Key}
use stockfish.Position.Attackers.{threats_by}
use stockfish.Position.MoveTests.{capture_stage, bit_at}
use stockfish.Position.Exchange.{see_ge}
use stockfish.MoveGen.{ExtMove}

-- The tables that the picker is given: `mainHistory`, `lowPlyHistory`, `captureHistory`, the planes
-- of `continuationHistory`, and the pawn history's row for a pawn key.
pub record Histories : Type 0 where
  pub main : Color → Move → ℤ
  pub low_ply : ℕ → Move → ℤ
  pub capture : Piece → Square → PieceType → ℤ
  pub continuation : ℕ → Piece → Square → ℤ
  pub pawn_entry : Key → Piece → Square → ℤ

abbrev pub low_ply_history_size : ℕ
low_ply_history_size = 5

unfoldable pub score_capture : Histories → Position → Move → ExtMove
unfolding type_of piece_value ◌+ℤ◌ ◌*ℤ◌
score_capture h p m =
    let to = to_sq m in
    let pc = p.placement.board (from_sq m) in
    let captured = p.placement.board to in
    record { move = m; value = h.capture pc to (type_of captured) +ℤ pos 7 *ℤ piece_value captured }

-- `pos.threats_by(pt)`.
unfoldable pub threats_of : Position → PieceType → Bitboard
unfolding threats_by
threats_of p pt = (threats_by p.placement p.side_to_move pt p.st).0

unfoldable pub threat_by_lesser : Position → PieceType → Bitboard
unfolding threats_of
threat_by_lesser p pt =
    let by_pawn = threats_of p pawn in
    let by_minor = bit_or (bit_or (threats_of p knight) (threats_of p bishop)) by_pawn in
    if pt == knight || pt == bishop
    then by_pawn
    else if pt == rook
    then by_minor
    else if pt == queen
    then bit_or (threats_of p rook) by_minor
    else 0

unfoldable pub quiet_histories : Histories → Position → Move → ℤ
unfolding ◌+ℤ◌ ◌*ℤ◌
quiet_histories h p m =
    let to = to_sq m in
    let pc = p.placement.board (from_sq m) in
    pos 2 *ℤ h.main p.side_to_move m
    +ℤ pos 2 *ℤ h.pawn_entry p.st.pawn_key pc to
    +ℤ h.continuation 0 pc to
    +ℤ h.continuation 1 pc to
    +ℤ h.continuation 2 pc to
    +ℤ h.continuation 3 pc to
    +ℤ h.continuation 5 pc to

-- The first pass over a list of quiet moves.
unfoldable pub score_quiet : Histories → Position → Move → ExtMove
unfolding type_of piece_value threat_by_lesser quiet_histories ◌+ℤ◌ ◌-ℤ◌ ◌*ℤ◌ bit_at see_ge
score_quiet h p m =
    let from = from_sq m in
    let to = to_sq m in
    let pt = type_of (p.placement.board from) in
    let value = quiet_histories h p m in
    let checked =
      if bit_at (p.st.check_squares pt) to && see_ge p m (negsuc 74)
      then value +ℤ pos 16384
      else value in
    let threat = threat_by_lesser p pt in
    let v = pos 20 *ℤ (pos (to_ℕ (bit_at threat from)) -ℤ pos (to_ℕ (bit_at threat to))) in
    record { move = m; value = checked +ℤ piece_value pt *ℤ v }

-- The second pass, at a low ply.
unfoldable pub add_low_ply : Histories → ℕ → ExtMove → ExtMove
unfolding ◌+ℤ◌ ◌*ℤ◌
add_low_ply h ply x =
    if ltb ply low_ply_history_size
    then record x { value = x.value +ℤ div_ℕ (pos 8 *ℤ h.low_ply ply x.move) (1 + ply) }
    else x

unfoldable pub score_evasion : Histories → Position → Move → ExtMove
unfolding piece_value ◌+ℤ◌ capture_stage
score_evasion h p m =
    let to = to_sq m in
    let pc = p.placement.board (from_sq m) in
    if capture_stage p m
    then record { move = m; value = piece_value (p.placement.board to) +ℤ pos (2 ^ 28) }
    else record { move = m; value = h.main p.side_to_move m +ℤ h.continuation 0 pc to }

unfoldable pub score_captures : Histories → Position → List Move → List ExtMove
unfolding score_capture
score_captures h p ms = map (score_capture h p) ms

unfoldable pub score_quiets : Histories → ℕ → Position → List Move → List ExtMove
unfolding score_quiet add_low_ply
score_quiets h ply p ms = map (add_low_ply h ply) (map (score_quiet h p) ms)

unfoldable pub score_evasions : Histories → Position → List Move → List ExtMove
unfolding score_evasion
score_evasions h p ms = map (score_evasion h p) ms
