-- ===== src/Position/TakingBack.antt =====
-- `unplace` after `place`: the pieces of a move that is taken back stand where they stood.
use stockfish.Base.{ℕ, ◌<◌, ◌≡◌, sym, ap, ◌∙◌, false, ◌==◌, arith, ◌⊎◌}
use stockfish.Base.Arrays.{put, put_at, put_other}
use stockfish.Types.Board.{
  Color, Square, no_piece, pawn, rook, king, opposite, make_piece, pawn_push, step_back,
}
use stockfish.Types.Moves.{Move, from_sq, to_sq, move_type, normal, promotion, en_passant, castling}
use stockfish.Position.Placement.{Placement, put_piece, remove_piece, move_piece, swap_piece}
use stockfish.Position.Placement.Consistency.{IsPiece, IsConsistent}
use stockfish.Position.Placement.Putting.{put_piece-IsConsistent}
use stockfish.Position.Placement.Removing.{remove_piece-IsConsistent}
use stockfish.Position.Placement.Algebra.{
  put_piece-remove_piece, remove_piece-put_piece, move_piece-put_piece, put_piece-put_piece,
}
use stockfish.Position.Castling.{king_to, rook_to}

-- A square is free for a castling if it is empty but for the king and the rook.
abbrev pub ClearFor : Placement → Square → Square → Square → Type 0
ClearFor p from to s = (p.board s ≡ no_piece) ⊎ (s ≡ from) ⊎ (s ≡ to)

-- What the rules of chess make of a move that is to be made, as far as the pieces are concerned. The
-- move is of one of four types; the king that castles captures its own rook, on squares that may
-- overlap.
pub data Fits (m : Move) (us : Color) (p : Placement) : Type 0 where
  quiet :
      (move_type m ≡ normal)
        ⊎ ((move_type m ≡ promotion) × (p.board (from_sq m) ≡ make_piece us pawn))
      → p.board (to_sq m) ≡ no_piece
      → Fits m us p
  capture :
      (move_type m ≡ normal)
        ⊎ ((move_type m ≡ promotion) × (p.board (from_sq m) ≡ make_piece us pawn))
      → IsPiece (p.board (to_sq m))
      → (from_sq m == to_sq m) ≡ false
      → Fits m us p
  passing :
      move_type m ≡ en_passant
      → p.board (to_sq m) ≡ no_piece
      → step_back (to_sq m) (pawn_push us) < 64
      → p.board (step_back (to_sq m) (pawn_push us)) ≡ make_piece (opposite us) pawn
      → (from_sq m == step_back (to_sq m) (pawn_push us)) ≡ false
      → Fits m us p
  castles :
      move_type m ≡ castling
      → p.board (from_sq m) ≡ make_piece us king
      → p.board (to_sq m) ≡ make_piece us rook
      → king_to us (from_sq m) (to_sq m) < 64
      → rook_to us (from_sq m) (to_sq m) < 64
      → (king_to us (from_sq m) (to_sq m) == rook_to us (from_sq m) (to_sq m)) ≡ false
      → ClearFor p (from_sq m) (to_sq m) (king_to us (from_sq m) (to_sq m))
      → ClearFor p (from_sq m) (to_sq m) (rook_to us (from_sq m) (to_sq m))
      → Fits m us p

-- A piece moved from where it was put, to another square, is put there.
pub moved_back :
    (r : Placement) (pc from to : ℕ)
    → IsConsistent r
    → from < 64
    → to < 64
    → IsPiece pc
    → r.board from ≡ no_piece
    → r.board to ≡ no_piece
    → (from == to) ≡ false
    → move_piece to from (put_piece pc to r) ≡ put_piece pc from r
unfolding put_piece put
moved_back r pc from to c h k v e f apart =
    let here : (put_piece pc to r).board to ≡ pc = put_at r.board to pc in
    move_piece-put_piece (put_piece pc to r) to from (put_piece-IsConsistent r pc to c v k f) k h
      (rw here v) (rw apart e)
    ∙ ap (λ x. put_piece x from (remove_piece to (put_piece pc to r))) here
    ∙ ap (put_piece pc from) (remove_piece-put_piece r to c k pc v f)

-- A promoted piece becomes the pawn again.
pub swapped_back :
    (r : Placement) (pc promoted to : ℕ)
    → IsConsistent r
    → to < 64
    → IsPiece promoted
    → r.board to ≡ no_piece
    → swap_piece to pc (put_piece promoted to r) ≡ put_piece pc to r
unfolding swap_piece
swapped_back r pc promoted to c k v e =
    ap (put_piece pc to) (remove_piece-put_piece r to c k promoted v e)

module _ (p : Placement) (from to : ℕ) (c : IsConsistent p) (h : from < 64) (k : to < 64)
    (v : IsPiece (p.board from)) (apart : (from == to) ≡ false) where
  -- With the piece off its square, the target is as it was.
  pub target_after_removal : (remove_piece from p).board to ≡ p.board to
  unfolding remove_piece
  target_after_removal = put_other p.board from to no_piece (ground (arith, apart))

  -- Both pieces of a capture, put back.
  pub capture_restored :
      IsPiece (p.board to)
      → put_piece
          (p.board to)
          to
          (put_piece (p.board from) from (remove_piece to (remove_piece from p)))
        ≡ p
  unfolding remove_piece
  capture_restored w =
      let r = remove_piece from p in
      let cr = remove_piece-IsConsistent p from c h v in
      let w' : IsPiece (r.board to) = rw target_after_removal w in
      let gone = remove_piece to r in
      let apart' : (to == from) ≡ false = ground (arith, apart) in
      let from_empty : gone.board from ≡ no_piece =
        put_other r.board to from no_piece apart ∙ put_at p.board from no_piece in
      put_piece-put_piece gone (p.board to) (p.board from) to from
        (remove_piece-IsConsistent r to cr k w') k h w v apart' (put_at r.board to no_piece)
        from_empty
      ∙ ap (put_piece (p.board from) from) (
          ap (λ x. put_piece x to gone) (sym target_after_removal)
          ∙ put_piece-remove_piece r to cr k w')
      ∙ put_piece-remove_piece p from c h v
