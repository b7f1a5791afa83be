-- ===== src/Position/Keeping.antt =====
-- `do_move` keeps the squares, the sets and the numbers of pieces in agreement.
use stockfish.Base.{ℕ, ◌<◌, ◌≡◌, ◌∙◌, Bool, false, ◌==◌, arith, inl, inr}
use stockfish.Base.Arrays.{put_at, put_other}
use stockfish.Types.Board.{no_piece, pawn, opposite, make_piece, pawn_push, step_back}
use stockfish.Types.Moves.{Move, from_sq, to_sq, move_type, promotion_type, en_passant}
use stockfish.Position.Placement.{Placement, put_piece, remove_piece}
use stockfish.Position.Placement.Consistency.{IsPiece, IsConsistent}
use stockfish.Position.Placement.Putting.{put_piece-IsConsistent}
use stockfish.Position.Placement.Removing.{remove_piece-IsConsistent}
use stockfish.Position.Placement.Moving.{move_piece-IsConsistent}
use stockfish.Position.Placement.Algebra.{differs_at}
use stockfish.Position.TakingBack.{target_after_removal}
use stockfish.Position.State.{Zobrist, StateInfo, Position}
use stockfish.Position.Play.{do_move}
use stockfish.Position.Restoring.{
  make_piece-IsPiece, promoted-IsPiece, both_removed-IsConsistent, opposite-lt,
}
use stockfish.Position.TakingBack.{Fits}
use stockfish.Position.Placing.{do_move-castling}
use stockfish.Position.Placing.Kinds.{
  placed_quiet, placed_promotion, placed_capture, placed_promotion_capture, placed_passing,
}
use stockfish.Position.Restoring.Castles.{castle-IsConsistent}
use stockfish.Position.Undoing.{IsDoable, from_sq-lt, to_sq-lt}

-- A piece put where a capture removed one.
module _ (p : Placement) (pc from to : ℕ) (c : IsConsistent p) (h : from < 64) (k : to < 64)
    (v : IsPiece (p.board from)) (n : IsPiece pc) where
  put_on_empty : p.board to ≡ no_piece → IsConsistent (put_piece pc to (remove_piece from p))
  unfolding remove_piece
  put_on_empty e =
      let apart : (from == to) ≡ false = ground (arith, differs_at p.board to from e v) in
      put_piece-IsConsistent (remove_piece from p) pc to (remove_piece-IsConsistent p from c h v) n
        k (target_after_removal p from to c h k v apart ∙ e)

  put_on_taken :
      IsPiece (p.board to)
      → (from == to) ≡ false
      → IsConsistent (put_piece pc to (remove_piece to (remove_piece from p)))
  unfolding remove_piece
  put_on_taken w apart =
      put_piece-IsConsistent (remove_piece to (remove_piece from p)) pc to
        (both_removed-IsConsistent p from to 0 c h k v w apart) n k
        (put_at (remove_piece from p).board to no_piece)

module _ (z : Zobrist) (m : Move) (new_st : StateInfo) (gives_check : Bool) (p : Position)
    (d : IsDoable m p) where
  abbrev Kept : Type 0
  Kept = IsConsistent (do_move z m new_st gives_check p).placement

  kept_passing :
      move_type m ≡ en_passant
      → p.placement.board (to_sq m) ≡ no_piece
      → step_back (to_sq m) (pawn_push p.side_to_move) < 64
      → p.placement.board (step_back (to_sq m) (pawn_push p.side_to_move))
        ≡ make_piece (opposite p.side_to_move) pawn
      → (from_sq m == step_back (to_sq m) (pawn_push p.side_to_move)) ≡ false
      → Kept
  unfolding remove_piece
  kept_passing t e b o apart =
      let from = from_sq m in
      let to = to_sq m in
      let capsq = step_back to (pawn_push p.side_to_move) in
      let c = d.consistent in
      let w : IsPiece (p.placement.board capsq) = rw o (
        make_piece-IsPiece (opposite p.side_to_move) pawn (opposite-lt p.side_to_move d.side)
          (omega arith) (omega arith)) in
      let r = remove_piece capsq p.placement in
      let from_kept : r.board from ≡ p.placement.board from =
        put_other p.placement.board capsq from no_piece apart in
      let to_empty : r.board to ≡ no_piece =
        put_other p.placement.board capsq to no_piece (differs_at p.placement.board to capsq e w)
        ∙ e in
      rw (placed_passing z m new_st gives_check p d.side t) (
        move_piece-IsConsistent r from to (remove_piece-IsConsistent p.placement capsq c b w)
          (from_sq-lt m) (to_sq-lt m) (rw from_kept d.moves_piece) to_empty)

  kept_by_kind : Fits m p.side_to_move p.placement → Kept
  kept_by_kind (Fits.quiet (inl t) e) = rw (placed_quiet z m new_st gives_check p t e) (
      move_piece-IsConsistent p.placement (from_sq m) (to_sq m) d.consistent (from_sq-lt m)
        (to_sq-lt m) d.moves_piece e)
  kept_by_kind (Fits.quiet (inr (t, o)) e) =
      rw (placed_promotion z m new_st gives_check p d.side t o e) (
        put_on_empty p.placement (make_piece p.side_to_move (promotion_type m)) (from_sq m)
          (to_sq m) d.consistent (from_sq-lt m) (to_sq-lt m) d.moves_piece
          (promoted-IsPiece p.side_to_move m d.side) e)
  kept_by_kind (Fits.capture (inl t) w apart) = rw (placed_capture z m new_st gives_check p t w) (
      put_on_taken p.placement (p.placement.board (from_sq m)) (from_sq m) (to_sq m) d.consistent
        (from_sq-lt m) (to_sq-lt m) d.moves_piece d.moves_piece w apart)
  kept_by_kind (Fits.capture (inr (t, o)) w apart) =
      rw (placed_promotion_capture z m new_st gives_check p t w) (
        put_on_taken p.placement (make_piece p.side_to_move (promotion_type m)) (from_sq m)
          (to_sq m) d.consistent (from_sq-lt m) (to_sq-lt m) d.moves_piece
          (promoted-IsPiece p.side_to_move m d.side) w apart)
  kept_by_kind (Fits.passing t e b o apart) = kept_passing t e b o apart
  kept_by_kind (Fits.castles t o q kh rh apart kc rc) =
      rw (do_move-castling z m new_st gives_check p t) (
        castle-IsConsistent p.placement p.side_to_move (from_sq m) (to_sq m) d.consistent d.side
          (from_sq-lt m) (to_sq-lt m) o q kh rh apart kc rc)

  -- A move of any kind that fits the position keeps squares, sets and numbers of pieces in agreement,
  -- where a piece stands on the square that the move is from.
  pub do_move-IsConsistent : IsConsistent (do_move z m new_st gives_check p).placement
  do_move-IsConsistent = kept_by_kind d.fits
