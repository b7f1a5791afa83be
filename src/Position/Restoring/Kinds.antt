-- ===== src/Position/Restoring/Kinds.antt =====
-- Each kind of move but the castling, made by `do_move` and taken back.
use stockfish.Base.{◌<◌, ◌≡◌, refl, sym, ap, ◌∙◌, Bool, true, false, ◌==◌, arith}
use stockfish.Base.Arrays.{put_at, put_other}
use stockfish.Types.Board.{no_piece, pawn, opposite, make_piece, pawn_push, step_back, type_of}
use stockfish.Types.Board.Symmetry.{make_piece_fields}
use stockfish.Types.Moves.{
  Move, from_sq, to_sq, move_type, promotion_type, normal, promotion, en_passant,
}
use stockfish.Position.Placement.{put_piece, remove_piece, move_piece, swap_piece}
use stockfish.Position.Placement.Consistency.{IsPiece, IsConsistent, not_none}
use stockfish.Position.Placement.Removing.{remove_piece-IsConsistent}
use stockfish.Position.Placement.Algebra.{differs_at, put_piece-remove_piece, move_piece-put_piece}
use stockfish.Position.TakingBack.{swapped_back, target_after_removal}
use stockfish.Position.State.{Zobrist, StateInfo, Position}
use stockfish.Position.Making.{capture_square}
use stockfish.Position.Play.{captured_by, place_moved, do_move, unplace}
use stockfish.Position.Placing.{do_move-quiet, do_move-taking}
use stockfish.Position.Restoring.{
  opposite-lt, and_false, make_piece-IsPiece, promoted-IsPiece, pawn-promoted, quiet_restored,
  taking_restored, both_removed-IsConsistent,
}

module _ (z : Zobrist) (m : Move) (new_st : StateInfo) (gives_check : Bool) (p : Position)
    (c : IsConsistent p.placement) (side : p.side_to_move < 2) (h : from_sq m < 64)
    (k : to_sq m < 64) (v : IsPiece (p.placement.board (from_sq m))) where
  pub normal_quiet_back :
      move_type m ≡ normal
      → p.placement.board (to_sq m) ≡ no_piece
      → unplace m p.side_to_move no_piece (do_move z m new_st gives_check p).placement ≡ p.placement
  unfolding place_moved unplace captured_by
  normal_quiet_back t e =
      let same : (p.placement.board (from_sq m) == p.placement.board (from_sq m)) ≡ true =
        ground arith in
      rw (do_move-quiet z m new_st gives_check p (rw t refl) (rw t e)) (
        rw (t, same)
          (ap (move_piece (to_sq m) (from_sq m))
              (move_piece-put_piece p.placement (from_sq m) (to_sq m) c h k v e)
            ∙ quiet_restored p.placement (from_sq m) (to_sq m) 0 c h k v e))

  pub promotion_quiet_back :
      move_type m ≡ promotion
      → p.placement.board (from_sq m) ≡ make_piece p.side_to_move pawn
      → p.placement.board (to_sq m) ≡ no_piece
      → unplace m p.side_to_move no_piece (do_move z m new_st gives_check p).placement ≡ p.placement
  unfolding place_moved unplace captured_by
  promotion_quiet_back t o e =
      let us = p.side_to_move in
      let from = from_sq m in
      let to = to_sq m in
      let r = remove_piece from p.placement in
      let promoted = make_piece us (promotion_type m) in
      let other : (p.placement.board from == promoted) ≡ false = rw o (pawn-promoted us m side) in
      let apart : (from == to) ≡ false = ground (arith, differs_at p.placement.board to from e v) in
      rw (do_move-quiet z m new_st gives_check p (rw t refl) (rw t e)) (
        rw (t, other)
          (ap (move_piece to from) (
              swapped_back r (make_piece us pawn) promoted to
                (remove_piece-IsConsistent p.placement from c h v) k (promoted-IsPiece us m side)
                (target_after_removal p.placement from to c h k v apart ∙ e)
              ∙ ap (λ x. put_piece x to r) (sym o))
            ∙ quiet_restored p.placement from to 0 c h k v e))

  pub normal_capture_back :
      move_type m ≡ normal
      → IsPiece (p.placement.board (to_sq m))
      → (from_sq m == to_sq m) ≡ false
      → unplace m p.side_to_move
          (p.placement.board (to_sq m))
          (do_move z m new_st gives_check p).placement
        ≡ p.placement
  unfolding place_moved unplace captured_by swap_piece
  normal_capture_back t w apart =
      let from = from_sq m in
      let to = to_sq m in
      let taken = p.placement.board to in
      let some_piece = not_none taken w in
      rw (do_move-taking z m new_st gives_check p (rw t refl) (rw t some_piece)) (
        rw (t, and_false (type_of taken == pawn), some_piece)
          (taking_restored p.placement from to 0 c h k v w apart))

  pub promotion_capture_back :
      move_type m ≡ promotion
      → p.placement.board (from_sq m) ≡ make_piece p.side_to_move pawn
      → IsPiece (p.placement.board (to_sq m))
      → (from_sq m == to_sq m) ≡ false
      → unplace m p.side_to_move
          (p.placement.board (to_sq m))
          (do_move z m new_st gives_check p).placement
        ≡ p.placement
  unfolding place_moved unplace captured_by swap_piece remove_piece
  promotion_capture_back t o w apart =
      let us = p.side_to_move in
      let from = from_sq m in
      let to = to_sq m in
      let taken = p.placement.board to in
      let some_piece = not_none taken w in
      let r = remove_piece to (remove_piece from p.placement) in
      let promoted = make_piece us (promotion_type m) in
      rw (do_move-taking z m new_st gives_check p (rw t refl) (rw t some_piece)) (
        rw (t, and_false (type_of taken == pawn), some_piece)
          (ap (λ x. put_piece taken to (move_piece to from x))
              (swapped_back r (make_piece us pawn) promoted to
                  (both_removed-IsConsistent p.placement from to 0 c h k v w apart) k
                  (promoted-IsPiece us m side)
                  (put_at (remove_piece from p.placement).board to no_piece)
                ∙ ap (λ x. put_piece x to r) (sym o))
            ∙ taking_restored p.placement from to 0 c h k v w apart))

  pub passing_back :
      move_type m ≡ en_passant
      → p.placement.board (to_sq m) ≡ no_piece
      → step_back (to_sq m) (pawn_push p.side_to_move) < 64
      → p.placement.board (step_back (to_sq m) (pawn_push p.side_to_move))
        ≡ make_piece (opposite p.side_to_move) pawn
      → (from_sq m == step_back (to_sq m) (pawn_push p.side_to_move)) ≡ false
      → unplace m p.side_to_move
          (make_piece (opposite p.side_to_move) pawn)
          (do_move z m new_st gives_check p).placement
        ≡ p.placement
  unfolding place_moved unplace captured_by remove_piece capture_square
  passing_back t e b o apart =
      let us = p.side_to_move in
      let from = from_sq m in
      let to = to_sq m in
      let capsq = step_back to (pawn_push us) in
      let victim = make_piece (opposite us) pawn in
      let side' : opposite us < 2 = opposite-lt us side in
      let w : IsPiece victim =
        make_piece-IsPiece (opposite us) pawn side' (omega arith) (omega arith) in
      let some_piece = not_none victim w in
      let typed : (type_of victim == pawn) ≡ true =
        let fields = make_piece_fields (opposite us) pawn side' (omega arith) in rw fields.0 refl in
      let w' : IsPiece (p.placement.board capsq) = rw o w in
      let r = remove_piece capsq p.placement in
      let cr = remove_piece-IsConsistent p.placement capsq c b w' in
      let from_kept : r.board from ≡ p.placement.board from =
        put_other p.placement.board capsq from no_piece apart in
      let to_apart : (to == capsq) ≡ false = differs_at p.placement.board to capsq e w' in
      let to_empty : r.board to ≡ no_piece =
        put_other p.placement.board capsq to no_piece to_apart ∙ e in
      let same : (p.placement.board from == p.placement.board from) ≡ true = ground arith in
      let v' : IsPiece (r.board from) = rw from_kept v in
      rw (do_move-taking z m new_st gives_check p (rw t refl) (rw t some_piece)) (
        rw (t, typed, some_piece, same)
          (ap (put_piece victim capsq) (
              ap (move_piece to from) (move_piece-put_piece r from to cr h k v' to_empty)
              ∙ quiet_restored r from to 0 cr h k v' to_empty)
            ∙ ap (λ x. put_piece x capsq r) (sym o)
            ∙ put_piece-remove_piece p.placement capsq c b w'))
