-- ===== src/Position/Placing/Kinds.antt =====
-- The pieces after `do_move`, and their agreement, for each kind of move.
use stockfish.Base.{◌<◌, ◌≡◌, refl, ◌∙◌, Bool, true, false, ◌==◌, arith}
use stockfish.Types.Board.{no_piece, pawn, opposite, make_piece, pawn_push, step_back, type_of}
use stockfish.Types.Board.Symmetry.{make_piece_fields}
use stockfish.Types.Moves.{
  Move, from_sq, to_sq, move_type, promotion_type, normal, promotion, en_passant,
}
use stockfish.Position.Placement.{put_piece, remove_piece, move_piece, swap_piece}
use stockfish.Position.Placement.Consistency.{IsPiece, not_none}
use stockfish.Position.State.{Zobrist, StateInfo, Position}
use stockfish.Position.Making.{capture_square}
use stockfish.Position.Play.{captured_by, place_moved, do_move}
use stockfish.Position.Placing.{do_move-quiet, do_move-taking}
use stockfish.Position.Restoring.{make_piece-IsPiece, pawn-promoted, opposite-lt, and_false}

module _ (z : Zobrist) (m : Move) (new_st : StateInfo) (gives_check : Bool) (p : Position) where
  pub placed_quiet :
      move_type m ≡ normal
      → p.placement.board (to_sq m) ≡ no_piece
      → (do_move z m new_st gives_check p).placement ≡ move_piece (from_sq m) (to_sq m) p.placement
  unfolding place_moved captured_by
  placed_quiet t e =
      let same : (p.placement.board (from_sq m) == p.placement.board (from_sq m)) ≡ true =
        ground arith in
      do_move-quiet z m new_st gives_check p (rw t refl) (rw t e) ∙ rw (t, same) refl

  pub placed_promotion :
      p.side_to_move < 2
      → move_type m ≡ promotion
      → p.placement.board (from_sq m) ≡ make_piece p.side_to_move pawn
      → p.placement.board (to_sq m) ≡ no_piece
      → (do_move z m new_st gives_check p).placement
        ≡ put_piece
            (make_piece p.side_to_move (promotion_type m))
            (to_sq m)
            (remove_piece (from_sq m) p.placement)
  unfolding place_moved captured_by
  placed_promotion side t o e =
      let us = p.side_to_move in
      let other : (p.placement.board (from_sq m) == make_piece us (promotion_type m)) ≡ false =
        rw o (pawn-promoted us m side) in
      do_move-quiet z m new_st gives_check p (rw t refl) (rw t e) ∙ rw (t, other) refl

  pub placed_capture :
      move_type m ≡ normal
      → IsPiece (p.placement.board (to_sq m))
      → (do_move z m new_st gives_check p).placement
        ≡ put_piece
            (p.placement.board (from_sq m))
            (to_sq m)
            (remove_piece (to_sq m) (remove_piece (from_sq m) p.placement))
  unfolding place_moved captured_by swap_piece
  placed_capture t w =
      let taken = p.placement.board (to_sq m) in
      let some_piece = not_none taken w in
      do_move-taking z m new_st gives_check p (rw t refl) (rw t some_piece)
      ∙ rw (t, and_false (type_of taken == pawn), some_piece) refl

  pub placed_promotion_capture :
      move_type m ≡ promotion
      → IsPiece (p.placement.board (to_sq m))
      → (do_move z m new_st gives_check p).placement
        ≡ put_piece
            (make_piece p.side_to_move (promotion_type m))
            (to_sq m)
            (remove_piece (to_sq m) (remove_piece (from_sq m) p.placement))
  unfolding place_moved captured_by swap_piece
  placed_promotion_capture t w =
      let taken = p.placement.board (to_sq m) in
      let some_piece = not_none taken w in
      do_move-taking z m new_st gives_check p (rw t refl) (rw t some_piece)
      ∙ rw (t, and_false (type_of taken == pawn), some_piece) refl

  pub placed_passing :
      p.side_to_move < 2
      → move_type m ≡ en_passant
      → (do_move z m new_st gives_check p).placement
        ≡ move_piece
            (from_sq m)
            (to_sq m)
            (remove_piece (step_back (to_sq m) (pawn_push p.side_to_move)) p.placement)
  unfolding place_moved captured_by capture_square
  placed_passing side t =
      let us = p.side_to_move in
      let victim = make_piece (opposite us) pawn in
      let side' : opposite us < 2 = opposite-lt us side in
      let some_piece =
        not_none victim (make_piece-IsPiece (opposite us) pawn side' (omega arith) (omega arith)) in
      let typed : (type_of victim == pawn) ≡ true =
        let fields = make_piece_fields (opposite us) pawn side' (omega arith) in rw fields.0 refl in
      let same : (p.placement.board (from_sq m) == p.placement.board (from_sq m)) ≡ true =
        ground arith in
      do_move-taking z m new_st gives_check p (rw t refl) (rw t some_piece)
      ∙ rw (t, typed, some_piece, same) refl
