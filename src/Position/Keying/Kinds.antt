-- ===== src/Position/Keying/Kinds.antt =====
-- The key after `do_move`, for each kind of move.
use stockfish.Base.{ℕ, ◌<◌, ◌≡◌, refl, sym, ap, ◌∙◌, Bool, true, false, ◌==◌, arith}
use stockfish.Base.Arrays.{put_at}
use stockfish.Types.Board.{no_piece, pawn, make_piece, pawn_push, step_back, type_of}
use stockfish.Types.Moves.{Move, from_sq, to_sq, move_type, promotion_type, normal, promotion}
use stockfish.Position.Placement.{Placement, put_piece, remove_piece}
use stockfish.Position.Placement.Consistency.{IsPiece, IsConsistent, not_none}
use stockfish.Position.Placement.Algebra.{differs_at}
use stockfish.Position.TakingBack.{target_after_removal}
use stockfish.Position.State.{Zobrist, StateInfo, Position}
use stockfish.Position.Making.{capture_square}
use stockfish.Position.Play.{captured_by, do_move}
use stockfish.Position.Restoring.{promoted-IsPiece, and_false}
use stockfish.Position.Placing.Kinds.{
  placed_quiet, placed_promotion, placed_capture, placed_promotion_capture,
}
use stockfish.Position.Undoing.{IsDoable, from_sq-lt, to_sq-lt}
use stockfish.Base.{Bool, bit_xor}
use stockfish.Base.Bits.Xor.{bit_xor_zero}
use stockfish.Types.Board.{sq_none}
use stockfish.Position.Keys.FullKey.{
  board_key, full_key, board_key-put_piece, board_key-remove_piece, board_key-move_piece,
}
use stockfish.Position.KeyUpdate.{promoted_key-unpromoted, promoted_key-promoted}
use stockfish.Position.Making.{take_captured, make_capture}
use stockfish.Position.Placing.{taken, start_of}
use stockfish.Position.Keying.{keyed_from}
use stockfish.Position.Keying.Sums.{sum_quiet, sum_promotion, sum_capture, sum_promotion_capture}

-- What the key needs of a move: the old key is right; a pawn's step back from its target is on the
-- board; and a pawn that promotes goes to a square where the table of keys has none for pawns.
pub record IsKeyed (z : Zobrist) (m : Move) (p : Position) : Type 0 where
  pub keyed : p.st.key ≡ full_key z p
  pub steps_on_board :
      (type_of (p.placement.board (from_sq m)) == pawn) ≡ true
      → (step_back (to_sq m) (pawn_push p.side_to_move) == sq_none) ≡ false
  pub promotes :
      move_type m ≡ promotion
      → ((type_of (p.placement.board (from_sq m)) == pawn) ≡ true)
        × ((bit_xor (to_sq m) (from_sq m) == 16) ≡ false)
        × (z.psq (p.placement.board (from_sq m)) (to_sq m) ≡ 0)

-- The key of the board after a capture.
board_key-capture :
    (z : Zobrist) (p : Placement) (x from to : ℕ)
    → IsConsistent p
    → from < 64
    → to < 64
    → IsPiece (p.board from)
    → IsPiece (p.board to)
    → IsPiece x
    → (from == to) ≡ false
    → board_key z (put_piece x to (remove_piece to (remove_piece from p))).board
      ≡ bit_xor
          (bit_xor
            (bit_xor (board_key z p.board) (z.psq (p.board from) from))
            (z.psq (p.board to) to))
          (z.psq x to)
unfolding remove_piece
board_key-capture z p x from to c h k v w n apart =
    let r = remove_piece from p in
    let kept : r.board to ≡ p.board to = target_after_removal p from to c h k v apart in
    board_key-put_piece z (remove_piece to r) x to k n (put_at r.board to no_piece)
    ∙ ap (λ y. bit_xor y (z.psq x to))
        (board_key-remove_piece z r to k (rw kept w)
          ∙ ap (λ q. bit_xor (board_key z r.board) (z.psq q to)) kept
          ∙ ap (λ y. bit_xor y (z.psq (p.board to) to)) (board_key-remove_piece z p from h v))

module _ (z : Zobrist) (m : Move) (new_st : StateInfo) (gives_check : Bool) (p : Position)
    (d : IsDoable m p) (y : IsKeyed z m p) where
  abbrev Keyed : Type 0
  Keyed = (do_move z m new_st gives_check p).st.key ≡ full_key z (do_move z m new_st gives_check p)

  pub keyed_quiet : move_type m ≡ normal → p.placement.board (to_sq m) ≡ no_piece → Keyed
  unfolding taken start_of take_captured captured_by
  keyed_quiet t e =
      let pc = p.placement.board (from_sq m) in
      keyed_from z m new_st gives_check p 0 (to_sq m) 0 d.side y.keyed
        (rw (t, e) (sym (bit_xor_zero (bit_xor p.st.key z.side)))) (rw (t, e) refl)
        (promoted_key-unpromoted z m p.side_to_move (from_sq m) (to_sq m) pc (rw t refl))
        y.steps_on_board
        (ap (λ x. board_key z x.board) (placed_quiet z m new_st gives_check p t e)
          ∙ board_key-move_piece z p.placement (from_sq m) (to_sq m) d.consistent (from_sq-lt m)
              (to_sq-lt m) d.moves_piece e
          ∙ sum_quiet (board_key z p.placement.board) (z.psq pc (from_sq m)) (z.psq pc (to_sq m)))

  pub keyed_promotion :
      move_type m ≡ promotion
      → p.placement.board (from_sq m) ≡ make_piece p.side_to_move pawn
      → p.placement.board (to_sq m) ≡ no_piece
      → Keyed
  unfolding taken start_of take_captured captured_by remove_piece
  keyed_promotion t o e =
      let us = p.side_to_move in
      let from = from_sq m in
      let to = to_sq m in
      let pc = p.placement.board from in
      let promoted = make_piece us (promotion_type m) in
      let (typed, single, no_key) = y.promotes t in
      let r = remove_piece from p.placement in
      let apart : (from == to) ≡ false =
        ground (arith, differs_at p.placement.board to from e d.moves_piece) in
      keyed_from z m new_st gives_check p 0 to (z.psq promoted to) d.side y.keyed
        (rw (t, e) (sym (bit_xor_zero (bit_xor p.st.key z.side)))) (rw (t, e) refl)
        (promoted_key-promoted z m us from to pc typed single t) y.steps_on_board
        (ap (λ x. board_key z x.board) (placed_promotion z m new_st gives_check p d.side t o e)
          ∙ board_key-put_piece z r promoted to (to_sq-lt m) (promoted-IsPiece us m d.side) (
              target_after_removal p.placement from to d.consistent (from_sq-lt m) (to_sq-lt m)
                d.moves_piece apart
              ∙ e)
          ∙ ap (λ x. bit_xor x (z.psq promoted to))
              (board_key-remove_piece z p.placement from (from_sq-lt m) d.moves_piece)
          ∙ rw no_key
              (sum_promotion (board_key z p.placement.board) (z.psq pc from) (z.psq promoted to)))

  pub keyed_capture :
      move_type m ≡ normal
      → IsPiece (p.placement.board (to_sq m))
      → (from_sq m == to_sq m) ≡ false
      → Keyed
  unfolding taken start_of take_captured captured_by make_capture capture_square
  keyed_capture t w apart =
      let pc = p.placement.board (from_sq m) in
      let victim = p.placement.board (to_sq m) in
      let some_piece = not_none victim w in
      keyed_from z m new_st gives_check p (z.psq victim (to_sq m)) (to_sq m) 0 d.side y.keyed
        (rw (t, some_piece, and_false (type_of victim == pawn)) refl) (rw (t, some_piece) refl)
        (promoted_key-unpromoted z m p.side_to_move (from_sq m) (to_sq m) pc (rw t refl))
        y.steps_on_board
        (ap (λ x. board_key z x.board) (placed_capture z m new_st gives_check p t w)
          ∙ board_key-capture z p.placement pc (from_sq m) (to_sq m) d.consistent (from_sq-lt m)
              (to_sq-lt m) d.moves_piece w d.moves_piece apart
          ∙ sum_capture (board_key z p.placement.board) (z.psq pc (from_sq m))
              (z.psq victim (to_sq m)) (z.psq pc (to_sq m)))

  pub keyed_promotion_capture :
      move_type m ≡ promotion
      → IsPiece (p.placement.board (to_sq m))
      → (from_sq m == to_sq m) ≡ false
      → Keyed
  unfolding taken start_of take_captured captured_by make_capture capture_square
  keyed_promotion_capture t w apart =
      let us = p.side_to_move in
      let pc = p.placement.board (from_sq m) in
      let victim = p.placement.board (to_sq m) in
      let promoted = make_piece us (promotion_type m) in
      let some_piece = not_none victim w in
      let (typed, single, no_key) = y.promotes t in
      keyed_from z m new_st gives_check p (z.psq victim (to_sq m)) (to_sq m)
        (z.psq promoted (to_sq m)) d.side y.keyed
        (rw (t, some_piece, and_false (type_of victim == pawn)) refl) (rw (t, some_piece) refl)
        (promoted_key-promoted z m us (from_sq m) (to_sq m) pc typed single t) y.steps_on_board
        (ap (λ x. board_key z x.board) (placed_promotion_capture z m new_st gives_check p t w)
          ∙ board_key-capture z p.placement promoted (from_sq m) (to_sq m) d.consistent
              (from_sq-lt m) (to_sq-lt m) d.moves_piece w (promoted-IsPiece us m d.side) apart
          ∙ rw no_key (
              sum_promotion_capture (board_key z p.placement.board) (z.psq pc (from_sq m))
                (z.psq victim (to_sq m)) (z.psq promoted (to_sq m))))
