-- ===== src/Position/Keying/Specials.antt =====
-- The key after a capture en passant and after a castling, and after any move.
use stockfish.Base.{ℕ, ◌<◌, ◌≡◌, refl, ap, ◌∙◌, Bool, true, false, ◌==◌, arith, inl, inr}
use stockfish.Base.Arrays.{put_other}
use stockfish.Types.Board.{
  no_piece, pawn, king, rook, opposite, make_piece, pawn_push, step_back, type_of,
}
use stockfish.Types.Board.Symmetry.{make_piece_fields}
use stockfish.Types.Moves.{Move, from_sq, to_sq, move_type, en_passant, castling}
use stockfish.Position.Placement.{Placement, put_piece, remove_piece}
use stockfish.Position.Placement.Consistency.{IsPiece, IsConsistent, not_none}
use stockfish.Position.Placement.Removing.{remove_piece-IsConsistent}
use stockfish.Position.Placement.Algebra.{differs_at}
use stockfish.Position.Castling.{castle, king_to, rook_to}
use stockfish.Position.State.{Zobrist, StateInfo, Position}
use stockfish.Position.Making.{capture_square}
use stockfish.Position.Play.{captured_by, do_move}
use stockfish.Position.Restoring.{make_piece-IsPiece, opposite-lt}
use stockfish.Position.TakingBack.{Fits}
use stockfish.Position.Placing.{do_move-castling}
use stockfish.Position.Placing.Kinds.{placed_passing}
use stockfish.Position.Undoing.{IsDoable, from_sq-lt, to_sq-lt}
use stockfish.Base.{Bool, bit_xor}
use stockfish.Position.Keys.FullKey.{
  board_key, full_key, board_key-put_piece, board_key-remove_piece, board_key-move_piece,
}
use stockfish.Position.KeyUpdate.{promoted_key-unpromoted}
use stockfish.Position.Making.{take_captured, make_castling, make_capture}
use stockfish.Position.Placing.{taken, start_of}
use stockfish.Position.Keying.{keyed_from}
use stockfish.Position.Keying.Sums.{sum_passing, sum_castling}
use stockfish.Types.Board.{opposite}
use stockfish.Position.Restoring.Castles.{king_rook_apart, cleared}
use stockfish.Position.TakingBack.{ClearFor}
use stockfish.Position.Keying.Kinds.{
  IsKeyed, keyed_quiet, keyed_promotion, keyed_capture, keyed_promotion_capture,
}

board_key-castle :
    (z : Zobrist) (p : Placement) (us from to : ℕ)
    → IsConsistent p
    → us < 2
    → from < 64
    → to < 64
    → p.board from ≡ make_piece us king
    → p.board to ≡ make_piece us rook
    → king_to us from to < 64
    → rook_to us from to < 64
    → (king_to us from to == rook_to us from to) ≡ false
    → ClearFor p from to (king_to us from to)
    → ClearFor p from to (rook_to us from to)
    → board_key z (castle us from to p).board
      ≡ bit_xor
          (bit_xor
            (bit_xor
              (bit_xor (board_key z p.board) (z.psq (make_piece us rook) to))
              (z.psq (make_piece us king) from))
            (z.psq (make_piece us king) (king_to us from to)))
          (z.psq (make_piece us rook) (rook_to us from to))
unfolding castle remove_piece put_piece
board_key-castle z p us from to c side h k o q kh rh apart kc rc =
    let kt = king_to us from to in
    let rt = rook_to us from to in
    let kpc = make_piece us king in
    let rpc = make_piece us rook in
    let kv : IsPiece kpc = make_piece-IsPiece us king side (omega arith) (omega arith) in
    let rv : IsPiece rpc = make_piece-IsPiece us rook side (omega arith) (omega arith) in
    let r1 = remove_piece to p in
    let k1 : r1.board from ≡ kpc =
      put_other p.board to from no_piece (king_rook_apart p us from to c side h k o q) ∙ o in
    let r = remove_piece from r1 in
    let king_free = cleared p us from to c side h k o q kt kc in
    let rook_free = cleared p us from to c side h k o q rt rc in
    let placed = put_piece kpc kt r in
    board_key-put_piece z placed rpc rt rh rv
      (put_other r.board kt rt kpc (ground (arith, apart)) ∙ rook_free)
    ∙ ap (λ x. bit_xor x (z.psq rpc rt))
        (board_key-put_piece z r kpc kt kh kv king_free
          ∙ ap (λ x. bit_xor x (z.psq kpc kt))
              (board_key-remove_piece z r1 from h (rw k1 kv)
                ∙ ap (λ x. bit_xor (board_key z r1.board) (z.psq x from)) k1
                ∙ ap (λ x. bit_xor x (z.psq kpc from))
                    (board_key-remove_piece z p to k (rw q rv)
                      ∙ ap (λ x. bit_xor (board_key z p.board) (z.psq x to)) q)))

king_no_pawn : (us : ℕ) → us < 2 → (type_of (make_piece us king) == pawn) ≡ false
king_no_pawn us side = let fields = make_piece_fields us king side (omega arith) in rw fields.0 refl

module _ (z : Zobrist) (m : Move) (new_st : StateInfo) (gives_check : Bool) (p : Position)
    (d : IsDoable m p) (y : IsKeyed z m p) where
  keyed_castling :
      move_type m ≡ castling
      → p.placement.board (from_sq m) ≡ make_piece p.side_to_move king
      → p.placement.board (to_sq m) ≡ make_piece p.side_to_move rook
      → king_to p.side_to_move (from_sq m) (to_sq m) < 64
      → rook_to p.side_to_move (from_sq m) (to_sq m) < 64
      → (king_to p.side_to_move (from_sq m) (to_sq m)
          == rook_to p.side_to_move (from_sq m) (to_sq m))
        ≡ false
      → ClearFor p.placement (from_sq m) (to_sq m) (king_to p.side_to_move (from_sq m) (to_sq m))
      → ClearFor p.placement (from_sq m) (to_sq m) (rook_to p.side_to_move (from_sq m) (to_sq m))
      → (do_move z m new_st gives_check p).st.key ≡ full_key z (do_move z m new_st gives_check p)
  unfolding taken start_of take_captured captured_by make_castling
  keyed_castling t o q kh rh apart kc rc =
      let us = p.side_to_move in
      let from = from_sq m in
      let to = to_sq m in
      let kpc = make_piece us king in
      let rpc = make_piece us rook in
      let kt = king_to us from to in
      let rt = rook_to us from to in
      let no_pawn : (type_of (p.placement.board from) == pawn) ≡ false =
        rw o (king_no_pawn us d.side) in
      keyed_from z m new_st gives_check p (bit_xor (z.psq rpc to) (z.psq rpc rt)) kt 0 d.side
        y.keyed (rw (t, q) refl) (rw t refl)
        (promoted_key-unpromoted z m us from kt (p.placement.board from) (rw t refl))
        (λ e. absurd (ground (arith, e, no_pawn)))
        (ap (λ x. board_key z x.board) (do_move-castling z m new_st gives_check p t)
          ∙ board_key-castle z p.placement us from to d.consistent d.side (from_sq-lt m)
              (to_sq-lt m) o q kh rh apart kc rc
          ∙ rw o (
              sum_castling (board_key z p.placement.board) (z.psq rpc to) (z.psq kpc from)
                (z.psq kpc kt) (z.psq rpc rt)))

  keyed_passing :
      move_type m ≡ en_passant
      → p.placement.board (to_sq m) ≡ no_piece
      → step_back (to_sq m) (pawn_push p.side_to_move) < 64
      → p.placement.board (step_back (to_sq m) (pawn_push p.side_to_move))
        ≡ make_piece (opposite p.side_to_move) pawn
      → (from_sq m == step_back (to_sq m) (pawn_push p.side_to_move)) ≡ false
      → (do_move z m new_st gives_check p).st.key ≡ full_key z (do_move z m new_st gives_check p)
  unfolding taken start_of take_captured captured_by make_capture capture_square remove_piece
  keyed_passing t e b o apart =
      let us = p.side_to_move in
      let from = from_sq m in
      let to = to_sq m in
      let pc = p.placement.board from in
      let capsq = step_back to (pawn_push us) in
      let victim = make_piece (opposite us) pawn in
      let side' : opposite us < 2 = opposite-lt us d.side in
      let w : IsPiece victim =
        make_piece-IsPiece (opposite us) pawn side' (omega arith) (omega arith) in
      let some_piece = not_none victim w in
      let typed : (type_of victim == pawn) ≡ true =
        let fields = make_piece_fields (opposite us) pawn side' (omega arith) in rw fields.0 refl in
      let w' : IsPiece (p.placement.board capsq) = rw o w in
      let r = remove_piece capsq p.placement in
      let cr = remove_piece-IsConsistent p.placement capsq d.consistent b w' in
      let from_kept : r.board from ≡ pc = put_other p.placement.board capsq from no_piece apart in
      let to_empty : r.board to ≡ no_piece =
        put_other p.placement.board capsq to no_piece (differs_at p.placement.board to capsq e w')
        ∙ e in
      keyed_from z m new_st gives_check p (z.psq victim capsq) to 0 d.side y.keyed
        (rw (t, some_piece, typed) refl) (rw (t, some_piece) refl)
        (promoted_key-unpromoted z m us from to pc (rw t refl)) y.steps_on_board
        (ap (λ x. board_key z x.board) (placed_passing z m new_st gives_check p d.side t)
          ∙ board_key-move_piece z r from to cr (from_sq-lt m) (to_sq-lt m)
              (rw from_kept d.moves_piece) to_empty
          ∙ ap (λ x. bit_xor (bit_xor (board_key z r.board) (z.psq x from)) (z.psq x to)) from_kept
          ∙ ap (λ x. bit_xor (bit_xor x (z.psq pc from)) (z.psq pc to))
              (board_key-remove_piece z p.placement capsq b w'
                ∙ ap (λ x. bit_xor (board_key z p.placement.board) (z.psq x capsq)) o)
          ∙ sum_passing (board_key z p.placement.board) (z.psq victim capsq) (z.psq pc from)
              (z.psq pc to))

  keyed_by_kind :
      Fits m p.side_to_move p.placement
      → (do_move z m new_st gives_check p).st.key ≡ full_key z (do_move z m new_st gives_check p)
  keyed_by_kind (Fits.quiet (inl t) e) = keyed_quiet z m new_st gives_check p d y t e
  keyed_by_kind (Fits.quiet (inr (t, o)) e) = keyed_promotion z m new_st gives_check p d y t o e
  keyed_by_kind (Fits.capture (inl t) w apart) =
      keyed_capture z m new_st gives_check p d y t w apart
  keyed_by_kind (Fits.capture (inr (t, o)) w apart) =
      keyed_promotion_capture z m new_st gives_check p d y t w apart
  keyed_by_kind (Fits.passing t e b o apart) = keyed_passing t e b o apart
  keyed_by_kind (Fits.castles t o q kh rh apart kc rc) = keyed_castling t o q kh rh apart kc rc

  -- The key that `do_move` updates is the sum over the new position, of the keys of its pieces, of the
  -- side to move, of the en passant square and of the castling rights, for a move of any kind that
  -- fits the position, where the old key is that sum, a pawn's step back from its target is on the
  -- board, and a pawn that promotes does not move by two ranks and has no key on the square.
  pub do_move-key :
      (do_move z m new_st gives_check p).st.key ≡ full_key z (do_move z m new_st gives_check p)
  do_move-key = keyed_by_kind d.fits
