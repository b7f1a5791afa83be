-- ===== src/Position/Keying.antt =====
-- `do_move` keeps the key.
pub mod Kinds
pub mod Specials
pub mod Sums
use stockfish.Base.{
  ℕ, zero, suc, ◌<◌, ◌≡◌, refl, sym, ap, ◌∙◌, Bool, true, false, not, ◌&&◌, ◌==◌, arith,
  if◌then◌else◌, bit_xor, Bool-cases, inl, inr,
}
use stockfish.Base.Bits.{test_bit, test_bit-bit_xor}
use stockfish.Base.Bits.Xor.{eq_of_digits, bit_xor_zero, zero_bit_xor, bit_xor_self}
use stockfish.Base.Tests.{differs}
use stockfish.Base.Arrays.{put_other, put_at}
use stockfish.Types.Board.{
  Color, Piece, Square, no_piece, sq_none, pawn, king, rook, black, opposite, file_of, type_of,
  make_piece, pawn_push, step_back,
}
use stockfish.Types.Moves.{
  Move, from_sq, to_sq, move_type, promotion_type, normal, promotion, en_passant, castling,
}
use stockfish.Position.Placement.{Placement, put_piece, remove_piece, move_piece}
use stockfish.Position.Placement.Consistency.{IsPiece, IsConsistent, not_none}
use stockfish.Position.State.{Key, Zobrist, StateInfo, Position}
use stockfish.Position.Attackers.Untouched.{set_extra_bitboards-Untouched}
use stockfish.Position.Keys.FullKey.{
  board_key, ep_key, side_key, full_key, board_key-put_piece, board_key-remove_piece,
  board_key-move_piece,
}
use stockfish.Position.KeyUpdate.{promoted_key, update_moved-key, taken-SameRights}
use stockfish.Position.Making.{Making, take_captured, make_castling, make_capture, capture_square}
use stockfish.Position.Play.{captured_by, update_state, do_move}
use stockfish.Position.Placing.{taken, start_of}

-- The sum that the code computes is the sum over the new position.
same_differs :
    (bk sd ep c side capt mv cw epw pr : Bool)
    → differs
        (differs
          (differs
            (differs
              (differs
                (differs (differs (differs (differs (differs (differs bk sd) ep) c) side) capt) mv)
                ep)
              c)
            cw)
          epw)
        pr
      ≡ differs
          (differs (differs (differs bk (differs capt (differs mv pr))) (differs sd side)) epw)
          cw
same_differs bk sd ep c side capt mv cw epw pr = ground arith

key_sum :
    (bk sd ep c side capt mv cw epw pr : ℕ)
    → bit_xor
        (bit_xor
          (bit_xor
            (bit_xor
              (bit_xor
                (bit_xor (bit_xor (bit_xor (bit_xor (bit_xor (bit_xor bk sd) ep) c) side) capt) mv)
                ep)
              c)
            cw)
          epw)
        pr
      ≡ bit_xor
          (bit_xor (bit_xor (bit_xor bk (bit_xor capt (bit_xor mv pr))) (bit_xor sd side)) epw)
          cw
key_sum bk sd ep c side capt mv cw epw pr = eq_of_digits _ _ (λ i. simp test_bit-bit_xor (
    same_differs (test_bit bk i) (test_bit sd i) (test_bit ep i) (test_bit c i) (test_bit side i)
      (test_bit capt i) (test_bit mv i) (test_bit cw i) (test_bit epw i) (test_bit pr i)))

opposite_side :
    (z : Zobrist) (c : ℕ) → c < 2 → bit_xor (side_key z c) z.side ≡ side_key z (opposite c)
unfolding side_key opposite
opposite_side z zero h = zero_bit_xor z.side
opposite_side z (suc zero) h = bit_xor_self z.side
opposite_side z (suc (suc c)) h = absurd (omega arith)

update_state-key :
    (z : Zobrist) (m : Move) (new_st : StateInfo) (p : Position)
    → ((type_of (p.placement.board (from_sq m)) == pawn) ≡ true
        → (step_back (taken z m new_st p).to (pawn_push p.side_to_move) == sq_none) ≡ false)
    → (update_state z m new_st p).k
      ≡ bit_xor
          (bit_xor
            (bit_xor
              (bit_xor
                (bit_xor
                  (bit_xor (taken z m new_st p).k (
                    bit_xor
                      (z.psq (p.placement.board (from_sq m)) (from_sq m))
                      (z.psq (p.placement.board (from_sq m)) (taken z m new_st p).to)))
                  (ep_key z (taken z m new_st p).st.ep_square))
                (z.castling (taken z m new_st p).st.castling_rights))
              (z.castling (update_state z m new_st p).st.castling_rights))
            (ep_key z (update_state z m new_st p).st.ep_square))
          (promoted_key z m p.side_to_move
            (from_sq m)
            (taken z m new_st p).to
            (p.placement.board (from_sq m)))
unfolding update_state taken start_of
update_state-key z m new_st p ok =
    update_moved-key z p m p.side_to_move (from_sq m) (p.placement.board (from_sq m))
      (taken z m new_st p) ok

do_move-state :
    (z : Zobrist) (m : Move) (new_st : StateInfo) (gives_check : Bool) (p : Position)
    → ((do_move z m new_st gives_check p).st.key ≡ (update_state z m new_st p).k)
      × ((do_move z m new_st gives_check p).st.ep_square ≡ (update_state z m new_st p).st.ep_square)
      × ((do_move z m new_st gives_check p).st.castling_rights
          ≡ (update_state z m new_st p).st.castling_rights)
      × ((do_move z m new_st gives_check p).side_to_move ≡ opposite p.side_to_move)
unfolding do_move
do_move-state z m new_st gives_check p = (
  (set_extra_bitboards-Untouched _ _ _).key,
  (set_extra_bitboards-Untouched _ _ _).ep_square,
  (set_extra_bitboards-Untouched _ _ _).castling_rights,
  refl,
)

module _ (z : Zobrist) (m : Move) (new_st : StateInfo) (gives_check : Bool) (p : Position) where
  abbrev moved_key : Key
  moved_key =
      bit_xor (z.psq (p.placement.board (from_sq m)) (from_sq m))
        (z.psq (p.placement.board (from_sq m)) (taken z m new_st p).to)

  abbrev promo_key : Key
  promo_key =
      promoted_key z m p.side_to_move (from_sq m) (taken z m new_st p).to
        (p.placement.board (from_sq m))

  -- From what the capture adds to the key, and what the move changes on the board, to the key.
  keyed_by :
      (capt : Key)
      → p.side_to_move < 2
      → p.st.key ≡ full_key z p
      → (taken z m new_st p).k ≡ bit_xor (bit_xor p.st.key z.side) capt
      → ((type_of (p.placement.board (from_sq m)) == pawn) ≡ true
          → (step_back (taken z m new_st p).to (pawn_push p.side_to_move) == sq_none) ≡ false)
      → board_key z (do_move z m new_st gives_check p).placement.board
        ≡ bit_xor (board_key z p.placement.board) (bit_xor capt (bit_xor moved_key promo_key))
      → (do_move z m new_st gives_check p).st.key ≡ full_key z (do_move z m new_st gives_check p)
  unfolding full_key
  keyed_by capt side key tk ok board =
      let w = update_state z m new_st p in
      let fields = do_move-state z m new_st gives_check p in
      let same = taken-SameRights z m new_st p in
      rw
        (
          fields.0,
          fields.1,
          fields.2,
          fields.3,
          board,
          update_state-key z m new_st p ok,
          tk ∙ ap (λ x. bit_xor (bit_xor x z.side) capt) key,
          same.ep_square,
          same.castling_rights,
          sym (opposite_side z p.side_to_move side),
        )
        (key_sum (board_key z p.placement.board) (side_key z p.side_to_move)
          (ep_key z p.st.ep_square) (z.castling p.st.castling_rights) z.side capt moved_key
          (z.castling w.st.castling_rights) (ep_key z w.st.ep_square) promo_key)

  -- The same, from where the move leads and what a promotion adds.
  pub keyed_from :
      (capt to' pr : ℕ)
      → p.side_to_move < 2
      → p.st.key ≡ full_key z p
      → (taken z m new_st p).k ≡ bit_xor (bit_xor p.st.key z.side) capt
      → (taken z m new_st p).to ≡ to'
      → promoted_key z m p.side_to_move (from_sq m) to' (p.placement.board (from_sq m)) ≡ pr
      → ((type_of (p.placement.board (from_sq m)) == pawn) ≡ true
          → (step_back to' (pawn_push p.side_to_move) == sq_none) ≡ false)
      → board_key z (do_move z m new_st gives_check p).placement.board
        ≡ bit_xor (board_key z p.placement.board) (
            bit_xor capt (
              bit_xor
                (bit_xor
                  (z.psq (p.placement.board (from_sq m)) (from_sq m))
                  (z.psq (p.placement.board (from_sq m)) to'))
                pr))
      → (do_move z m new_st gives_check p).st.key ≡ full_key z (do_move z m new_st gives_check p)
  keyed_from capt to' pr side key tk tt tp ok board =
      keyed_by capt side key tk (rw tt ok) (rw (tt, tp) board)
