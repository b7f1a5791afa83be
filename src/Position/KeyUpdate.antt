-- ===== src/Position/KeyUpdate.antt =====
-- The key that the phases of `do_move` compute, as a sum.
use stockfish.Base.{
  ℕ, ◌≡◌, refl, sym, ap, ◌∙◌, true, false, not, ◌&&◌, ◌==◌, arith, if◌then◌else◌, bit_xor,
  Bool-cases, inl, inr,
}
use stockfish.Base.Bits.Xor.{bit_xor_zero}
use stockfish.Types.Board.{
  Color, Piece, Square, no_piece, sq_none, pawn, file_of, type_of, make_piece, pawn_push, step_back,
}
use stockfish.Types.Moves.{Move, move_type, promotion_type, promotion, castling}
use stockfish.Position.State.{Key, Zobrist, StateInfo, Position}
use stockfish.Position.Keys.FullKey.{ep_key}
use stockfish.Position.Making.{
  Making, copy_state, take_captured, make_castling, make_capture, update_rights, sets_ep, make_pawn,
  make_promotion, make_non_pawn, update_moved,
}
use stockfish.Position.Play.{captured_by}
use stockfish.Position.Placing.{taken, start_of}

-- The key of a promoted piece, for a pawn that promotes.
pub promoted_key : Zobrist → Move → Color → Square → Square → Piece → Key
promoted_key z m us from to pc =
    if type_of pc == pawn && (not (bit_xor to from == 16) && move_type m == promotion)
    then z.psq (make_piece us (promotion_type m)) to
    else 0

update_rights-key :
    (z : Zobrist) (p : Position) (from pc : ℕ) (w : Making)
    → (update_rights z p from pc w).k
      ≡ bit_xor
          (bit_xor
            (bit_xor
              (bit_xor w.k (bit_xor (z.psq pc from) (z.psq pc w.to)))
              (ep_key z w.st.ep_square))
            (z.castling w.st.castling_rights))
          (z.castling (update_rights z p from pc w).st.castling_rights)
unfolding update_rights ep_key
update_rights-key z p from pc w = elim (Bool-cases (w.st.ep_square == sq_none)) [
  | inl e ↦ rw (e, bit_xor_zero (bit_xor w.k (bit_xor (z.psq pc from) (z.psq pc w.to)))) refl
  | inr e ↦ rw e refl
]

make_pawn-key :
    (z : Zobrist) (p : Position) (m us from pc : ℕ) (w : Making)
    → (type_of pc == pawn) ≡ true
    → w.st.ep_square ≡ sq_none
    → (step_back w.to (pawn_push us) == sq_none) ≡ false
    → (make_pawn z p m us from pc w).k
      ≡ bit_xor
          (bit_xor w.k (ep_key z (make_pawn z p m us from pc w).st.ep_square))
          (promoted_key z m us from w.to pc)
unfolding make_pawn make_promotion ep_key promoted_key
make_pawn-key z p m us from pc w t n h = elim (Bool-cases (bit_xor w.to from == 16)) [
  | inl e ↦
      let ep = step_back w.to (pawn_push us) in
      elim (Bool-cases (sets_ep p us from ep w.placement)) [
        | inl f ↦ rw (t, e, f, h, bit_xor_zero (bit_xor w.k (z.enpassant (file_of ep)))) refl
        | inr f ↦ rw (t, e, f, n, bit_xor_zero w.k, bit_xor_zero w.k) refl
      ]
  | inr e ↦ elim (Bool-cases (move_type m == promotion)) [
    | inl f ↦ rw (t, e, f, n, bit_xor_zero w.k) refl
    | inr f ↦ rw (t, e, f, n, bit_xor_zero w.k, bit_xor_zero w.k) refl
  ]
]

make_pawn-rights :
    (z : Zobrist) (p : Position) (m us from pc : ℕ) (w : Making)
    → (make_pawn z p m us from pc w).st.castling_rights ≡ w.st.castling_rights
unfolding make_pawn make_promotion
make_pawn-rights z p m us from pc w = elim (Bool-cases (bit_xor w.to from == 16)) [
  | inl e ↦ elim (Bool-cases (sets_ep p us from (step_back w.to (pawn_push us)) w.placement)) [
    | inl f ↦ rw (e, f) refl
    | inr f ↦ rw (e, f) refl
  ]
  | inr e ↦ elim (Bool-cases (move_type m == promotion)) [
    | inl f ↦ rw (e, f) refl
    | inr f ↦ rw (e, f) refl
  ]
]

-- The capture leaves the en passant square and the rights.
pub record SameRights (a b : StateInfo) : Type 0 where
  pub ep_square : a.ep_square ≡ b.ep_square
  pub castling_rights : a.castling_rights ≡ b.castling_rights

pub taken-SameRights :
    (z : Zobrist) (m : Move) (new_st : StateInfo) (p : Position)
    → SameRights (taken z m new_st p).st p.st
unfolding taken start_of take_captured make_castling make_capture copy_state
taken-SameRights z m new_st p = elim (Bool-cases (move_type m == castling)) [
  | inl e ↦ rw e (record { ep_square = refl; castling_rights = refl })
  | inr e ↦ elim (Bool-cases (not (captured_by m p.side_to_move p.placement == no_piece))) [
    | inl f ↦ rw (e, f) (record { ep_square = refl; castling_rights = refl })
    | inr f ↦ rw (e, f) (record { ep_square = refl; castling_rights = refl })
  ]
]

promoted_key-other :
    (z : Zobrist) (m us from to pc : ℕ)
    → (type_of pc == pawn) ≡ false
    → promoted_key z m us from to pc ≡ 0
unfolding promoted_key
promoted_key-other z m us from to pc e = rw e refl

pub promoted_key-unpromoted :
    (z : Zobrist) (m us from to pc : ℕ)
    → (move_type m == promotion) ≡ false
    → promoted_key z m us from to pc ≡ 0
unfolding promoted_key
promoted_key-unpromoted z m us from to pc e = ground (arith, e)

pub promoted_key-promoted :
    (z : Zobrist) (m us from to pc : ℕ)
    → (type_of pc == pawn) ≡ true
    → (bit_xor to from == 16) ≡ false
    → move_type m ≡ promotion
    → promoted_key z m us from to pc ≡ z.psq (make_piece us (promotion_type m)) to
unfolding promoted_key
promoted_key-promoted z m us from to pc e f t = rw (e, f, t) refl

add_nothing : {a b : ℕ} → a ≡ b → a ≡ bit_xor (bit_xor b 0) 0
add_nothing {a} {b} h = h ∙ sym (bit_xor_zero b) ∙ sym (bit_xor_zero (bit_xor b 0))

ep_key-none : (z : Zobrist) → ep_key z sq_none ≡ 0
unfolding ep_key
ep_key-none z = refl

pub update_moved-key :
    (z : Zobrist) (p : Position) (m us from pc : ℕ) (t : Making)
    → ((type_of pc == pawn) ≡ true → (step_back t.to (pawn_push us) == sq_none) ≡ false)
    → (update_moved z p m us from pc t).k
      ≡ bit_xor
          (bit_xor
            (bit_xor
              (bit_xor
                (bit_xor
                  (bit_xor t.k (bit_xor (z.psq pc from) (z.psq pc t.to)))
                  (ep_key z t.st.ep_square))
                (z.castling t.st.castling_rights))
              (z.castling (update_moved z p m us from pc t).st.castling_rights))
            (ep_key z (update_moved z p m us from pc t).st.ep_square))
          (promoted_key z m us from t.to pc)
unfolding update_moved update_rights make_non_pawn
update_moved-key z p m us from pc t h =
    let w = update_rights z p from pc t in
    elim (Bool-cases (type_of pc == pawn)) [
      | inl e ↦
          rw (e, make_pawn-rights z p m us from pc w)
            (make_pawn-key z p m us from pc w e refl (h e)
              ∙ ap
                  (λ x.
                    bit_xor (bit_xor x (ep_key z (make_pawn z p m us from pc w).st.ep_square))
                      (promoted_key z m us from t.to pc))
                  (update_rights-key z p from pc t))
      | inr e ↦
          rw (e, promoted_key-other z m us from t.to pc e, ep_key-none z)
            (add_nothing (update_rights-key z p from pc t))
    ]
