-- ===== src/Position/Undoing.antt =====
-- `undo_move` undoes `do_move`, and `undo_null_move` the null move.
use stockfish.Base.{
  ℕ, zero, suc, ◌/◌, ◌^◌, ◌<◌, ◌≡◌, refl, ap, ◌∙◌, Bool, false, not, ◌==◌, arith, Bool-cases, inl,
  inr,
}
use stockfish.Base.Bits.Fields.{bit_and-low_mask}
use stockfish.Base.Int.{ℤ, pos, ◌+ℤ◌, ◌-ℤ◌, int_laws}
use stockfish.Base.Lists.{head_or, rest_of}
use stockfish.Types.Board.{Piece, no_piece, pawn, opposite, make_piece}
use stockfish.Types.Moves.{Move, from_sq, to_sq, move_type, en_passant, castling}
use stockfish.Position.Placement.{Placement}
use stockfish.Position.Placement.Consistency.{IsPiece, IsConsistent}
use stockfish.Position.TakingBack.{Fits}
use stockfish.Position.Castling.{uncastle}
use stockfish.Position.State.{Zobrist, StateInfo, Position}
use stockfish.Position.Play.{captured_by, do_move, unplace, undo_move}
use stockfish.Position.Attackers.Untouched.{set_extra_bitboards-Untouched}
use stockfish.Position.Placing.{do_move-castling}
use stockfish.Position.Making.{take_captured, make_capture}
use stockfish.Position.Placing.{taken, start_of, update_state-SamePieces}
use stockfish.Position.Play.{do_null_move, undo_null_move}
use stockfish.Position.Restoring.Castles.{castle_back}
use stockfish.Position.Restoring.Kinds.{
  normal_quiet_back, promotion_quiet_back, normal_capture_back, promotion_capture_back,
  passing_back,
}

taken-captured :
    (z : Zobrist) (m : Move) (new_st : StateInfo) (p : Position)
    → (move_type m == castling) ≡ false
    → (taken z m new_st p).captured ≡ captured_by m p.side_to_move p.placement
unfolding taken start_of take_captured make_capture
taken-captured z m new_st p e =
    elim (Bool-cases (not (captured_by m p.side_to_move p.placement == no_piece))) [
      | inl f ↦ rw (e, f) refl
      | inr f ↦ rw (e, f) refl
    ]

-- Apart from a castling, the captured piece is remembered.
do_move-captured :
    (z : Zobrist) (m : Move) (new_st : StateInfo) (gives_check : Bool) (p : Position)
    → (move_type m == castling) ≡ false
    → (do_move z m new_st gives_check p).st.captured_piece
      ≡ captured_by m p.side_to_move p.placement
unfolding do_move
do_move-captured z m new_st gives_check p e =
    (set_extra_bitboards-Untouched _ _ _).captured_piece
    ∙ (update_state-SamePieces z m new_st p).captured
    ∙ taken-captured z m new_st p e

-- What is needed of a move that is to be made and taken back.
pub record IsDoable (m : Move) (p : Position) : Type 0 where
  pub consistent : IsConsistent p.placement
  pub side : p.side_to_move < 2
  pub moves_piece : IsPiece (p.placement.board (from_sq m))
  pub fits : Fits m p.side_to_move p.placement

pub from_sq-lt : (m : Move) → from_sq m < 64
unfolding from_sq
from_sq-lt m = omega (arith, bit_and-low_mask 6 63 (m / 2 ^ 6) refl)

pub to_sq-lt : (m : Move) → to_sq m < 64
unfolding to_sq
to_sq-lt m = omega (arith, bit_and-low_mask 6 63 m refl)

opposite_twice : (c : ℕ) → c < 2 → opposite (opposite c) ≡ c
unfolding opposite
opposite_twice zero h = refl
opposite_twice (suc zero) h = refl
opposite_twice (suc (suc c)) h = absurd (omega arith)

captured_by-target :
    (m us : ℕ) (p : Placement)
    → (move_type m == en_passant) ≡ false
    → captured_by m us p ≡ p.board (to_sq m)
unfolding captured_by
captured_by-target m us p e = rw e refl

captured_by-passing :
    (m us : ℕ) (p : Placement)
    → move_type m ≡ en_passant
    → captured_by m us p ≡ make_piece (opposite us) pawn
unfolding captured_by
captured_by-passing m us p e = rw e refl

unplace-castling :
    (m us x : ℕ) (p : Placement)
    → move_type m ≡ castling
    → unplace m us x p ≡ uncastle us (from_sq m) (to_sq m) p
unfolding unplace
unplace-castling m us x p t = rw t refl

ply_back : (n : ℤ) → n +ℤ pos 1 -ℤ pos 1 ≡ n
ply_back n = grind int_laws

-- `undo_null_move` undoes the null move in every respect, for either side to move.
pub undo_null_move-do_null_move :
    (z : Zobrist) (p : Position) → p.side_to_move < 2 → undo_null_move (do_null_move z p) ≡ p
unfolding undo_null_move do_null_move head_or rest_of
undo_null_move-do_null_move z p h =
    λ i. record p { side_to_move = opposite_twice p.side_to_move h i }

module _ (z : Zobrist) (m : Move) (new_st : StateInfo) (gives_check : Bool) (p : Position)
    (d : IsDoable m p) where
  abbrev after : Placement
  after = (do_move z m new_st gives_check p).placement

  abbrev Restored : Type 0
  Restored =
      unplace m p.side_to_move (do_move z m new_st gives_check p).st.captured_piece after
      ≡ p.placement

  -- From what a move captures, to the piece that is put back.
  with_captured :
      (x : Piece)
      → (move_type m == castling) ≡ false
      → captured_by m p.side_to_move p.placement ≡ x
      → unplace m p.side_to_move x after ≡ p.placement
      → Restored
  with_captured x e f h =
      ap (λ y. unplace m p.side_to_move y after) (do_move-captured z m new_st gives_check p e ∙ f)
      ∙ h

  -- The pieces stand again where they stood.
  pieces_back : Fits m p.side_to_move p.placement → Restored
  pieces_back (Fits.quiet (inl t) e) =
      with_captured no_piece (rw t refl)
        (captured_by-target m p.side_to_move p.placement (rw t refl) ∙ e)
        (normal_quiet_back z m new_st gives_check p d.consistent d.side (from_sq-lt m) (to_sq-lt m)
          d.moves_piece t e)
  pieces_back (Fits.quiet (inr (t, o)) e) =
      with_captured no_piece (rw t refl)
        (captured_by-target m p.side_to_move p.placement (rw t refl) ∙ e)
        (promotion_quiet_back z m new_st gives_check p d.consistent d.side (from_sq-lt m)
          (to_sq-lt m) d.moves_piece t o e)
  pieces_back (Fits.capture (inl t) w apart) =
      with_captured (p.placement.board (to_sq m)) (rw t refl)
        (captured_by-target m p.side_to_move p.placement (rw t refl))
        (normal_capture_back z m new_st gives_check p d.consistent d.side (from_sq-lt m)
          (to_sq-lt m) d.moves_piece t w apart)
  pieces_back (Fits.capture (inr (t, o)) w apart) =
      with_captured (p.placement.board (to_sq m)) (rw t refl)
        (captured_by-target m p.side_to_move p.placement (rw t refl))
        (promotion_capture_back z m new_st gives_check p d.consistent d.side (from_sq-lt m)
          (to_sq-lt m) d.moves_piece t o w apart)
  pieces_back (Fits.passing t e b o apart) =
      with_captured (make_piece (opposite p.side_to_move) pawn) (rw t refl)
        (captured_by-passing m p.side_to_move p.placement t)
        (passing_back z m new_st gives_check p d.consistent d.side (from_sq-lt m) (to_sq-lt m)
          d.moves_piece t e b o apart)
  pieces_back (Fits.castles t o q kh rh apart kc rc) =
      unplace-castling m p.side_to_move (do_move z m new_st gives_check p).st.captured_piece after t
      ∙ ap (uncastle p.side_to_move (from_sq m) (to_sq m))
          (do_move-castling z m new_st gives_check p t)
      ∙ castle_back p.placement p.side_to_move (from_sq m) (to_sq m) d.consistent d.side
          (from_sq-lt m) (to_sq-lt m) o q kh rh apart kc rc

  -- A move of any kind that fits the position is undone by `undo_move` in every respect: pieces, sets
  -- of squares and numbers of pieces, the state and the earlier states, the ply and the side to move,
  -- where the sets and the numbers agree with the squares, and a piece stands on the square that the
  -- move is from. Castling is included, with squares that overlap, and whether the flag for check is
  -- right does not matter.
  pub undo_move-do_move : undo_move m (do_move z m new_st gives_check p) ≡ p
  unfolding undo_move do_move head_or rest_of
  undo_move-do_move =
      let flipped : opposite (opposite p.side_to_move) ≡ p.side_to_move =
        opposite_twice p.side_to_move d.side in
      let restored =
        ap (λ us. unplace m us (do_move z m new_st gives_check p).st.captured_piece after) flipped
        ∙ pieces_back d.fits in
      let ply : p.game_ply +ℤ pos 1 -ℤ pos 1 ≡ p.game_ply = ply_back p.game_ply in
      λ i. record p { placement = restored i; game_ply = ply i; side_to_move = flipped i }
