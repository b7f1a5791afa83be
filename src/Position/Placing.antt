-- ===== src/Position/Placing.antt =====
-- Where the phases of `do_move` leave the pieces, for each kind of move.
pub mod Kinds
use stockfish.Base.{
  ℕ, ◌≡◌, refl, ◌∙◌, Bool, true, false, not, ◌&&◌, ◌==◌, Bool-cases, inl, inr, if◌then◌else◌,
  bit_xor,
}
use stockfish.Types.Board.{no_piece, pawn, pawn_push, step_back, type_of}
use stockfish.Types.Moves.{Move, from_sq, to_sq, move_type, promotion, en_passant, castling}
use stockfish.Position.Placement.{remove_piece}
use stockfish.Position.Castling.{castle}
use stockfish.Position.State.{Zobrist, StateInfo, Position}
use stockfish.Position.Making.{
  Making, copy_state, take_captured, make_castling, make_capture, update_rights, sets_ep, make_pawn,
  make_promotion, make_non_pawn, capture_square, update_moved,
}
use stockfish.Position.Play.{captured_by, update_state, place_moved, do_move}

-- What is at hand agrees on the pieces and the two variables.
pub record SamePieces (v w : Making) : Type 0 where
  pub placement : v.placement ≡ w.placement
  pub to : v.to ≡ w.to
  pub captured : v.captured ≡ w.captured

make_pawn-SamePieces :
    (z : Zobrist) (p : Position) (m us from pc : ℕ) (w : Making)
    → SamePieces (make_pawn z p m us from pc w) w
unfolding make_pawn make_promotion
make_pawn-SamePieces z p m us from pc w = elim (Bool-cases (bit_xor w.to from == 16)) [
  | inl e ↦ elim (Bool-cases (sets_ep p us from (step_back w.to (pawn_push us)) w.placement)) [
    | inl f ↦ rw (e, f) (record { placement = refl; to = refl; captured = refl })
    | inr f ↦ rw (e, f) (record { placement = refl; to = refl; captured = refl })
  ]
  | inr e ↦ elim (Bool-cases (move_type m == promotion)) [
    | inl f ↦ rw (e, f) (record { placement = refl; to = refl; captured = refl })
    | inr f ↦ rw (e, f) (record { placement = refl; to = refl; captured = refl })
  ]
]

-- What `take_captured` starts with.
unfoldable pub start_of : Zobrist → Move → StateInfo → Position → Making
start_of z m new_st p = record {
  k = bit_xor p.st.key z.side;
  st = copy_state p.st new_st;
  placement = p.placement;
  to = to_sq m;
  captured = captured_by m p.side_to_move p.placement;
}

unfoldable pub taken : Zobrist → Move → StateInfo → Position → Making
taken z m new_st p = take_captured z m p.side_to_move (from_sq m) (start_of z m new_st p)

pub update_state-SamePieces :
    (z : Zobrist) (m : Move) (new_st : StateInfo) (p : Position)
    → SamePieces (update_state z m new_st p) (taken z m new_st p)
unfolding update_state update_moved taken start_of make_non_pawn update_rights
update_state-SamePieces z m new_st p =
    let us = p.side_to_move in
    let from = from_sq m in
    let pc = p.placement.board from in
    let t = taken z m new_st p in
    let w = update_rights z p from pc t in
    elim (Bool-cases (type_of pc == pawn)) [
      | inl e ↦
          let same = make_pawn-SamePieces z p m us from pc w in
          rw e (record { placement = same.placement; to = same.to; captured = same.captured })
      | inr e ↦ rw e (record { placement = refl; to = refl; captured = refl })
    ]

-- The pieces after `do_move`, from what `take_captured` leaves.
pub do_move-placement :
    (z : Zobrist) (m : Move) (new_st : StateInfo) (gives_check : Bool) (p : Position)
    → (do_move z m new_st gives_check p).placement
      ≡ place_moved m p.side_to_move
          (from_sq m)
          (p.placement.board (from_sq m))
          (taken z m new_st p).to
          (taken z m new_st p).captured
          (taken z m new_st p).placement
unfolding do_move
do_move-placement z m new_st gives_check p =
    let same = update_state-SamePieces z m new_st p in
    rw (same.placement, same.to, same.captured) refl

module _ (z : Zobrist) (m : Move) (new_st : StateInfo) (gives_check : Bool) (p : Position) where
  pub do_move-castling :
      move_type m ≡ castling
      → (do_move z m new_st gives_check p).placement
        ≡ castle p.side_to_move (from_sq m) (to_sq m) p.placement
  unfolding taken start_of take_captured make_castling place_moved
  do_move-castling e = do_move-placement z m new_st gives_check p ∙ rw e refl

  -- A move to an empty square that takes nothing.
  pub do_move-quiet :
      (move_type m == castling) ≡ false
      → captured_by m p.side_to_move p.placement ≡ no_piece
      → (do_move z m new_st gives_check p).placement
        ≡ place_moved m p.side_to_move
            (from_sq m)
            (p.placement.board (from_sq m))
            (to_sq m)
            no_piece
            p.placement
  unfolding taken start_of take_captured
  do_move-quiet e f = do_move-placement z m new_st gives_check p ∙ rw (e, f) refl

  -- A move that takes a piece.
  pub do_move-taking :
      (move_type m == castling) ≡ false
      → not (captured_by m p.side_to_move p.placement == no_piece) ≡ true
      → (do_move z m new_st gives_check p).placement
        ≡ place_moved m p.side_to_move
            (from_sq m)
            (p.placement.board (from_sq m))
            (to_sq m)
            (captured_by m p.side_to_move p.placement)
            (if type_of (captured_by m p.side_to_move p.placement) == pawn
                && move_type m == en_passant
              then remove_piece
                  (capture_square m p.side_to_move
                    (captured_by m p.side_to_move p.placement)
                    (to_sq m))
                  p.placement
              else p.placement)
  unfolding taken start_of take_captured make_capture
  do_move-taking e f = do_move-placement z m new_st gives_check p ∙ rw (e, f) refl
