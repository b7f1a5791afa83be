-- ===== src/Position/Restoring.antt =====
-- The pieces of a move that is taken back.
pub mod Castles
pub mod Kinds
use stockfish.Base.{
  ℕ, zero, suc, ◌+◌, ◌*◌, ◌/◌, ◌%◌, ◌^◌, ◌<◌, ◌≤◌, ◌≡◌, refl, sym, ap, ◌∙◌, Bool, true, false, not,
  ◌&&◌, ◌==◌, ltb, arith, Bool-cases, inl, inr, if◌then◌else◌, ◌⊎◌, bit_and, bit_xor, List, [], ◌∷◌,
}
use stockfish.Base.Arrays.{put, put_at, put_other}
use stockfish.Base.Bits.Fields.{bit_and-low_mask}
use stockfish.Base.Int.{ℤ, pos, ◌+ℤ◌, ◌-ℤ◌, int_laws}
use stockfish.Base.Lists.{head_or, rest_of}
use stockfish.Types.Board.{
  Color, Piece, Square, no_piece, pawn, knight, queen, rook, king, opposite, make_piece, pawn_push,
  step_back, type_of, color_of,
}
use stockfish.Types.Board.Symmetry.{make_piece_fields}
use stockfish.Types.Moves.{
  Move, from_sq, to_sq, move_type, promotion_type, normal, promotion, en_passant, castling,
}
use stockfish.Position.Placement.{Placement, put_piece, remove_piece, move_piece, swap_piece}
use stockfish.Position.Placement.Consistency.{IsPiece, IsConsistent, not_none}
use stockfish.Position.Placement.Putting.{put_piece-IsConsistent}
use stockfish.Position.Placement.Removing.{remove_piece-IsConsistent}
use stockfish.Position.Placement.Algebra.{
  differs_at, put_piece-remove_piece, remove_piece-put_piece, move_piece-put_piece,
}
use stockfish.Position.TakingBack.{
  Fits, ClearFor, moved_back, swapped_back, capture_restored, target_after_removal,
}
use stockfish.Position.Castling.{castle, uncastle, king_to, rook_to}
use stockfish.Position.State.{Zobrist, StateInfo, Position}
use stockfish.Position.Making.{capture_square}
use stockfish.Position.Play.{captured_by, place_moved, do_move, unplace, undo_move}
use stockfish.Position.Placing.{do_move-castling, do_move-quiet, do_move-taking}

pub make_piece-IsPiece : (c pt : ℕ) → c < 2 → 0 < pt → pt < 7 → IsPiece (make_piece c pt)
make_piece-IsPiece c pt hc h0 hp =
    let (t, k, a, b) = make_piece_fields c pt hc (omega arith) in
    record {
      typed = rw t (ground arith);
      type_le = rw t (omega arith);
      color_le = rw k (omega arith);
      made = rw (t, k) refl;
    }

pub promotion_type-bounds : (m : Move) → (2 ≤ promotion_type m) × (promotion_type m ≤ 5)
unfolding promotion_type
promotion_type-bounds m =
    let low = bit_and-low_mask 2 3 (m / 2 ^ 12) refl in (omega (arith, low), omega (arith, low))

pub promoted-IsPiece : (us m : ℕ) → us < 2 → IsPiece (make_piece us (promotion_type m))
promoted-IsPiece us m h =
    let b = promotion_type-bounds m in
    make_piece-IsPiece us (promotion_type m) h (omega (arith, b.0)) (omega (arith, b.1))

pub pawn-promoted :
    (us m : ℕ) → us < 2 → (make_piece us pawn == make_piece us (promotion_type m)) ≡ false
unfolding make_piece
pawn-promoted us m h = let b = promotion_type-bounds m in ground (arith, b.0, b.1)

module _ (p : Placement) (from to us : ℕ) (c : IsConsistent p) (h : from < 64) (k : to < 64)
    (v : IsPiece (p.board from)) where
  -- A move to an empty square, taken back.
  pub quiet_restored :
      p.board to ≡ no_piece
      → move_piece to from (put_piece (p.board from) to (remove_piece from p)) ≡ p
  unfolding remove_piece
  quiet_restored e =
      let other = differs_at p.board to from e v in
      let apart : (from == to) ≡ false = ground (arith, other) in
      moved_back (remove_piece from p) (p.board from) from to
        (remove_piece-IsConsistent p from c h v) h k v (put_at p.board from no_piece)
        (target_after_removal p from to c h k v apart ∙ e) apart
      ∙ put_piece-remove_piece p from c h v

  -- A capture, taken back.
  pub taking_restored :
      IsPiece (p.board to)
      → (from == to) ≡ false
      → put_piece
          (p.board to)
          to
          (move_piece to from (put_piece (p.board from) to (remove_piece to (remove_piece from p))))
        ≡ p
  unfolding remove_piece
  taking_restored w apart =
      let r = remove_piece from p in
      let cr = remove_piece-IsConsistent p from c h v in
      let w' : IsPiece (r.board to) = rw (target_after_removal p from to c h k v apart) w in
      let gone = remove_piece to r in
      ap (put_piece (p.board to) to) (
        moved_back gone (p.board from) from to (remove_piece-IsConsistent r to cr k w') h k v
          (put_other r.board to from no_piece apart ∙ put_at p.board from no_piece)
          (put_at r.board to no_piece) apart)
      ∙ capture_restored p from to c h k v apart w

  -- The target of a capture is empty once both pieces are off.
  pub both_removed-IsConsistent :
      IsPiece (p.board to)
      → (from == to) ≡ false
      → IsConsistent (remove_piece to (remove_piece from p))
  both_removed-IsConsistent w apart =
      remove_piece-IsConsistent (remove_piece from p) to (remove_piece-IsConsistent p from c h v) k
        (rw (target_after_removal p from to c h k v apart) w)

pub opposite-lt : (c : ℕ) → c < 2 → opposite c < 2
unfolding opposite
opposite-lt zero h = omega arith
opposite-lt (suc zero) h = omega arith
opposite-lt (suc (suc c)) h = absurd (omega arith)

pub and_false : (b : Bool) → (b && false) ≡ false
and_false b = ground arith
