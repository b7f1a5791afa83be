-- ===== src/Fen/RoundTrip.antt =====
-- `Position::set` reads back what `Position::fen` wrote.
use stockfish.Base.{
  ℕ, zero, suc, ◌+◌, ◌≤◌, ◌≡◌, refl, sym, ap, ◌∙◌, false, ◌==◌, ltb, if◌then◌else◌, List, [], ◌∷◌,
  ◌++◌, inl, inr, arith, Bool-cases, none,
}
use mathlib.Core.Path.{subst}
use mathlib.Core.List.{append_assoc}
use stockfish.Types.Board.{Color, white}
use stockfish.Position.Placement.{Placement, empty}
use stockfish.Position.Placement.Consistency.{IsPiece, IsConsistent}
use stockfish.Position.Placement.Algebra.{eq_of_board}
use stockfish.Fen.{
  start_cursor, read_placement, write_ranks, write_fields, read_fields, check_pieces, check_cursor,
  read_side,
}
use stockfish.Fen.Accepting.{
  ReadsSound, read_placement-ReadsSound, start_cursor-IsSound, after_side, after_check,
  after_pieces, read_fields_steps,
}
use stockfish.Fen.Copying.{place_ranks, men_to, ranks_read}
use stockfish.Fen.Placed.{place_ranks-due}
use stockfish.Fen.Writing.{cursor}

module _ (q : Placement) (c : IsConsistent q) (few : men_to q 7 ≤ 32) (rest : List ℕ) where
  valid : (s : ℕ) → empty q s ≡ false → IsPiece (q.board s)
  unfolding empty
  valid s h = elim (c.pieces s) [ inl e ↦ absurd (ground arith) | inr v ↦ v ]

  placed : Placement
  placed = place_ranks q 7 start_cursor.placement

  read_placed :
      read_placement (write_ranks q 7 ++ (32 ∷ rest)) start_cursor
      ≡ inr (cursor 8 0 (men_to q 7) placed, rest)
  unfolding placed
  read_placed =
      let total : 0 + men_to q 7 ≡ men_to q 7 = omega arith in
      ranks_read q rest valid 7 0 start_cursor.placement (omega arith)
      ∙ ap (λ k. inr (cursor 8 0 k (place_ranks q 7 start_cursor.placement), rest)) total

  sound_of : ReadsSound (inr (cursor 8 0 (men_to q 7) placed, rest)) → IsConsistent placed
  unfolding ReadsSound
  sound_of s = s.consistent

  placed-IsConsistent : IsConsistent placed
  placed-IsConsistent = sound_of (
      subst ReadsSound read_placed (
        read_placement-ReadsSound (write_ranks q 7 ++ (32 ∷ rest)) start_cursor
          start_cursor-IsSound))

  placed_same : placed ≡ q
  placed_same = eq_of_board placed q placed-IsConsistent c same
    where
      same : (s : ℕ) → placed.board s ≡ q.board s
      same s =
          unfold placed in
          place_ranks-due q 7 start_cursor.placement s (omega arith) (elim (Bool-cases (ltb s 64)) [
            | inl k ↦ inr (ground arith, refl)
            | inr k ↦ inl (sym (c.on_board s (ground arith)))
          ])

check_passes :
    (k : ℕ) (q : Placement) → check_pieces q ≡ none → check_cursor (cursor 8 0 k q) ≡ none
unfolding check_cursor
check_passes k q e = e

side_read :
    (us : Color) (rest : List ℕ)
    → us ≤ 1
    → read_side ((if us == white then 119 else 98) ∷ 32 ∷ rest) ≡ inr (us, rest)
unfolding read_side
side_read zero rest le = refl
side_read (suc zero) rest le = refl
side_read (suc (suc n)) rest le = absurd (omega arith)

-- The pieces and the side to move, written for a placement in which squares, sets and numbers agree,
-- with at most 32 pieces, and which passes the checks, are read back as they were, whatever follows.
pub read_fields-write_fields :
    (q : Placement) (us : Color) (rest : List ℕ)
    → IsConsistent q
    → men_to q 7 ≤ 32
    → check_pieces q ≡ none
    → us ≤ 1
    → read_fields (write_fields q us ++ rest) ≡ inr (q, us, rest)
unfolding write_fields after_pieces after_check after_side
read_fields-write_fields q us rest c few ok le =
    let side = if us == white then 119 else 98 in
    let behind = side ∷ 32 ∷ rest in
    ap read_fields (append_assoc (write_ranks q 7) (32 ∷ side ∷ 32 ∷ []) rest)
    ∙ read_fields_steps (write_ranks q 7 ++ (32 ∷ behind))
    ∙ ap after_pieces (
        read_placed q c few behind
        ∙ ap (λ p. inr (cursor 8 0 (men_to q 7) p, behind)) (placed_same q c few behind))
    ∙ ap (after_check (cursor 8 0 (men_to q 7) q) behind) (check_passes (men_to q 7) q ok)
    ∙ ap (after_side (cursor 8 0 (men_to q 7) q)) (side_read us rest le)
