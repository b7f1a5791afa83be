-- ===== src/Fen/Placed.antt =====
-- The pieces of a placement put, square by square, on the empty board.
use stockfish.Base.{
  ℕ, zero, suc, ◌+◌, ◌*◌, ◌≤◌, ◌<◌, ◌≡◌, refl, sym, ap, ◌∙◌, true, false, ◌==◌, ltb, ◌⊎◌, inl, inr,
  arith, Bool-cases,
}
use stockfish.Base.Arrays.{put, put_at, put_other}
use stockfish.Types.Board.{make_square, no_piece}
use stockfish.Position.Placement.{Placement, put_piece, empty}
use stockfish.Fen.Reading.{make_square-lem}
use stockfish.Fen.Copying.{place_rank, place_empty, place_some, place_ranks}

empty-board : (q : Placement) (s : ℕ) → empty q s ≡ true → q.board s ≡ no_piece
unfolding empty
empty-board q s h = ground arith

module _ (q : Placement) (r : ℕ) (low : r ≤ 7) where
  place_rank-before :
      (n f : ℕ) (p : Placement) (s : ℕ)
      → f + n ≤ 8
      → s < 8 * r + f
      → (place_rank q r n f p).board s ≡ p.board s
  place_rank-before zero f p s le lt = unfold place_rank in refl
  place_rank-before (suc n) f p s le lt = elim (Bool-cases (empty q (make_square f r))) [
    | inl h ↦
        ap (λ t. t.board s) (place_empty q r n f p h)
        ∙ place_rank-before n (f + 1) p s (omega arith) (omega arith)
    | inr h ↦
        let at = make_square-lem f r (omega arith) low in
        let pc = q.board (make_square f r) in
        let other : (s == make_square f r) ≡ false = ground arith in
        ap (λ t. t.board s) (place_some q r n f p h)
        ∙ place_rank-before n (f + 1) (put_piece pc (make_square f r) p) s (omega arith)
            (omega arith)
        ∙ (unfold put_piece in put_other p.board (make_square f r) s pc other)
  ]

  -- A square has the piece of `q`, or it is empty and about to be written.
  abbrev Due : ℕ → ℕ → Placement → ℕ → Type 0
  Due n f p s =
      (p.board s ≡ q.board s) ⊎ ((8 * r + f ≤ s) × (s < 8 * r + f + n) × (p.board s ≡ no_piece))

  Due-empty :
      (n f : ℕ) (p : Placement) (s : ℕ)
      → f < 8
      → empty q (make_square f r) ≡ true
      → Due (suc n) f p s
      → Due n (f + 1) p s
  Due-empty n f p s lt h (inl e) = inl e
  Due-empty n f p s lt h (inr (le, up, e)) = elim (Bool-cases (s == 8 * r + f)) [
    | inl k ↦
        let at : make_square f r ≡ s = make_square-lem f r lt low ∙ ground arith in
        inl (e ∙ sym (ap q.board (sym at) ∙ empty-board q (make_square f r) h))
    | inr k ↦ inr (ground arith, omega arith, e)
  ]

  Due-some :
      (n f : ℕ) (p : Placement) (s : ℕ)
      → f < 8
      → Due (suc n) f p s
      → Due n (f + 1) (put_piece (q.board (make_square f r)) (make_square f r) p) s
  unfolding put_piece
  Due-some n f p s lt d = elim (Bool-cases (s == make_square f r)) [
    | inl k ↦
        let at : s ≡ make_square f r = ground arith in
        inl (
          ap (put p.board (make_square f r) (q.board (make_square f r))) at
          ∙ put_at p.board (make_square f r) (q.board (make_square f r))
          ∙ ap q.board (sym at))
    | inr k ↦ rest k (put_other p.board (make_square f r) s (q.board (make_square f r)) k) d
  ]
    where
      rest :
          {b : ℕ}
          → (s == make_square f r) ≡ false
          → b ≡ p.board s
          → Due (suc n) f p s
          → (b ≡ q.board s) ⊎ ((8 * r + (f + 1) ≤ s) × (s < 8 * r + (f + 1) + n) × (b ≡ no_piece))
      rest k e (inl h) = inl (e ∙ h)
      rest k e (inr (le, up, h)) =
          let at = make_square-lem f r lt low in inr (ground arith, omega arith, e ∙ h)

  place_rank-Due :
      (n f : ℕ) (p : Placement) (s : ℕ)
      → f + n ≤ 8
      → Due n f p s
      → (place_rank q r n f p).board s ≡ q.board s
  place_rank-Due zero f p s le (inl e) = unfold place_rank in e
  place_rank-Due zero f p s le (inr (a, b, e)) = absurd (omega arith)
  place_rank-Due (suc n) f p s le d = elim (Bool-cases (empty q (make_square f r))) [
    | inl h ↦
        ap (λ t. t.board s) (place_empty q r n f p h)
        ∙ place_rank-Due n (f + 1) p s (omega arith) (Due-empty n f p s (omega arith) h d)
    | inr h ↦
        ap (λ t. t.board s) (place_some q r n f p h)
        ∙ place_rank-Due n (f + 1) (put_piece (q.board (make_square f r)) (make_square f r) p) s
            (omega arith) (Due-some n f p s (omega arith) d)
  ]

pub place_ranks-due :
    (q : Placement) (r : ℕ) (p : Placement) (s : ℕ)
    → r ≤ 7
    → (p.board s ≡ q.board s) ⊎ ((s < 8 * r + 8) × (p.board s ≡ no_piece))
    → (place_ranks q r p).board s ≡ q.board s
unfolding place_ranks
place_ranks-due q zero p s le (inl e) =
    place_rank-Due q 0 (omega arith) 8 0 p s (omega arith) (inl e)
place_ranks-due q zero p s le (inr (lt, e)) =
    place_rank-Due q 0 (omega arith) 8 0 p s (omega arith) (inr (omega arith, omega arith, e))
place_ranks-due q (suc r) p s le d =
    place_ranks-due q r (place_rank q (suc r) 8 0 p) s (omega arith) (after d)
  where
    after :
        (p.board s ≡ q.board s) ⊎ ((s < 8 * suc r + 8) × (p.board s ≡ no_piece))
        → ((place_rank q (suc r) 8 0 p).board s ≡ q.board s)
          ⊎ ((s < 8 * r + 8) × ((place_rank q (suc r) 8 0 p).board s ≡ no_piece))
    after (inl e) = inl (place_rank-Due q (suc r) le 8 0 p s (omega arith) (inl e))
    after (inr (lt, e)) = elim (Bool-cases (ltb s (8 * r + 8))) [
      | inl k ↦
          inr
            (ground arith, place_rank-before q (suc r) le 8 0 p s (omega arith) (ground arith) ∙ e)
      | inr k ↦
          inl
            (place_rank-Due q (suc r) le 8 0 p s (omega arith) (inr (ground arith, omega arith, e)))
    ]
