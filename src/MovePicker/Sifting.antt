-- ===== src/MovePicker/Sifting.antt =====
-- The walk over the captures of src/engine/movepick.cpp, which puts those that lose material aside.
use stockfish.Base.{
  ℕ, zero, suc, ◌+◌, ◌-◌, ◌≤◌, ◌<◌, ◌≡◌, refl, ap, ◌∙◌, ◌⊎◌, inl, inr, Bool, true, false, ◌==◌,
  Bool-cases, to_ℕ, arith,
}
use stockfish.Base.Arrays.{
  Array, put, put_at, put_other, tally_from, tally_from_cong, tally_from-suc,
}
use stockfish.Base.Int.{neg, div_ℕ}
use stockfish.Types.Moves.{Move, no_move}
use stockfish.MoveGen.{ExtMove}
use stockfish.MovePicker.Stages.{Node, Picker, select, wins_or_keeps, here, advance}
use stockfish.MovePicker.Pending.{counts, every}
use stockfish.MovePicker.Selecting.{
  counts_tt, counts_passes, tally_from_fails, tally_from_step, select_same, select_stops,
  select_goes_on,
}

-- A swap of the element at `c` with one at `b` before it: those up to `b`, with the new one, and those
-- behind `c`.
module _ (g : ExtMove → Bool) (m : Array ExtMove) (b c : ℕ) (le : b ≤ c) where
  unfoldable pub swapped_pair : Array ExtMove
  swapped_pair = put (put m b (m c)) c (m b)

  swapped_other : (j : ℕ) → (j == b) ≡ false → (j == c) ≡ false → swapped_pair j ≡ m j
  unfolding swapped_pair
  swapped_other j h k = put_other (put m b (m c)) c j (m b) k ∙ put_other m b j (m c) h

  swapped_at : swapped_pair b ≡ m c
  unfolding swapped_pair
  swapped_at = elim (Bool-cases (b == c)) [
    | inl e ↦
        let same : b ≡ c = ground arith in
        ap (put (put m b (m c)) c (m b)) same ∙ put_at (put m b (m c)) c (m b) ∙ ap m same
    | inr e ↦ put_other (put m b (m c)) c b (m b) e ∙ put_at m b (m c)
  ]

  pub tally_from-swap :
      (n : ℕ)
      → tally_from g m 0 b + tally_from g m c (suc n)
        ≡ tally_from g swapped_pair 0 (suc b) + tally_from g swapped_pair (c + 1) n
  tally_from-swap n =
      let below : tally_from g swapped_pair 0 b ≡ tally_from g m 0 b =
        tally_from_cong g m swapped_pair 0 b
          (λ j l k. swapped_other j (ground arith) (ground arith)) in
      let behind : tally_from g swapped_pair (c + 1) n ≡ tally_from g m (c + 1) n =
        tally_from_cong g m swapped_pair (c + 1) n
          (λ j l k. swapped_other j (ground arith) (ground arith)) in
      let new : g (swapped_pair (0 + b)) ≡ g (m c) =
        ap g (ap swapped_pair (omega arith) ∙ swapped_at) in
      omega (
        arith,
        below,
        behind,
        ap to_ℕ new,
        tally_from-suc g swapped_pair 0 b,
        tally_from_step g m c n refl,
      )

abbrev pub sifted : Picker → Array ExtMove → ℕ → ℕ → Picker
sifted p a b k = record p { moves = a; end_bad_captures = b; cur = k }

-- What is put aside, and the next `n`.
abbrev pub held : Picker → ℕ → (Move → Bool) → ℕ
held p n f =
    tally_from (counts p.tt_move f every) p.moves 0 p.end_bad_captures
    + tally_from (counts p.tt_move f every) p.moves p.cur n

abbrev pub Sifted : Picker → ℕ → ℕ → Move × Picker → Type 0
Sifted p n e r =
    (a : Array ExtMove) × (b : ℕ) × (((r ≡ (no_move, sifted p a b e))
        × (b ≤ e)
        × ((f : Move → Bool) → held p n f ≡ tally_from (counts p.tt_move f every) a 0 b))
      ⊎ ((k : ℕ) × (k < e)
          × (b ≤ k)
          × (r ≡ ((a k).move, sifted p a b (suc k)))
          × ((f : Move → Bool)
              → held p n f
                ≡ tally_from (counts p.tt_move f every) a 0 b
                  + tally_from (counts p.tt_move f every) a (suc k) (e - suc k)
                  + to_ℕ (f (a k).move))))

-- A step that holds the same, and changes no other member.
step :
    (p : Picker) (q : Array ExtMove) (b n e : ℕ) (r : Move × Picker)
    → ((f : Move → Bool) → held p (suc n) f ≡ held (sifted p q b (p.cur + 1)) n f)
    → Sifted (sifted p q b (p.cur + 1)) n e r
    → Sifted p (suc n) e r
step p q b n e r h (a, b', inl s) = (a, b', inl (s.0, s.1, λ f. h f ∙ s.2 f))
step p q b n e r h (a, b', inr s) = (a, b', inr (s.0, s.1, s.2, s.3, λ f. h f ∙ s.4 f))

kept :
    (p : Picker) (n e : ℕ)
    → p.cur + suc n ≡ e
    → p.end_bad_captures ≤ p.cur
    → ((here p).move == p.tt_move) ≡ false
    → Sifted p (suc n) e ((here p).move, advance p)
kept p n e h le other =
    let rest : e - suc p.cur ≡ n = omega arith in
    let next : suc p.cur ≡ p.cur + 1 = omega arith in
    (
      p.moves,
      p.end_bad_captures,
      inr (
        p.cur,
        omega arith,
        le,
        ap (λ k. ((here p).move, sifted p p.moves p.end_bad_captures k)) (omega arith),
        λ f.
            let s =
              tally_from_step (counts p.tt_move f every) p.moves p.cur n
                (counts_passes p.tt_move f every (here p) other refl) in
            rw (rest, next) (omega (arith, s)),
      ),
    )

aside : Picker → Array ExtMove
unfolding swapped_pair
aside p = put (put p.moves p.end_bad_captures (here p)) p.cur (p.moves p.end_bad_captures)

held-aside :
    (p : Picker) (n : ℕ)
    → p.end_bad_captures ≤ p.cur
    → ((here p).move == p.tt_move) ≡ false
    → (f : Move → Bool)
    → held p (suc n) f ≡ held (sifted p (aside p) (p.end_bad_captures + 1) (p.cur + 1)) n f
unfolding aside swapped_pair
held-aside p n le other f =
    let next : p.end_bad_captures + 1 ≡ suc p.end_bad_captures = omega arith in
    rw next (tally_from-swap (counts p.tt_move f every) p.moves p.end_bad_captures p.cur le n)

keeps :
    (node : Node) (p : Picker)
    → node.see_ge (here p).move (div_ℕ (neg (here p).value) 18) ≡ true
    → wins_or_keeps node p ≡ (true, p)
unfolding wins_or_keeps
keeps node p h = rw h refl

puts_aside :
    (node : Node) (p : Picker)
    → node.see_ge (here p).move (div_ℕ (neg (here p).value) 18) ≡ false
    → wins_or_keeps node p ≡ (false, sifted p (aside p) (p.end_bad_captures + 1) p.cur)
unfolding wins_or_keeps aside
puts_aside node p h = rw h refl

pub select_sifts :
    (node : Node) (n : ℕ) (p : Picker) (e : ℕ)
    → p.cur + n ≡ e
    → p.end_bad_captures ≤ p.cur
    → Sifted p n e (select (wins_or_keeps node) n p)
unfolding select
select_sifts node zero p e h le = (
  p.moves,
  p.end_bad_captures,
  inl (
    ap (λ k. (no_move, sifted p p.moves p.end_bad_captures k)) (omega arith),
    omega arith,
    λ f. unfold tally_from in (omega arith),
  ),
)
select_sifts node (suc n) p e h le = elim (Bool-cases ((here p).move == p.tt_move)) [
  | inl same ↦ rw (select_same (wins_or_keeps node) n p same) (
      step p p.moves p.end_bad_captures n e _
        (λ f.
          ap (λ t. tally_from (counts p.tt_move f every) p.moves 0 p.end_bad_captures + t)
            (tally_from_fails (counts p.tt_move f every) p.moves p.cur n
              (counts_tt p.tt_move f every (here p) same)))
        (select_sifts node n (advance p) e (omega arith) (omega arith)))
  | inr other ↦ elim (Bool-cases (node.see_ge (here p).move (div_ℕ (neg (here p).value) 18))) [
    | inl wins ↦
        rw (select_stops (wins_or_keeps node) n p other (keeps node p wins)) (kept p n e h le other)
    | inr loses ↦ rw (select_goes_on (wins_or_keeps node) n p other (puts_aside node p loses)) (
        step p (aside p) (p.end_bad_captures + 1) n e _ (held-aside p n le other) (
          select_sifts node n (sifted p (aside p) (p.end_bad_captures + 1) (p.cur + 1)) e
            (omega arith) (omega arith)))
  ]
]
