-- ===== src/MovePicker/Emission/GoodQuiets.antt =====
-- The stage of src/engine/movepick.cpp that walks the good quiet moves, and what follows it.
use stockfish.Base.{
  ℕ, suc, ◌+◌, ◌-◌, ◌≡◌, refl, sym, ap, ◌∙◌, ◌⊎◌, inl, inr, Bool, true, false, Bool-cases, to_ℕ,
  arith, Option, some, none,
}
use mathlib.Core.Path.{subst}
use stockfish.Base.Int.{ltb_ℤ, leb_ℤ}
use stockfish.Types.Moves.{Move, no_move}
use stockfish.MovePicker.Stages.{
  Node, Picker, Stage, select_from, only, is_good, walk_bad_captures, to_bad_captures,
  pick_good_quiet, walk_good_quiets, walk_good, or_none, good_quiet_depth,
}
use stockfish.MovePicker.Pending.{
  every, slots, bad_to_come, good_to_come, pending, WellFormed, GoodFirst,
}
use stockfish.MovePicker.Emission.Quiets.{before_cur-moved, walk_bad_captures-Emits}
use stockfish.MovePicker.Selecting.{moved, walk_good_lem}
use stockfish.MovePicker.Emission.{
  some_of_count, Emits, Emits-cong, is_none, at_stage, select_from-Chosen, Chosen,
}

module _ (p : Picker) where
  or_none-none : or_none (no_move, p) ≡ (none, p)
  unfolding or_none
  or_none-none = refl

  or_none-some :
      (k : ℕ)
      → is_none (p.moves k).move ≡ false
      → or_none ((p.moves k).move, moved p (suc k)) ≡ (some (p.moves k).move, moved p (suc k))
  unfolding or_none
  or_none-some k h = rw h (ap (λ m. (some m, moved p (suc k))) (before_cur-moved p k))

-- What `pick_good_quiet` finds.
module _ (node : Node) (p : Picker) where
  abbrev at_good_quiets : Picker
  at_good_quiets = at_stage Stage.good_quiet p

  abbrev Picked : Option Move × Picker → Type 0
  Picked r =
      ((k : ℕ) × (r ≡ (none, moved at_good_quiets k)) × ((f : Move → Bool) → good_to_come p f ≡ 0))
      ⊎ ((k : ℕ) × (is_none (p.moves k).move ≡ false)
          × (r ≡ (some (p.moves k).move, moved at_good_quiets (suc k)))
          × ((f : Move → Bool)
              → good_to_come p f ≡ good_to_come (moved p (suc k)) f + to_ℕ (f (p.moves k).move))
          × WellFormed (moved at_good_quiets (suc k)))

  good_quiets_pending :
      (k : ℕ) (f : Move → Bool)
      → pending node (moved at_good_quiets k) f
        ≡ good_to_come (moved p k) f + (slots p f every 0 p.end_bad_captures + bad_to_come p f)
  unfolding pending
  good_quiets_pending k f = refl

  good_played :
      p.skip_quiets ≡ false
      → (k : ℕ) (f : Move → Bool) → good_to_come (moved p k) f ≡ slots p f is_good k p.end_cur
  unfolding good_to_come
  good_played plays k f = rw plays refl

  good_skipped : p.skip_quiets ≡ true → (f : Move → Bool) → good_to_come p f ≡ 0
  unfolding good_to_come
  good_skipped skips f = ground arith

  -- The walk that stops early.
  Picked-walking :
      p.skip_quiets ≡ false
      → GoodFirst p.moves p.cur (p.end_cur - p.cur)
      → good_to_come p is_none ≡ 0
      → Picked (walk_good (p.end_cur - p.cur) at_good_quiets)
  Picked-walking plays g z =
      elim (walk_good_lem (p.end_cur - p.cur) at_good_quiets (p.cur + (p.end_cur - p.cur)) refl g) [
        | inl (k, r, zero) ↦ inl (k, r, λ f. good_played plays p.cur f ∙ zero f)
        | inr (k, first, within, r, left, g') ↦
            let last : p.cur + (p.end_cur - p.cur) - suc k ≡ p.end_cur - suc k = omega arith in
            let left' : (f : Move → Bool)
                → good_to_come p f ≡ good_to_come (moved p (suc k)) f + to_ℕ (f (p.moves k).move) =
              λ f. rw (good_played plays p.cur f, good_played plays (suc k) f, left f, last) refl in
            inr (
              k,
              some_of_count (good_to_come p) (good_to_come (moved p (suc k))) (p.moves k).move z
                  left',
              r,
              left',
              inr (inr (subst (GoodFirst p.moves (suc k)) last g')),
            )
      ]

  -- The walk to the end, at a low depth.
  Picked-selecting :
      p.skip_quiets ≡ false
      → ltb_ℤ p.depth good_quiet_depth ≡ true
      → good_to_come p is_none ≡ 0
      → Chosen node is_good at_good_quiets (select_from (only is_good) at_good_quiets)
      → Picked (or_none (select_from (only is_good) at_good_quiets))
  Picked-selecting plays low z (inl (k, past, r, zero)) = inl (
    k,
    ap or_none r ∙ or_none-none (moved at_good_quiets k),
    λ f. good_played plays p.cur f ∙ zero f,
  )
  Picked-selecting plays low z (inr (k, real, r, left)) = inr (
    k,
    real,
    ap or_none r ∙ or_none-some at_good_quiets k real,
    λ f. rw (good_played plays p.cur f, good_played plays (suc k) f) (left f),
    inr (inl low),
  )

  pick_skipped : p.skip_quiets ≡ true → pick_good_quiet at_good_quiets ≡ (none, at_good_quiets)
  unfolding pick_good_quiet
  pick_skipped h = ground arith

  pick_low :
      p.skip_quiets ≡ false
      → leb_ℤ good_quiet_depth p.depth ≡ false
      → pick_good_quiet at_good_quiets ≡ or_none (select_from (only is_good) at_good_quiets)
  unfolding pick_good_quiet
  pick_low h k = ground arith

  pick_deep :
      p.skip_quiets ≡ false
      → leb_ℤ good_quiet_depth p.depth ≡ true
      → pick_good_quiet at_good_quiets ≡ walk_good (p.end_cur - p.cur) at_good_quiets
  unfolding pick_good_quiet
  pick_deep h k = ground arith

  picked :
      WellFormed at_good_quiets
      → good_to_come p is_none ≡ 0
      → Picked (pick_good_quiet at_good_quiets)
  picked w z = elim (Bool-cases p.skip_quiets) [
    | inl skips ↦ inl (p.cur, pick_skipped skips, good_skipped skips)
    | inr plays ↦ elim (Bool-cases (leb_ℤ good_quiet_depth p.depth)) [
      | inl deep ↦
          let g : GoodFirst p.moves p.cur (p.end_cur - p.cur) = elim w [
            | inl skips ↦ cc
            | inr (inl low) ↦ absurd (ground arith)
            | inr (inr g) ↦ g
          ] in
          subst Picked (sym (pick_deep plays deep)) (Picked-walking plays g z)
      | inr low ↦ subst Picked (sym (pick_low plays low)) (
          Picked-selecting plays (ground arith) z (
            select_from-Chosen node is_good at_good_quiets
              (sym (good_played plays p.cur is_none) ∙ z)))
    ]
  ]

  walk_finds :
      (m : Move) (q : Picker)
      → pick_good_quiet at_good_quiets ≡ (some m, q)
      → walk_good_quiets at_good_quiets ≡ (m, q)
  unfolding walk_good_quiets
  walk_finds m q h = ground arith

  walk_ends :
      (q : Picker)
      → pick_good_quiet at_good_quiets ≡ (none, q)
      → walk_good_quiets at_good_quiets ≡ walk_bad_captures (to_bad_captures q)
  unfolding walk_good_quiets
  walk_ends q h = ground arith

  restart :
      (f : Move → Bool)
      → pending node
          (at_stage Stage.bad_capture (record p { cur = 0; end_cur = p.end_bad_captures }))
          f
        ≡ slots p f every 0 p.end_bad_captures + bad_to_come p f
  unfolding pending bad_to_come
  restart f = refl

  to_bad_captures-Emits :
      (k : ℕ)
      → ((f : Move → Bool) → good_to_come p f ≡ 0)
      → pending node at_good_quiets is_none ≡ 0
      → Emits node
          (pending node at_good_quiets)
          (walk_bad_captures (to_bad_captures (moved at_good_quiets k)))
  unfolding to_bad_captures
  to_bad_captures-Emits k zero z =
      let q = record p { cur = 0; end_cur = p.end_bad_captures } in
      let same : (f : Move → Bool)
          → pending node at_good_quiets f ≡ pending node (at_stage Stage.bad_capture q) f =
        λ f. omega (arith, zero f, good_quiets_pending p.cur f, restart f) in
      Emits-cong node (pending node (at_stage Stage.bad_capture q)) _ _ same
        (walk_bad_captures-Emits node q (sym (same is_none) ∙ z))

  pub walk_good_quiets-Emits :
      WellFormed at_good_quiets
      → pending node at_good_quiets is_none ≡ 0
      → Emits node (pending node at_good_quiets) (walk_good_quiets at_good_quiets)
  walk_good_quiets-Emits w z =
      let good = good_quiets_pending p.cur in
      elim (picked w (omega (arith, good is_none))) [
        | inl (k, r, zero) ↦
            subst (Emits node (pending node at_good_quiets)) (sym (walk_ends _ r))
              (to_bad_captures-Emits k zero z)
        | inr (k, real, r, left, w') ↦
            subst (Emits node (pending node at_good_quiets)) (sym (walk_finds _ _ r))
              (w', inr (real, λ f. omega (arith, good f, left f, good_quiets_pending (suc k) f)))
      ]
