-- ===== src/MovePicker/Emission/Quiets.antt =====
-- The stages of src/engine/movepick.cpp that walk the quiet moves and the bad captures.
use stockfish.Base.{
  ℕ, suc, ◌+◌, ◌≡◌, refl, sym, ap, ◌∙◌, inl, inr, Bool, true, false, Bool-cases, arith,
  if◌then◌else◌,
}
use mathlib.Core.Path.{subst}
use stockfish.Types.Moves.{Move, no_move, is_some_move}
use stockfish.MovePicker.Stages.{
  Node, Picker, Stage, select_from, only, is_bad, to_bad_quiets, walk_bad_quiets, before_cur,
  walk_bad_captures, or_next,
}
use stockfish.MovePicker.Pending.{every, slots, bad_to_come, pending}
use stockfish.MovePicker.Selecting.{moved}
use stockfish.MovePicker.Emission.{
  Count, Emits, Emits-cong, is_none, at_stage, listed, select_from-Emits, select_from-Chosen,
}

-- `*(cur - 1)` is the move that `select` returned.
pub before_cur-moved : (p : Picker) (k : ℕ) → before_cur (moved p (suc k)) ≡ (p.moves k).move
before_cur-moved p k = ap (λ i. (p.moves i).move) (omega arith)

pub is_some_of : (m : Move) → is_none m ≡ false → is_some_move m ≡ true
is_some_of m h = rw h refl

module _ (p : Picker) where
  bad_quiets_skipped : p.skip_quiets ≡ true → walk_bad_quiets p ≡ (no_move, p)
  unfolding walk_bad_quiets
  bad_quiets_skipped h = ground arith

  bad_quiets_played : p.skip_quiets ≡ false → walk_bad_quiets p ≡ select_from (only is_bad) p
  unfolding walk_bad_quiets
  bad_quiets_played h = ground arith

  bad_to_come_skipped : p.skip_quiets ≡ true → (f : Move → Bool) → bad_to_come p f ≡ 0
  unfolding bad_to_come
  bad_to_come_skipped h f = ground arith

module _ (node : Node) (p : Picker) where
  bad_quiets_none :
      p.skip_quiets ≡ true → (f : Move → Bool) → pending node (at_stage Stage.bad_quiet p) f ≡ 0
  unfolding pending
  bad_quiets_none skips f = ground arith

  bad_quiets_pending :
      p.skip_quiets ≡ false
      → (k : ℕ) (f : Move → Bool)
      → pending node (moved (at_stage Stage.bad_quiet p) k) f ≡ slots p f is_bad k p.end_cur
  unfolding pending
  bad_quiets_pending plays k f = rw plays refl

  pub walk_bad_quiets-Emits :
      pending node (at_stage Stage.bad_quiet p) is_none ≡ 0
      → Emits node
          (pending node (at_stage Stage.bad_quiet p))
          (walk_bad_quiets (at_stage Stage.bad_quiet p))
  walk_bad_quiets-Emits z = elim (Bool-cases p.skip_quiets) [
    | inl skips ↦
        rw (bad_quiets_skipped (at_stage Stage.bad_quiet p) skips)
          (tt, inl (refl, bad_quiets_none skips, bad_quiets_none skips))
    | inr plays ↦
        let q = at_stage Stage.bad_quiet p in
        let same : (f : Move → Bool) → pending node q f ≡ listed node is_bad q f =
          bad_quiets_pending plays p.cur in
        rw (bad_quiets_played q plays) (
          Emits-cong node (listed node is_bad q) (pending node q) _ same (
            select_from-Emits node is_bad q (λ k. tt) (bad_quiets_pending plays)
              (sym (same is_none) ∙ z)))
  ]

-- The stage that `to_bad_quiets` begins.
module _ (node : Node) (p : Picker) where
  pub to_bad_quiets-pending : (f : Move → Bool) → pending node (to_bad_quiets p) f ≡ bad_to_come p f
  unfolding to_bad_quiets pending bad_to_come
  to_bad_quiets-pending f = ground arith

  prepared : Picker
  prepared =
      if p.skip_quiets then p else record p { cur = p.end_captures; end_cur = p.end_generated }

  to_bad_quiets_lem : to_bad_quiets p ≡ at_stage Stage.bad_quiet prepared
  unfolding to_bad_quiets prepared
  to_bad_quiets_lem = ground arith

  to_bad_quiets-Emits :
      (pend : Count)
      → ((f : Move → Bool) → pend f ≡ bad_to_come p f)
      → pend is_none ≡ 0
      → Emits node pend (walk_bad_quiets (to_bad_quiets p))
  to_bad_quiets-Emits pend h z =
      let same : (f : Move → Bool) → pend f ≡ pending node (to_bad_quiets p) f =
        λ f. h f ∙ sym (to_bad_quiets-pending f) in
      let stage : Emits node (pending node (to_bad_quiets p)) (walk_bad_quiets (to_bad_quiets p)) =
        subst (λ q. pending node q is_none ≡ 0 → Emits node (pending node q) (walk_bad_quiets q))
          (sym to_bad_quiets_lem) (walk_bad_quiets-Emits node prepared) (sym (same is_none) ∙ z) in
      Emits-cong node (pending node (to_bad_quiets p)) pend _ same stage

-- What `or_next` does with a result of `select`.
module _ (next : Picker → Move × Picker) where
  pub or_next-none : (q : Picker) → or_next (no_move, q) next ≡ next q
  unfolding or_next
  or_next-none q = refl

  pub or_next-some :
      (p : Picker) (k : ℕ)
      → is_none (p.moves k).move ≡ false
      → or_next ((p.moves k).move, moved p (suc k)) next ≡ ((p.moves k).move, moved p (suc k))
  unfolding or_next
  or_next-some p k h = rw h (ap (λ m. (m, moved p (suc k))) (before_cur-moved p k))

module _ (node : Node) (p : Picker) where
  abbrev at_bad_captures : Picker
  at_bad_captures = at_stage Stage.bad_capture p

  bad_captures_pending :
      (k : ℕ) (f : Move → Bool)
      → pending node (moved at_bad_captures k) f ≡ slots p f every k p.end_cur + bad_to_come p f
  unfolding pending
  bad_captures_pending k f = refl

  bad_to_come_stays :
      (k : ℕ) (f : Move → Bool) → bad_to_come (moved at_bad_captures k) f ≡ bad_to_come p f
  unfolding bad_to_come
  bad_to_come_stays k f = refl

  pub walk_bad_captures-Emits :
      pending node at_bad_captures is_none ≡ 0
      → Emits node (pending node at_bad_captures) (walk_bad_captures at_bad_captures)
  unfolding walk_bad_captures
  walk_bad_captures-Emits z =
      let here = bad_captures_pending p.cur in
      let next = λ (q : Picker). walk_bad_quiets (to_bad_quiets q) in
      elim (select_from-Chosen node every at_bad_captures (omega (arith, here is_none))) [
        | inl (k, past, r, zero) ↦
            subst (λ s. Emits node (pending node at_bad_captures) (or_next s next)) (sym r)
              (rw (or_next-none next (moved at_bad_captures k)) (
                to_bad_quiets-Emits node (moved at_bad_captures k) _
                  (λ f. omega (arith, here f, zero f, bad_to_come_stays k f)) z))
        | inr (k, real, r, left) ↦
            subst (λ s. Emits node (pending node at_bad_captures) (or_next s next)) (sym r)
              (rw (or_next-some next at_bad_captures k real) (
                tt,
                inr (real, λ f. omega (arith, here f, left f, bad_captures_pending (suc k) f)),
              ))
      ]
