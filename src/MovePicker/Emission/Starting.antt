-- ===== src/MovePicker/Emission/Starting.antt =====
-- The stages of src/engine/movepick.cpp that generate a list and go on to walk it.
use stockfish.Base.{
  ℕ, suc, ◌+◌, ◌-◌, ◌≤◌, ◌≡◌, refl, sym, ap, ◌∙◌, inl, inr, Bool, true, false, Bool-cases, to_ℕ,
  arith,
}
use mathlib.Core.Path.{subst}
use stockfish.Base.Lists.{length}
use stockfish.Base.Arrays.{Array, tally_from, tally_from_cong, write_at, write_at-below}
use stockfish.Base.Int.{pos, neg, leb_ℤ, ◌*ℤ◌}
use stockfish.Types.Moves.{Move}
use stockfish.MoveGen.{ExtMove}
use stockfish.MovePicker.Sorting.{sort_all}
use stockfish.MovePicker.Stages.{
  Node, Picker, Stage, is_good, is_bad, good_quiet_depth, init_quiets, init_captures, init_evasions,
  select_from, start_quiets, walk_good_quiets, or_next, pick_good_capture,
}
use stockfish.MovePicker.Pending.{
  counts, every, slots, fresh, quiets_to_come, bad_to_come, good_to_come, pending, IsOrdered,
  WellFormed,
}
use stockfish.MovePicker.Emission.{Count, Emits, Emits-cong, is_none, at_stage, some_of_count}
use stockfish.MovePicker.Emission.Quiets.{or_next-none, or_next-some}
use stockfish.MovePicker.Sifting.{Sifted, sifted, select_sifts}
use stockfish.MovePicker.Emission.GoodQuiets.{walk_good_quiets-Emits}
use stockfish.MovePicker.Emission.Written.{
  tally_from-sorted, tally_from-partly_sorted, tally_good_bad, GoodFirst-sorted,
}

-- The stage that generates the quiet moves, behind `p.cur` captures.
module _ (node : Node) (p : Picker) (kept : p.end_bad_captures ≤ p.cur)
    (at : p.cur ≡ p.end_captures) where
  abbrev quiets_start : Count
  quiets_start f = slots p f every 0 p.end_bad_captures + quiets_to_come node p f

  start_skipped :
      p.skip_quiets ≡ true → start_quiets node p ≡ walk_good_quiets (at_stage Stage.good_quiet p)
  unfolding start_quiets
  start_skipped h = ground arith

  start_played :
      p.skip_quiets ≡ false
      → start_quiets node p ≡ walk_good_quiets (at_stage Stage.good_quiet (init_quiets node p))
  unfolding start_quiets
  start_played h = ground arith

  skipped_pending :
      p.skip_quiets ≡ true
      → (f : Move → Bool) → quiets_start f ≡ pending node (at_stage Stage.good_quiet p) f
  unfolding pending good_to_come bad_to_come quiets_to_come
  skipped_pending h f = ground arith

  -- The slots after the quiet moves are written.
  laid_out :
      (f : Move → Bool) (c : ExtMove → Bool)
      → slots (init_quiets node p) f c p.cur (p.cur + length node.quiets) ≡ fresh p f c node.quiets
  unfolding init_quiets
  laid_out f c =
      let size : p.cur + length node.quiets - p.cur ≡ length node.quiets = omega arith in
      rw size (
        tally_from-partly_sorted (counts p.tt_move f c) p.moves p.cur node.quiets
          (neg (pos 3560 *ℤ p.depth)))

  bad_captures_stay :
      (f : Move → Bool)
      → slots (init_quiets node p) f every 0 p.end_bad_captures
        ≡ slots p f every 0 p.end_bad_captures
  unfolding init_quiets
  bad_captures_stay f =
      tally_from_cong (counts p.tt_move f every) p.moves _ 0 (p.end_bad_captures - 0)
        (λ j l k. write_at-below p.moves p.cur _ j (omega arith))

  played_parts :
      p.skip_quiets ≡ false
      → (f : Move → Bool)
      → pending node (at_stage Stage.good_quiet (init_quiets node p)) f
        ≡ slots (init_quiets node p) f is_good p.cur (p.cur + length node.quiets)
          + (slots (init_quiets node p) f every 0 p.end_bad_captures
              + slots (init_quiets node p) f is_bad p.end_captures (p.cur + length node.quiets))
  unfolding pending good_to_come bad_to_come init_quiets
  played_parts plays f = rw plays refl

  played_quiets :
      p.skip_quiets ≡ false
      → (f : Move → Bool) → quiets_to_come node p f ≡ fresh p f every node.quiets
  unfolding quiets_to_come
  played_quiets plays f = rw plays refl

  ordered : IsOrdered (at_stage Stage.good_quiet (init_quiets node p))
  unfolding init_quiets
  ordered = elim (Bool-cases (leb_ℤ good_quiet_depth p.depth)) [
    | inl deep ↦
        let size : p.cur + length node.quiets - p.cur ≡ length node.quiets = omega arith in
        inr (rw size (GoodFirst-sorted p.depth p.moves p.cur node.quiets deep))
    | inr low ↦ inl (ground arith)
  ]

  played_pending :
      p.skip_quiets ≡ false
      → (f : Move → Bool)
      → quiets_start f ≡ pending node (at_stage Stage.good_quiet (init_quiets node p)) f
  played_pending plays f =
      let bad : slots (init_quiets node p) f is_bad p.end_captures (p.cur + length node.quiets)
          ≡ fresh p f is_bad node.quiets =
        subst
          (λ i.
            slots (init_quiets node p) f is_bad i (p.cur + length node.quiets)
            ≡ fresh p f is_bad node.quiets)
          at (laid_out f is_bad) in
      omega (
        arith,
        played_parts plays f,
        laid_out f is_good,
        bad,
        bad_captures_stay f,
        played_quiets plays f,
        tally_good_bad p.tt_move f node.quiets,
      )

  pub start_quiets-Emits : quiets_start is_none ≡ 0 → Emits node quiets_start (start_quiets node p)
  start_quiets-Emits z = elim (Bool-cases p.skip_quiets) [
    | inl skips ↦ subst (Emits node quiets_start) (sym (start_skipped skips)) (
        Emits-cong node (pending node (at_stage Stage.good_quiet p)) quiets_start _
          (skipped_pending skips)
          (walk_good_quiets-Emits node p (inl skips) (sym (skipped_pending skips is_none) ∙ z)))
    | inr plays ↦
        let q = init_quiets node p in
        subst (Emits node quiets_start) (sym (start_played plays)) (
          Emits-cong node (pending node (at_stage Stage.good_quiet q)) quiets_start _
            (played_pending plays)
            (walk_good_quiets-Emits node q (inr ordered) (sym (played_pending plays is_none) ∙ z)))
  ]

from_start :
    (g : ExtMove → Bool) (a : Array ExtMove) (n : ℕ) → tally_from g a 0 (n - 0) ≡ tally_from g a 0 n
from_start g a n = ap (tally_from g a 0) (omega arith)

module _ (node : Node) (p : Picker) where
  abbrev at_good_captures : Picker
  at_good_captures = at_stage Stage.good_capture p

  good_captures_pending :
      (f : Move → Bool)
      → pending node at_good_captures f
        ≡ slots p f every 0 p.end_bad_captures
          + slots p f every p.cur p.end_cur
          + quiets_to_come node p f
  unfolding pending quiets_to_come
  good_captures_pending f = refl

  pending-sifted :
      (a : Array ExtMove) (b k : ℕ) (f : Move → Bool)
      → pending node (sifted at_good_captures a b k) f
        ≡ tally_from (counts p.tt_move f every) a 0 b
          + tally_from (counts p.tt_move f every) a k (p.end_cur - k)
          + quiets_to_come node p f
  unfolding pending quiets_to_come
  pending-sifted a b k f =
      ap
        (λ n.
          n + tally_from (counts p.tt_move f every) a k (p.end_cur - k) + quiets_to_come node p f)
        (from_start (counts p.tt_move f every) a b)

  sifted_stays :
      (a : Array ExtMove) (b k : ℕ) (f : Move → Bool)
      → quiets_to_come node (at_stage Stage.quiet_init (sifted at_good_captures a b k)) f
        ≡ quiets_to_come node p f
  unfolding quiets_to_come
  sifted_stays a b k f = refl

  module _ (w : WellFormed at_good_captures) (z : pending node at_good_captures is_none ≡ 0) where
    size : p.cur + (p.end_cur - p.cur) ≡ p.end_cur
    size = omega (arith, w.1)

    good_captures-Emits :
        (r : Move × Picker)
        → Sifted at_good_captures (p.end_cur - p.cur) p.end_cur r
        → Emits node
            (pending node at_good_captures)
            (or_next r (λ q. start_quiets node (record q { stage = Stage.quiet_init })))
    good_captures-Emits r (a, b, inl (e, le, same)) =
        let q = record (sifted at_good_captures a b p.end_cur) { stage = Stage.quiet_init } in
        let next = λ (q : Picker). start_quiets node (record q { stage = Stage.quiet_init }) in
        let at : p.end_cur ≡ p.end_captures = w.2 in
        let left : (f : Move → Bool)
            → pending node at_good_captures f ≡ quiets_start node q le at f =
          λ f. omega (
            arith,
            good_captures_pending f,
            same f,
            from_start (counts p.tt_move f every) p.moves p.end_bad_captures,
            from_start (counts p.tt_move f every) a b,
            sifted_stays a b p.end_cur f,
          ) in
        subst (λ s. Emits node (pending node at_good_captures) (or_next s next)) (sym e)
          (rw (or_next-none next (sifted at_good_captures a b p.end_cur)) (
            Emits-cong node (quiets_start node q le at) _ _ left
              (start_quiets-Emits node q le at (sym (left is_none) ∙ z))))
    good_captures-Emits r (a, b, inr (k, within, le, e, same)) =
        let q = sifted at_good_captures a b (suc k) in
        let next = λ (q : Picker). start_quiets node (record q { stage = Stage.quiet_init }) in
        let left : (f : Move → Bool)
            → pending node at_good_captures f ≡ pending node q f + to_ℕ (f (a k).move) =
          λ f. omega (
            arith,
            good_captures_pending f,
            same f,
            from_start (counts p.tt_move f every) p.moves p.end_bad_captures,
            pending-sifted a b (suc k) f,
          ) in
        let real =
          some_of_count (pending node at_good_captures) (pending node q) (a k).move z left in
        subst (λ s. Emits node (pending node at_good_captures) (or_next s next)) (sym e)
          (rw (or_next-some next q k real) ((omega arith, omega arith, w.2), inr (real, left)))

    pub pick_good_capture-Emits :
        Emits node (pending node at_good_captures) (pick_good_capture node at_good_captures)
    unfolding pick_good_capture select_from
    pick_good_capture-Emits =
        good_captures-Emits _
          (select_sifts node (p.end_cur - p.cur) at_good_captures p.end_cur size w.0)

-- The lists that are written at the start of `moves`.
module _ (node : Node) (p : Picker) where
  pub init_captures-pending :
      (s : Stage) (f : Move → Bool) (c : ExtMove → Bool)
      → slots (init_captures node s p) f c 0 (length node.captures) ≡ fresh p f c node.captures
  unfolding init_captures
  init_captures-pending s f c =
      from_start (counts p.tt_move f c) (write_at p.moves 0 (sort_all node.captures))
        (length node.captures)
      ∙ tally_from-sorted (counts p.tt_move f c) p.moves 0 node.captures

  pub init_evasions-pending :
      (f : Move → Bool)
      → slots (init_evasions node p) f every 0 (length node.evasions)
        ≡ fresh p f every node.evasions
  unfolding init_evasions
  init_evasions-pending f =
      from_start (counts p.tt_move f every) (write_at p.moves 0 (sort_all node.evasions))
        (length node.evasions)
      ∙ tally_from-sorted (counts p.tt_move f every) p.moves 0 node.evasions
