-- ===== src/MovePicker/Emission.antt =====
-- What a call of src/engine/movepick.cpp gives is taken off what is pending. Here: the walks over a
-- list, and the last two stages of the main search.
pub mod Calls
pub mod GoodQuiets
pub mod Quiets
pub mod Starting
pub mod Written
use stockfish.Base.{
  ℕ, suc, ◌+◌, ◌-◌, ◌≤◌, ◌<◌, ◌≡◌, refl, sym, ap, ◌∙◌, ◌⊎◌, inl, inr, Bool, true, false, ◌==◌,
  Bool-cases, to_ℕ, arith, if◌then◌else◌,
}
use stockfish.Base.Arrays.{tally_from}
use stockfish.Types.Moves.{Move, no_move}
use stockfish.MoveGen.{ExtMove}
use stockfish.MovePicker.Stages.{
  Node, Picker, Stage, select, select_from, only, is_bad, to_bad_quiets, walk_bad_quiets,
  walk_bad_captures,
}
use stockfish.MovePicker.Pending.{counts, every, slots, bad_to_come, pending, WellFormed}
use stockfish.MovePicker.Selecting.{moved, select_only, Selected}

abbrev pub Count : Type 0
Count = (Move → Bool) → ℕ

abbrev pub is_none : Move → Bool
is_none m = m == no_move

abbrev pub at_stage : Stage → Picker → Picker
at_stage s p = record p { stage = s }

-- A result of a call, where `pend` was to come before: no move, and nothing was or is to come; or a
-- move, which is taken off.
abbrev pub Emits : Node → Count → Move × Picker → Type 0
Emits node pend r =
    WellFormed r.1
    × (((r.0 ≡ no_move)
          × ((f : Move → Bool) → pend f ≡ 0)
          × ((f : Move → Bool) → pending node r.1 f ≡ 0))
        ⊎ ((is_none r.0 ≡ false)
            × ((f : Move → Bool) → pend f ≡ pending node r.1 f + to_ℕ (f r.0))))

pub Emits-cong :
    (node : Node) (pend pend' : Count) (r : Move × Picker)
    → ((f : Move → Bool) → pend' f ≡ pend f)
    → Emits node pend r
    → Emits node pend' r
Emits-cong node pend pend' r h (w, inl e) = (w, inl (e.0, λ f. h f ∙ e.1 f, e.2))
Emits-cong node pend pend' r h (w, inr e) = (w, inr (e.0, λ f. h f ∙ e.1 f))

-- A move that is counted is none only if a none was counted.
pub some_of_count :
    (pend rest : Count) (m : Move)
    → pend is_none ≡ 0
    → ((f : Move → Bool) → pend f ≡ rest f + to_ℕ (f m))
    → is_none m ≡ false
some_of_count pend rest m z h = elim (Bool-cases (is_none m)) [
  | inl e ↦ absurd (omega (arith, h is_none, ap to_ℕ e))
  | inr e ↦ e
]

module _ (node : Node) (c : ExtMove → Bool) (p : Picker) where
  abbrev listed : Count
  listed f = slots p f c p.cur p.end_cur

  -- What `select` finds: nothing, at the end of the list, or the move of a slot.
  abbrev pub Chosen : Move × Picker → Type 0
  Chosen r =
      ((k : ℕ) × (p.end_cur ≤ k) × (r ≡ (no_move, moved p k)) × ((f : Move → Bool) → listed f ≡ 0))
      ⊎ ((k : ℕ) × (is_none (p.moves k).move ≡ false)
          × (r ≡ ((p.moves k).move, moved p (suc k)))
          × ((f : Move → Bool)
              → listed f ≡ slots p f c (suc k) p.end_cur + to_ℕ (f (p.moves k).move)))

  chosen :
      (r : Move × Picker)
      → listed is_none ≡ 0
      → Selected c p (p.end_cur - p.cur) (p.cur + (p.end_cur - p.cur)) r
      → Chosen r
  chosen r z (inl s) = inl (p.cur + (p.end_cur - p.cur), omega arith, s.0, s.1)
  chosen r z (inr s) =
      let k = s.0 in
      let first : p.cur ≤ k = s.1 in
      let within : k < p.cur + (p.end_cur - p.cur) = s.2 in
      let last : p.cur + (p.end_cur - p.cur) - suc k ≡ p.end_cur - suc k = omega arith in
      let left : (f : Move → Bool)
          → listed f ≡ slots p f c (suc k) p.end_cur + to_ℕ (f (p.moves k).move) =
        λ f.
          s.4 f
          ∙ ap
              (λ n. tally_from (counts p.tt_move f c) p.moves (suc k) n + to_ℕ (f (p.moves k).move))
              last in
      inr (
        k,
        some_of_count listed (λ f. slots p f c (suc k) p.end_cur) (p.moves k).move z left,
        s.3,
        left,
      )

  pub select_from-Chosen : listed is_none ≡ 0 → Chosen (select_from (only c) p)
  unfolding select_from
  select_from-Chosen z =
      chosen _ z (select_only c (p.end_cur - p.cur) p (p.cur + (p.end_cur - p.cur)) refl)

  pub slots_past : (k : ℕ) (f : Move → Bool) → p.end_cur ≤ k → slots p f c k p.end_cur ≡ 0
  unfolding tally_from
  slots_past k f h =
      let none_left : p.end_cur - k ≡ 0 = omega arith in
      ap (tally_from (counts p.tt_move f c) p.moves k) none_left

  -- A stage that walks a list, and nothing else.
  module _ (keeps : (k : ℕ) → WellFormed (moved p k))
      (walks : (k : ℕ) (f : Move → Bool)
        → pending node (moved p k) f ≡ slots p f c k p.end_cur) where
    Chosen-Emits : (r : Move × Picker) → Chosen r → Emits node listed r
    Chosen-Emits r (inl s) =
        rw (s.2) (keeps s.0, inl (refl, s.3, λ f. walks s.0 f ∙ slots_past s.0 f s.1))
    Chosen-Emits r (inr s) = rw (s.2) (
      keeps (suc s.0),
      inr (s.1, λ f. s.3 f ∙ ap (λ n. n + to_ℕ (f (p.moves s.0).move)) (sym (walks (suc s.0) f))),
    )

    pub select_from-Emits : listed is_none ≡ 0 → Emits node listed (select_from (only c) p)
    select_from-Emits z = Chosen-Emits _ (select_from-Chosen z)
