-- ===== src/MovePicker/Selecting.antt =====
-- What the loops of src/engine/movepick.cpp that walk a list find, and what they leave for later.
use stockfish.Base.{
  ℕ, zero, suc, ◌+◌, ◌-◌, ◌≤◌, ◌<◌, ◌≡◌, refl, ap, ◌∙◌, ◌⊎◌, inl, inr, Bool, true, false, ◌==◌,
  Bool-cases, to_ℕ, Option, some, none, arith,
}
use stockfish.Base.Arrays.{Array, tally_from}
use stockfish.Base.Int.{leb_ℤ}
use stockfish.Types.Moves.{Move, no_move}
use stockfish.MoveGen.{ExtMove}
use stockfish.MovePicker.Stages.{
  Picker, select, only, here, advance, walk_good, is_good, good_quiet_threshold,
}
use stockfish.MovePicker.Pending.{counts, GoodFirst, AllBad}

module _ (g : ExtMove → Bool) (a : Array ExtMove) (i n : ℕ) where
  pub tally_from_fails : g (a i) ≡ false → tally_from g a i (suc n) ≡ tally_from g a (i + 1) n
  unfolding tally_from
  tally_from_fails h = omega (arith, ap to_ℕ h)

  pub tally_from_step :
      {b : Bool} → g (a i) ≡ b → tally_from g a i (suc n) ≡ tally_from g a (i + 1) n + to_ℕ b
  unfolding tally_from
  tally_from_step h = omega (arith, ap to_ℕ h)

-- A turn of `select`, by what its filter answers.
module _ (filter : Picker → Bool × Picker) (n : ℕ) (p : Picker) where
  pub select_same :
      ((here p).move == p.tt_move) ≡ true → select filter (suc n) p ≡ select filter n (advance p)
  unfolding select
  select_same h = rw (h, select) refl

  module _ {q : Picker} (other : ((here p).move == p.tt_move) ≡ false) where
    pub select_stops : filter p ≡ (true, q) → select filter (suc n) p ≡ ((here q).move, advance q)
    unfolding select
    select_stops h = ground arith

    pub select_goes_on :
        filter p ≡ (false, q) → select filter (suc n) p ≡ select filter n (advance q)
    unfolding select
    select_goes_on h = ground arith

abbrev pub moved : Picker → ℕ → Picker
moved p k = record p { cur = k }

module _ (tt : Move) (f : Move → Bool) (c : ExtMove → Bool) (x : ExtMove) where
  pub counts_tt : (x.move == tt) ≡ true → counts tt f c x ≡ false
  unfolding counts
  counts_tt h = rw h refl

  pub counts_fails : c x ≡ false → counts tt f c x ≡ false
  unfolding counts
  counts_fails h = ground arith

  pub counts_passes : (x.move == tt) ≡ false → c x ≡ true → counts tt f c x ≡ f x.move
  unfolding counts
  counts_passes h k = rw (h, k) refl

module _ (c : ExtMove → Bool) where
  -- At the end `e` of the list nothing counted is left; else the first counted is taken.
  abbrev pub Selected : Picker → ℕ → ℕ → Move × Picker → Type 0
  Selected p n e r =
      ((r ≡ (no_move, moved p e))
        × ((f : Move → Bool) → tally_from (counts p.tt_move f c) p.moves p.cur n ≡ 0))
      ⊎ ((k : ℕ) × (p.cur ≤ k)
          × (k < e)
          × (r ≡ ((p.moves k).move, moved p (suc k)))
          × ((f : Move → Bool)
              → tally_from (counts p.tt_move f c) p.moves p.cur n
                ≡ tally_from (counts p.tt_move f c) p.moves (suc k) (e - suc k)
                  + to_ℕ (f (p.moves k).move)))

  skipped :
      (p : Picker) (n e : ℕ) (r : Move × Picker)
      → ((f : Move → Bool) → counts p.tt_move f c (here p) ≡ false)
      → Selected (advance p) n e r
      → Selected p (suc n) e r
  skipped p n e r h (inl s) =
      inl (s.0, λ f. tally_from_fails (counts p.tt_move f c) p.moves p.cur n (h f) ∙ s.1 f)
  skipped p n e r h (inr s) = inr (
    s.0,
    omega (arith, s.1),
    s.2,
    s.3,
    λ f. tally_from_fails (counts p.tt_move f c) p.moves p.cur n (h f) ∙ s.4 f,
  )

  taken :
      (p : Picker) (n e : ℕ)
      → p.cur + suc n ≡ e
      → ((here p).move == p.tt_move) ≡ false
      → c (here p) ≡ true
      → Selected p (suc n) e ((here p).move, advance p)
  taken p n e h other passes = inr (
    p.cur,
    omega arith,
    omega arith,
    ap (λ k. ((here p).move, moved p k)) (omega arith),
    λ f.
        let rest : e - suc p.cur ≡ n = omega arith in
        let next : suc p.cur ≡ p.cur + 1 = omega arith in
        rw (rest, next)
          (tally_from_step (counts p.tt_move f c) p.moves p.cur n
            (counts_passes p.tt_move f c (here p) other passes)),
  )

  pub select_only :
      (n : ℕ) (p : Picker) (e : ℕ) → p.cur + n ≡ e → Selected p n e (select (only c) n p)
  unfolding select tally_from
  select_only zero p e h = inl (ap (λ k. (no_move, moved p k)) (omega arith), λ f. refl)
  select_only (suc n) p e h = elim (Bool-cases ((here p).move == p.tt_move)) [
    | inl same ↦
        rw (same, select)
          (skipped p n e _ (λ f. counts_tt p.tt_move f c (here p) same)
            (select_only n (advance p) e (omega arith)))
    | inr other ↦ elim (Bool-cases (c (here p))) [
      | inl passes ↦ rw (other, passes, select) (taken p n e h other passes)
      | inr fails ↦
          rw (other, fails, select)
            (skipped p n e _ (λ f. counts_fails p.tt_move f c (here p) fails)
              (select_only n (advance p) e (omega arith)))
    ]
  ]

AllBad-tally :
    (tt : Move) (f : Move → Bool) (a : Array ExtMove) (i n : ℕ)
    → AllBad a i n
    → tally_from (counts tt f is_good) a i n ≡ 0
AllBad-tally tt f a i zero h = unfold tally_from in refl
AllBad-tally tt f a i (suc n) h =
    tally_from_fails (counts tt f is_good) a i n (counts_fails tt f is_good (a i) h.0)
    ∙ AllBad-tally tt f a (i + 1) n h.1

-- Where the walk ends with no move, no good move is left.
abbrev pub Walked : Picker → ℕ → ℕ → Option Move × Picker → Type 0
Walked p n e r =
    ((k : ℕ) × (r ≡ (none, moved p k))
      × ((f : Move → Bool) → tally_from (counts p.tt_move f is_good) p.moves p.cur n ≡ 0))
    ⊎ ((k : ℕ) × (p.cur ≤ k)
        × (k < e)
        × (r ≡ (some (p.moves k).move, moved p (suc k)))
        × ((f : Move → Bool)
            → tally_from (counts p.tt_move f is_good) p.moves p.cur n
              ≡ tally_from (counts p.tt_move f is_good) p.moves (suc k) (e - suc k)
                + to_ℕ (f (p.moves k).move))
        × GoodFirst p.moves (suc k) (e - suc k))

Walked-past :
    (p : Picker) (n e : ℕ) (r : Option Move × Picker)
    → ((here p).move == p.tt_move) ≡ true
    → Walked (advance p) n e r
    → Walked p (suc n) e r
Walked-past p n e r h (inl s) = inl (
  s.0,
  s.1,
  λ f.
      tally_from_fails (counts p.tt_move f is_good) p.moves p.cur n
        (counts_tt p.tt_move f is_good (here p) h)
      ∙ s.2 f,
)
Walked-past p n e r h (inr s) = inr (
  s.0,
  omega (arith, s.1),
  s.2,
  s.3,
  λ f.
      tally_from_fails (counts p.tt_move f is_good) p.moves p.cur n
        (counts_tt p.tt_move f is_good (here p) h)
      ∙ s.4 f,
  s.5,
)

walk_stops :
    (p : Picker) (n e : ℕ)
    → leb_ℤ (here p).value good_quiet_threshold ≡ true
    → GoodFirst p.moves p.cur (suc n)
    → Walked p (suc n) e (none, p)
walk_stops p n e h g =
    let bad : is_good (here p) ≡ false = ground arith in
    let rest : AllBad p.moves (p.cur + 1) n = elim g.0 [ inl good ↦ cc | inr all ↦ all ] in
    inl (
      p.cur,
      refl,
      λ f.
          tally_from_fails (counts p.tt_move f is_good) p.moves p.cur n
            (counts_fails p.tt_move f is_good (here p) bad)
          ∙ AllBad-tally p.tt_move f p.moves (p.cur + 1) n rest,
    )

walk_takes :
    (p : Picker) (n e : ℕ)
    → p.cur + suc n ≡ e
    → leb_ℤ (here p).value good_quiet_threshold ≡ false
    → ((here p).move == p.tt_move) ≡ false
    → GoodFirst p.moves p.cur (suc n)
    → Walked p (suc n) e (some (here p).move, advance p)
walk_takes p n e h good other g =
    let rest : e - suc p.cur ≡ n = omega arith in
    let next : suc p.cur ≡ p.cur + 1 = omega arith in
    let passes : is_good (here p) ≡ true = ground arith in
    inr (
      p.cur,
      omega arith,
      omega arith,
      ap (λ k. (some (here p).move, moved p k)) (omega arith),
      λ f.
          rw (rest, next)
            (tally_from_step (counts p.tt_move f is_good) p.moves p.cur n
              (counts_passes p.tt_move f is_good (here p) other passes)),
      rw (rest, next) g.1,
    )

pub walk_good_lem :
    (n : ℕ) (p : Picker) (e : ℕ)
    → p.cur + n ≡ e
    → GoodFirst p.moves p.cur n
    → Walked p n e (walk_good n p)
unfolding walk_good tally_from
walk_good_lem zero p e h g = inl (p.cur, refl, λ f. refl)
walk_good_lem (suc n) p e h g = elim (Bool-cases (leb_ℤ (here p).value good_quiet_threshold)) [
  | inl stop ↦ rw (stop, walk_good) (walk_stops p n e stop g)
  | inr good ↦ elim (Bool-cases ((here p).move == p.tt_move)) [
    | inl same ↦
        rw (good, same, walk_good)
          (Walked-past p n e _ same (walk_good_lem n (advance p) e (omega arith) g.1))
    | inr other ↦ rw (good, other, walk_good) (walk_takes p n e h good other g)
  ]
]
