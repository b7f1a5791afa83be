-- ===== src/MovePicker/Draining.antt =====
-- A whole run of `next_move` of src/engine/movepick.cpp, until it gives no move.
use stockfish.Base.{
  ℕ, zero, suc, ◌+◌, ◌≤◌, ◌≡◌, ◌↔◌, sym, ap, inl, inr, Bool, true, false, to_ℕ, if◌then◌else◌, List,
  [], ◌∷◌, arith,
}
use stockfish.Base.Filters.{tally}
use stockfish.Types.Moves.{Move}
use stockfish.MovePicker.Stages.{Node, Picker, next_move}
use stockfish.MovePicker.Pending.{pending, WellFormed}
use stockfish.MovePicker.Emission.{is_none, Emits}
use stockfish.MovePicker.Emission.Calls.{every_move, next_move-Emits}

-- What a call gives is well formed, and taken off.
module _ (node : Node) (p : Picker) (pend : (Move → Bool) → ℕ) where
  taken :
      (r : Move × Picker)
      → Emits node pend r
      → (f : Move → Bool)
      → (pend f ≡ pending node r.1 f + (if is_none r.0 then 0 else to_ℕ (f r.0)))
        × ((is_none r.0 ≡ true) ↔ (pend every_move ≡ 0))
  taken r (w, inl (e, before, after)) f =
      let none_given : is_none r.0 ≡ true = ap is_none e in
      (
        rw none_given (omega (arith, before f, after f)),
        ((λ g. before every_move), (λ g. none_given)),
      )
  taken r (w, inr (e, left)) f = (
    rw e (left f),
    ((λ g. absurd (ground arith)), (λ g. absurd (omega (arith, left every_move)))),
  )

-- Where the members are well formed and no move `none` is pending, each call keeps the members well
-- formed; the move that it gives, if any, is taken off what was pending, for every test of moves; and
-- it gives none exactly if nothing was pending.
pub next_move_takes :
    (node : Node) (p : Picker) (f : Move → Bool)
    → WellFormed p
    → pending node p is_none ≡ 0
    → WellFormed (next_move node p).1
      × (pending node p f
          ≡ pending node (next_move node p).1 f
            + (if is_none (next_move node p).0 then 0 else to_ℕ (f (next_move node p).0)))
      × ((is_none (next_move node p).0 ≡ true) ↔ (pending node p every_move ≡ 0))
next_move_takes node p f w z =
    let emits = next_move-Emits node p w z in
    let t = taken node p (pending node p) (next_move node p) emits f in (emits.0, t.0, t.1)

-- The moves of at most `n` calls.
unfoldable pub drain : ℕ → Node → Picker → List Move
drain zero node p = []
drain (suc n) node p = elim (is_none (next_move node p).0) [
  | true ↦ []
  | false ↦ (next_move node p).0 ∷ drain n node (next_move node p).1
]

drain-suc :
    (n : ℕ) (node : Node) (p : Picker)
    → is_none (next_move node p).0 ≡ false
    → drain (suc n) node p ≡ (next_move node p).0 ∷ drain n node (next_move node p).1
unfolding drain
drain-suc n node p h = ground arith

drain_stop :
    (n : ℕ) (node : Node) (p : Picker)
    → is_none (next_move node p).0 ≡ true
    → drain (suc n) node p ≡ []
unfolding drain
drain_stop n node p h = ground arith

-- By what one call gives.
module _ (node : Node) (p : Picker) where
  nothing_left :
      Emits node (pending node p) (next_move node p)
      → pending node p every_move ≡ 0
      → (f : Move → Bool) → pending node p f ≡ 0
  nothing_left (w, inl (e, before, after)) h f = before f
  nothing_left (w, inr (e, left)) h f = absurd (omega (arith, left every_move))

  drain_step :
      (n : ℕ)
      → Emits node (pending node p) (next_move node p)
      → (f : Move → Bool) → pending node p is_none ≡ 0
      → pending node p every_move ≤ suc n
      → (pending node (next_move node p).1 is_none ≡ 0
          → pending node (next_move node p).1 every_move ≤ n
          → tally f (drain n node (next_move node p).1) ≡ pending node (next_move node p).1 f)
      → tally f (drain (suc n) node p) ≡ pending node p f
  unfolding tally
  drain_step n (w, inl (e, before, after)) f z le rest =
      rw (drain_stop n node p (ap is_none e)) (sym (before f))
  drain_step n (w, inr (e, left)) f z le rest =
      rw (drain-suc n node p e)
        (omega (arith, left f, rest (omega (arith, left is_none)) (omega (arith, left every_move))))

-- From well-formed members, with no move `none` pending and as many calls as moves are pending, a run
-- gives what is pending, neither more nor less.
pub drain_complete :
    (n : ℕ) (node : Node) (p : Picker) (f : Move → Bool)
    → WellFormed p
    → pending node p is_none ≡ 0
    → pending node p every_move ≤ n
    → tally f (drain n node p) ≡ pending node p f
drain_complete zero node p f w z le =
    unfold drain in
    unfold tally in sym (nothing_left node p (next_move-Emits node p w z) (omega arith) f)
drain_complete (suc n) node p f w z le =
    let emits = next_move-Emits node p w z in
    drain_step node p n emits f z le
      (λ z' le'. drain_complete n node (next_move node p).1 f emits.0 z' le')
