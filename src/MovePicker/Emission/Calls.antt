-- ===== src/MovePicker/Emission/Calls.antt =====
-- `next_move` of src/engine/movepick.cpp: every call, at every stage.
use stockfish.Base.{◌+◌, ◌≡◌, refl, sym, ◌∙◌, inr, Bool, true, to_ℕ, arith}
use stockfish.Base.Arrays.{tally_from}
use stockfish.Types.Moves.{Move}
use stockfish.MovePicker.Stages.{
  Node, Picker, Stage, next_move, init_captures, init_evasions, pick_any, pick_probcut,
}
use stockfish.MovePicker.Pending.{every, wins, quiets_to_come, pending, WellFormed}
use stockfish.MovePicker.Emission.{
  Emits, Emits-cong, is_none, at_stage, some_of_count, select_from-Emits,
}
use stockfish.MovePicker.Emission.Quiets.{walk_bad_captures-Emits, walk_bad_quiets-Emits}
use stockfish.MovePicker.Emission.GoodQuiets.{walk_good_quiets-Emits}
use stockfish.MovePicker.Emission.Starting.{
  start_quiets-Emits, pick_good_capture-Emits, init_captures-pending, init_evasions-pending,
}

abbrev pub every_move : Move → Bool
every_move m = true

module _ (node : Node) (p : Picker) where
  abbrev Held : Stage → Type 0
  Held s =
      WellFormed (at_stage s p)
      → pending node (at_stage s p) is_none ≡ 0
      → Emits node (pending node (at_stage s p)) (next_move node (at_stage s p))

  -- The move of the table; `after` is its next stage.
  gives_tt_move :
      (s after : Stage)
      → WellFormed (at_stage after p)
      → ((f : Move → Bool)
          → pending node (at_stage s p) f ≡ to_ℕ (f p.tt_move) + pending node (at_stage after p) f)
      → pending node (at_stage s p) is_none ≡ 0
      → Emits node (pending node (at_stage s p)) (p.tt_move, at_stage after p)
  gives_tt_move s after w h z =
      let left : (f : Move → Bool)
          → pending node (at_stage s p) f ≡ pending node (at_stage after p) f + to_ℕ (f p.tt_move) =
        λ f. omega (arith, h f) in
      (w, inr (some_of_count _ _ p.tt_move z left, left))

  at_evasion : Held Stage.evasion
  unfolding next_move pick_any pending
  at_evasion w z = select_from-Emits node every (at_stage Stage.evasion p) (λ k. tt) (λ k f. refl) z

  at_qcapture : Held Stage.qcapture
  unfolding next_move pick_any pending
  at_qcapture w z =
      select_from-Emits node every (at_stage Stage.qcapture p) (λ k. tt) (λ k f. refl) z

  at_probcut : Held Stage.probcut
  unfolding next_move pick_probcut pending
  at_probcut w z =
      select_from-Emits node (wins node p) (at_stage Stage.probcut p) (λ k. tt) (λ k f. refl) z

  at_main_tt : Held Stage.main_tt
  unfolding next_move pending
  at_main_tt w z = gives_tt_move Stage.main_tt Stage.capture_init tt (λ f. refl) z

  at_evasion_tt : Held Stage.evasion_tt
  unfolding next_move pending
  at_evasion_tt w z = gives_tt_move Stage.evasion_tt Stage.evasion_init tt (λ f. refl) z

  at_probcut_tt : Held Stage.probcut_tt
  unfolding next_move pending
  at_probcut_tt w z = gives_tt_move Stage.probcut_tt Stage.probcut_init tt (λ f. refl) z

  at_qsearch_tt : Held Stage.qsearch_tt
  unfolding next_move pending
  at_qsearch_tt w z = gives_tt_move Stage.qsearch_tt Stage.qcapture_init tt (λ f. refl) z

  at_good_capture : Held Stage.good_capture
  unfolding next_move
  at_good_capture w z = pick_good_capture-Emits node p w z

  at_quiet_init : Held Stage.quiet_init
  unfolding next_move pending quiets_to_come
  at_quiet_init w z = start_quiets-Emits node (at_stage Stage.quiet_init p) w.0 w.1 z

  at_good_quiet : Held Stage.good_quiet
  unfolding next_move
  at_good_quiet w z = walk_good_quiets-Emits node p w z

  at_bad_capture : Held Stage.bad_capture
  unfolding next_move
  at_bad_capture w z = walk_bad_captures-Emits node p z

  at_bad_quiet : Held Stage.bad_quiet
  unfolding next_move
  at_bad_quiet w z = walk_bad_quiets-Emits node p z

  capture_init_same :
      (f : Move → Bool)
      → pending node (at_stage Stage.capture_init p) f
        ≡ pending node (init_captures node Stage.good_capture p) f
  unfolding pending init_captures quiets_to_come tally_from
  capture_init_same f = omega (arith, init_captures-pending node p Stage.good_capture f every)

  at_capture_init : Held Stage.capture_init
  unfolding next_move init_captures
  at_capture_init w z =
      let q = init_captures node Stage.good_capture p in
      Emits-cong node (pending node q) _ _ capture_init_same (
        pick_good_capture-Emits node q (omega arith, omega arith, refl)
          (sym (capture_init_same is_none) ∙ z))

  qcapture_init_same :
      (f : Move → Bool)
      → pending node (at_stage Stage.qcapture_init p) f
        ≡ pending node (init_captures node Stage.qcapture p) f
  unfolding pending init_captures
  qcapture_init_same f = sym (init_captures-pending node p Stage.qcapture f every)

  probcut_init_same :
      (f : Move → Bool)
      → pending node (at_stage Stage.probcut_init p) f
        ≡ pending node (init_captures node Stage.probcut p) f
  unfolding pending init_captures
  probcut_init_same f = sym (init_captures-pending node p Stage.probcut f (wins node p))

  evasion_init_same :
      (f : Move → Bool)
      → pending node (at_stage Stage.evasion_init p) f ≡ pending node (init_evasions node p) f
  unfolding pending init_evasions
  evasion_init_same f = sym (init_evasions-pending node p f)

-- The stages that write a list and go to the one that walks it.
module _ (node : Node) (p : Picker) where
  at_qcapture_init : Held node p Stage.qcapture_init
  unfolding next_move init_captures
  at_qcapture_init w z =
      let q = init_captures node Stage.qcapture p in
      Emits-cong node (pending node q) _ _ (qcapture_init_same node p)
        (at_qcapture node q tt (sym (qcapture_init_same node p is_none) ∙ z))

  at_probcut_init : Held node p Stage.probcut_init
  unfolding next_move init_captures
  at_probcut_init w z =
      let q = init_captures node Stage.probcut p in
      Emits-cong node (pending node q) _ _ (probcut_init_same node p)
        (at_probcut node q tt (sym (probcut_init_same node p is_none) ∙ z))

  at_evasion_init : Held node p Stage.evasion_init
  unfolding next_move init_evasions
  at_evasion_init w z =
      let q = init_evasions node p in
      Emits-cong node (pending node q) _ _ (evasion_init_same node p)
        (at_evasion node q tt (sym (evasion_init_same node p is_none) ∙ z))

  at_each_stage : (s : Stage) → Held node p s
  at_each_stage Stage.main_tt = at_main_tt node p
  at_each_stage Stage.capture_init = at_capture_init node p
  at_each_stage Stage.good_capture = at_good_capture node p
  at_each_stage Stage.quiet_init = at_quiet_init node p
  at_each_stage Stage.good_quiet = at_good_quiet node p
  at_each_stage Stage.bad_capture = at_bad_capture node p
  at_each_stage Stage.bad_quiet = at_bad_quiet node p
  at_each_stage Stage.evasion_tt = at_evasion_tt node p
  at_each_stage Stage.evasion_init = at_evasion_init
  at_each_stage Stage.evasion = at_evasion node p
  at_each_stage Stage.probcut_tt = at_probcut_tt node p
  at_each_stage Stage.probcut_init = at_probcut_init
  at_each_stage Stage.probcut = at_probcut node p
  at_each_stage Stage.qsearch_tt = at_qsearch_tt node p
  at_each_stage Stage.qcapture_init = at_qcapture_init
  at_each_stage Stage.qcapture = at_qcapture node p

  module _ (w : WellFormed p) (z : pending node p is_none ≡ 0) where
    pub next_move-Emits : Emits node (pending node p) (next_move node p)
    next_move-Emits = at_each_stage p.stage w z
