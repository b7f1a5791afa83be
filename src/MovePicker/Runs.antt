-- ===== src/MovePicker/Runs.antt =====
-- The runs that each constructor of src/engine/movepick.cpp begins.
use stockfish.Base.{
  ℕ, ◌+◌, ◌≤◌, ◌≡◌, refl, ◌∙◌, Bool, true, false, not, ◌&&◌, ◌==◌, to_ℕ, if◌then◌else◌, List, [],
  ◌∷◌, arith,
}
use stockfish.Base.Filters.{tally}
use stockfish.Base.Int.{ℤ, pos, ltb_ℤ}
use stockfish.Types.Moves.{Move, is_some_move}
use stockfish.MoveGen.{ExtMove}
use stockfish.MovePicker.Stages.{Node, Stage, new_picker, new_probcut, unset}
use stockfish.MovePicker.Pending.{counts, pending, WellFormed, quiets_to_come}
use stockfish.MovePicker.Emission.{is_none}
use stockfish.MovePicker.Emission.Calls.{every_move}
use stockfish.MovePicker.Draining.{drain, drain_complete}

-- What a search is to be given: the table's move, if it is legal, and each move of the lists that its
-- stages generate, but for the table's.
abbrev pub is_known : Node → Move → Bool
is_known node ttm = is_some_move ttm && node.legal ttm

abbrev pub others : Move → (Move → Bool) → List ExtMove → ℕ
others ttm f xs = tally (λ x. not (x.move == ttm) && f x.move) xs

abbrev pub expected : Node → Move → ℤ → (Move → Bool) → ℕ
expected node ttm d f =
    (if is_known node ttm then to_ℕ (f ttm) else 0)
    + (if node.in_check
        then others ttm f node.evasions
        else if ltb_ℤ (pos 0) d
        then others ttm f node.captures + others ttm f node.quiets
        else others ttm f node.captures)

abbrev pub stage_of : Bool → Bool → Bool → Stage
stage_of known check deep =
    if check
    then if known then Stage.evasion_tt else Stage.evasion_init
    else if deep
    then if known then Stage.main_tt else Stage.capture_init
    else if known
    then Stage.qsearch_tt
    else Stage.qcapture_init

module _ (node : Node) (ttm : Move) (d : ℤ) where
  start_pending :
      (known check deep : Bool) (f : Move → Bool)
      → pending node (unset ttm d (pos 0) (stage_of known check deep)) f
        ≡ (if known then to_ℕ (f ttm) else 0)
          + (if check
              then others ttm f node.evasions
              else if deep
              then others ttm f node.captures + others ttm f node.quiets
              else others ttm f node.captures)
  unfolding unset pending quiets_to_come counts
  start_pending true true deep f = refl
  start_pending false true deep f = omega arith
  start_pending true false true f = refl
  start_pending false false true f = omega arith
  start_pending true false false f = refl
  start_pending false false false f = omega arith

  start_WellFormed :
      (known check deep : Bool) → WellFormed (unset ttm d (pos 0) (stage_of known check deep))
  unfolding unset
  start_WellFormed true true deep = tt
  start_WellFormed false true deep = tt
  start_WellFormed true false true = tt
  start_WellFormed false false true = tt
  start_WellFormed true false false = tt
  start_WellFormed false false false = tt

  new_picker-pending :
      (f : Move → Bool) → pending node (new_picker node ttm d) f ≡ expected node ttm d f
  unfolding new_picker
  new_picker-pending f = start_pending (is_known node ttm) node.in_check (ltb_ℤ (pos 0) d) f

  pub new_picker-WellFormed : WellFormed (new_picker node ttm d)
  unfolding new_picker
  new_picker-WellFormed = start_WellFormed (is_known node ttm) node.in_check (ltb_ℤ (pos 0) d)

pub others-le :
    (ttm : Move) (f : Move → Bool) (xs : List ExtMove) → others ttm f xs ≤ tally (λ x. f x.move) xs
unfolding tally
others-le ttm f [] = omega arith
others-le ttm f (x ∷ xs) = ground (arith, others-le ttm f xs)

-- No list has a move `none`.
abbrev pub HasNoNone : List ExtMove → Type 0
HasNoNone xs = tally (λ x. is_none x.move) xs ≡ 0

expected-none :
    (node : Node) (ttm : Move) (d : ℤ)
    → HasNoNone node.captures
    → HasNoNone node.quiets
    → HasNoNone node.evasions
    → expected node ttm d is_none ≡ 0
expected-none node ttm d a b c = ground (
  arith,
  others-le ttm is_none node.captures,
  others-le ttm is_none node.quiets,
  others-le ttm is_none node.evasions,
)

-- The run, where what is expected has no move `none`.
pub expected-drain :
    (n : ℕ) (node : Node) (ttm : Move) (d : ℤ) (f : Move → Bool)
    → expected node ttm d is_none ≡ 0
    → expected node ttm d every_move ≤ n
    → tally f (drain n node (new_picker node ttm d)) ≡ expected node ttm d f
expected-drain n node ttm d f z le =
    drain_complete n node (new_picker node ttm d) f (new_picker-WellFormed node ttm d)
      (new_picker-pending node ttm d is_none ∙ z)
      (omega (arith, new_picker-pending node ttm d every_move))
    ∙ new_picker-pending node ttm d f

-- A run of a picker for the search or the quiescence search gives the table's move, if it is legal,
-- and every other move of its lists, each as often as it stands in them, where none of them is the
-- move `none` and as many calls are made as moves are expected.
pub new_picker-drain :
    (n : ℕ) (node : Node) (ttm : Move) (d : ℤ) (f : Move → Bool)
    → HasNoNone node.captures
    → HasNoNone node.quiets
    → HasNoNone node.evasions
    → expected node ttm d every_move ≤ n
    → tally f (drain n node (new_picker node ttm d)) ≡ expected node ttm d f
new_picker-drain n node ttm d f a b c le =
    expected-drain n node ttm d f (expected-none node ttm d a b c) le

abbrev pub expected_probcut : Node → Move → ℤ → (Move → Bool) → ℕ
expected_probcut node ttm th f =
    (if is_some_move ttm && (node.capture_stage ttm && node.legal ttm) then to_ℕ (f ttm) else 0)
    + others ttm (λ m. node.see_ge m th && f m) node.captures

module _ (node : Node) (ttm : Move) (th : ℤ) where
  probcut_pending :
      (known : Bool) (f : Move → Bool)
      → pending node
          (unset ttm (pos 0) th (if known then Stage.probcut_tt else Stage.probcut_init))
          f
        ≡ (if known then to_ℕ (f ttm) else 0)
          + others ttm (λ m. node.see_ge m th && f m) node.captures
  unfolding unset pending counts
  probcut_pending true f = refl
  probcut_pending false f = omega arith

  probcut_WellFormed :
      (known : Bool)
      → WellFormed (unset ttm (pos 0) th (if known then Stage.probcut_tt else Stage.probcut_init))
  unfolding unset
  probcut_WellFormed true = tt
  probcut_WellFormed false = tt

  new_probcut-pending :
      (f : Move → Bool) → pending node (new_probcut node ttm th) f ≡ expected_probcut node ttm th f
  unfolding new_probcut
  new_probcut-pending f =
      probcut_pending (is_some_move ttm && (node.capture_stage ttm && node.legal ttm)) f

  new_probcut-WellFormed : WellFormed (new_probcut node ttm th)
  unfolding new_probcut
  new_probcut-WellFormed =
      probcut_WellFormed (is_some_move ttm && (node.capture_stage ttm && node.legal ttm))

  wins_none-le :
      (xs : List ExtMove)
      → others ttm (λ m. node.see_ge m th && is_none m) xs ≤ tally (λ x. is_none x.move) xs
  unfolding tally
  wins_none-le [] = omega arith
  wins_none-le (x ∷ xs) = ground (arith, wins_none-le xs)

  probcut-none : HasNoNone node.captures → expected_probcut node ttm th is_none ≡ 0
  probcut-none h = ground (arith, wins_none-le node.captures)

-- A run of a picker for ProbCut gives the table's move, if it is a legal capture, and each other
-- capture that reaches the threshold by exchange, as often as it stands in the list, where none of
-- the captures is the move `none` and as many calls are made as moves are expected.
pub new_probcut-drain :
    (n : ℕ) (node : Node) (ttm : Move) (th : ℤ) (f : Move → Bool)
    → HasNoNone node.captures
    → expected_probcut node ttm th every_move ≤ n
    → tally f (drain n node (new_probcut node ttm th)) ≡ expected_probcut node ttm th f
new_probcut-drain n node ttm th f a le =
    drain_complete n node (new_probcut node ttm th) f (new_probcut-WellFormed node ttm th)
      (new_probcut-pending node ttm th is_none ∙ probcut-none node ttm th a)
      (omega (arith, new_probcut-pending node ttm th every_move))
    ∙ new_probcut-pending node ttm th f
