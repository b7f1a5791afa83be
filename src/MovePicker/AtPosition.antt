-- ===== src/MovePicker/AtPosition.antt =====
-- The picker of src/engine/movepick.cpp over the generator of src/engine/movegen.cpp: what a search at
-- a position is given.
use stockfish.Base.{
  ℕ, ◌+◌, ◌≤◌, ◌≡◌, refl, sym, ap, ◌∙◌, Bool, true, false, not, ◌&&◌, ◌==◌, to_ℕ, if◌then◌else◌,
  List, [], ◌∷◌, ◌++◌, map, arith,
}
use mathlib.Core.Path.{ap₂}
use stockfish.Base.Arrays.{Array}
use stockfish.Base.Filters.{tally, tally_all, tally-append}
use stockfish.Base.Lists.{length}
use stockfish.Base.Int.{ℤ, pos, ltb_ℤ}
use stockfish.Types.Moves.{Move, is_some_move}
use stockfish.Bitboard.{Bitboard}
use stockfish.Position.State.{Position}
use stockfish.Position.Exchange.{see_ge}
use stockfish.Position.MoveTests.{capture_stage}
use stockfish.MoveGen.{ExtMove, GenType}
use stockfish.MoveGen.Pieces.{CacheMode}
use stockfish.MoveGen.Generating.{generate, generate_cached, generate_legal}
use stockfish.MoveGen.Caching.Quiets.{cached_lists_same}
use stockfish.MoveGen.Legality.{legal}
use stockfish.MovePicker.Scoring.{
  Histories, score_capture, score_quiet, add_low_ply, score_evasion, score_captures, score_quiets,
  score_evasions,
}
use stockfish.MovePicker.Stages.{Node, new_picker}
use stockfish.MovePicker.Emission.{is_none}
use stockfish.MovePicker.Emission.Calls.{every_move}
use stockfish.MovePicker.Draining.{drain}
use stockfish.MovePicker.Runs.{expected, others, is_known, expected-drain}

-- `gen_and_score`, for each stage: the capture list fills the slider cache, which may hold anything
-- before, and the quiet list reads it.
unfoldable pub node_at : Histories → ℕ → Array Bitboard → Position → Node
unfolding generate generate_cached score_captures score_quiets score_evasions see_ge capture_stage
    legal
node_at h ply cache p =
    let (captures, filled) = generate_cached GenType.captures CacheMode.fill_cache p cache in
    let (quiets, used) = generate_cached GenType.quiets CacheMode.use_cache p filled in
    record {
      in_check = not (p.st.checkers_bb == 0);
      captures = score_captures h p captures;
      quiets = score_quiets h ply p quiets;
      evasions = score_evasions h p (generate GenType.evasions p);
      see_ge = see_ge p;
      capture_stage = capture_stage p;
      legal = legal p;
    }

-- Scores do not change the moves.
module _ (f : Move → Bool) where
  tally-scored :
      (sc : Move → ExtMove) (ms : List Move)
      → ((m : Move) → (sc m).move ≡ m)
      → tally (λ x. f x.move) (map sc ms) ≡ tally f ms
  unfolding tally
  tally-scored sc [] h = refl
  tally-scored sc (m ∷ ms) h = ap₂ ◌+◌ (ap (λ x. to_ℕ (f x)) (h m)) (tally-scored sc ms h)

  tally-again :
      (sc : ExtMove → ExtMove) (xs : List ExtMove)
      → ((x : ExtMove) → (sc x).move ≡ x.move)
      → tally (λ x. f x.move) (map sc xs) ≡ tally (λ x. f x.move) xs
  unfolding tally
  tally-again sc [] h = refl
  tally-again sc (x ∷ xs) h = ap₂ ◌+◌ (ap (λ m. to_ℕ (f m)) (h x)) (tally-again sc xs h)

  module _ (h : Histories) (p : Position) (ms : List Move) where
    captures_scored : tally (λ x. f x.move) (score_captures h p ms) ≡ tally f ms
    unfolding score_captures
    captures_scored = tally-scored (score_capture h p) ms (λ m. unfold score_capture in refl)

    quiets_scored : (ply : ℕ) → tally (λ x. f x.move) (score_quiets h ply p ms) ≡ tally f ms
    unfolding score_quiets
    quiets_scored ply =
        tally-again (add_low_ply h ply) (map (score_quiet h p) ms)
          (λ x. unfold add_low_ply in ground arith)
        ∙ tally-scored (score_quiet h p) ms (λ m. unfold score_quiet in refl)

    evasions_scored : tally (λ x. f x.move) (score_evasions h p ms) ≡ tally f ms
    unfolding score_evasions
    evasions_scored =
        tally-scored (score_evasion h p) ms (λ m. unfold score_evasion in ground arith)

-- The moves beside the table's that pass the test.
abbrev pub besides : Move → (Move → Bool) → Move → Bool
besides ttm f m = not (m == ttm) && f m

module _ (h : Histories) (ply : ℕ) (cache : Array Bitboard) (p : Position) (ttm : Move) where
  abbrev node : Node
  node = node_at h ply cache p

  captures_expected :
      (f : Move → Bool)
      → others ttm f node.captures ≡ tally (besides ttm f) (generate GenType.captures p)
  unfolding node_at
  captures_expected f =
      captures_scored (besides ttm f) h p _
      ∙ ap (tally (besides ttm f)) (cached_lists_same p cache).0

  quiets_expected :
      (f : Move → Bool)
      → others ttm f node.quiets ≡ tally (besides ttm f) (generate GenType.quiets p)
  unfolding node_at
  quiets_expected f =
      quiets_scored (besides ttm f) h p _ ply
      ∙ ap (tally (besides ttm f)) (cached_lists_same p cache).1

  evasions_expected :
      (f : Move → Bool)
      → others ttm f node.evasions ≡ tally (besides ttm f) (generate GenType.evasions p)
  unfolding node_at
  evasions_expected f = evasions_scored (besides ttm f) h p _

  abbrev pub given : (Move → Bool) → ℕ
  given f =
      (if is_some_move ttm && legal p ttm then to_ℕ (f ttm) else 0)
      + tally (besides ttm f) (generate_legal p)

  known_same :
      (f : Move → Bool)
      → (if is_known node ttm then to_ℕ (f ttm) else 0)
        ≡ (if is_some_move ttm && legal p ttm then to_ℕ (f ttm) else 0)
  unfolding node_at
  known_same f = refl

  -- The lists of the stages are those of `generate<ALL>`.
  either_list :
      (g : Move → Bool) (check : Bool) (es cs qs : List Move)
      → (if check then tally g es else tally g cs + tally g qs)
        ≡ tally g (if check then es else cs ++ qs)
  either_list g true es cs qs = refl
  either_list g false es cs qs = sym (tally-append g cs qs)

  legal_list :
      (g : Move → Bool)
      → (if node.in_check
          then tally g (generate GenType.evasions p)
          else tally g (generate GenType.captures p) + tally g (generate GenType.quiets p))
        ≡ tally g (generate_legal p)
  unfolding node_at generate_legal
  legal_list g =
      either_list g (not (p.st.checkers_bb == 0)) (generate GenType.evasions p)
        (generate GenType.captures p) (generate GenType.quiets p)

  lists_expected :
      (d : ℤ) (f : Move → Bool)
      → ltb_ℤ (pos 0) d ≡ true
      → (if node.in_check
          then others ttm f node.evasions
          else if ltb_ℤ (pos 0) d
          then others ttm f node.captures + others ttm f node.quiets
          else others ttm f node.captures)
        ≡ (if node.in_check
            then tally (besides ttm f) (generate GenType.evasions p)
            else tally (besides ttm f) (generate GenType.captures p)
              + tally (besides ttm f) (generate GenType.quiets p))
  lists_expected d f deep = λ i.
      if node.in_check
      then evasions_expected f i
      else if deep i
      then captures_expected f i + quiets_expected f i
      else captures_expected f i

  node-expected :
      (d : ℤ) (f : Move → Bool) → ltb_ℤ (pos 0) d ≡ true → expected node ttm d f ≡ given f
  node-expected d f deep =
      ap₂ ◌+◌ (known_same f) (lists_expected d f deep ∙ legal_list (besides ttm f))

  besides-le : (f : Move → Bool) (ms : List Move) → tally (besides ttm f) ms ≤ tally f ms
  unfolding tally
  besides-le f [] = omega arith
  besides-le f (m ∷ ms) = ground (arith, besides-le f ms)

  -- A run of the picker for a search of positive depth gives the move of the table, if it passes
  -- `legal`, and each other move of `generate<ALL>`, as often as it stands in that list, for every
  -- history, ply and content of the slider cache; where that list has no move `none`, and as many
  -- calls are made as it is long, and one more.
  pub picker_gives_legal_moves :
      (n : ℕ) (d : ℤ) (f : Move → Bool)
      → ltb_ℤ (pos 0) d ≡ true
      → tally is_none (generate_legal p) ≡ 0
      → length (generate_legal p) + 1 ≤ n
      → tally f (drain n node (new_picker node ttm d)) ≡ given f
  picker_gives_legal_moves n d f deep z le =
      expected-drain n node ttm d f
        (node-expected d is_none deep ∙ ground (arith, besides-le is_none (generate_legal p)))
        (ground (
          arith,
          node-expected d every_move deep,
          besides-le every_move (generate_legal p),
          tally_all (generate_legal p),
        ))
      ∙ node-expected d f deep
