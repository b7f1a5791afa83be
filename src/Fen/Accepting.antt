-- ===== src/Fen/Accepting.antt =====
-- The strings that `Position::set` accepts.
use stockfish.Base.{
  ℕ, ◌≡◌, refl, sym, ◌∙◌, not, ◌||◌, ◌==◌, if◌then◌else◌, List, [], ◌∷◌, Option, none, some, ◌⊎◌,
  inl, inr, arith, Bool-cases,
}
use mathlib.Core.Path.{subst}
use stockfish.Base.Arrays.{count_below}
use stockfish.Base.Bits.{test_bit, test_bit-zero}
use stockfish.Types.Board.{Color}
use stockfish.Position.Placement.{Placement}
use stockfish.Position.Placement.Consistency.{IsConsistent, of_type, of_color, counted}
use stockfish.Fen.{
  FenError, Cursor, start_cursor, place_token, read_placement, is_space, check_cursor, check_pieces,
  read_side, read_fields,
}
use stockfish.Fen.Reading.{IsSound, Keeps, place_token-Keeps}

abbrev pub after_token : List ℕ → FenError ⊎ Cursor → FenError ⊎ (Cursor × List ℕ)
after_token tokens (inl e) = inl e
after_token tokens (inr c) = read_placement tokens c

pub read_placement_turn :
    (token : ℕ) (tokens : List ℕ) (c : Cursor)
    → read_placement (token ∷ tokens) c
      ≡ (if is_space token then inr (c, tokens) else after_token tokens (place_token token c))
unfolding read_placement
read_placement_turn token tokens c = refl

-- A cursor that is read is sound.
unfoldable pub ReadsSound : FenError ⊎ (Cursor × List ℕ) → Type 0
ReadsSound (inl e) = Unit
ReadsSound (inr (c, rest)) = IsSound c

after_token-ReadsSound :
    (tokens : List ℕ)
    → ((c : Cursor) → IsSound c → ReadsSound (read_placement tokens c))
    → (r : FenError ⊎ Cursor) → Keeps r
    → ReadsSound (after_token tokens r)
unfolding ReadsSound Keeps
after_token-ReadsSound tokens h (inl e) k = tt
after_token-ReadsSound tokens h (inr c) k = h c k

pub read_placement-ReadsSound :
    (tokens : List ℕ) (c : Cursor) → IsSound c → ReadsSound (read_placement tokens c)
read_placement-ReadsSound [] c s = unfold read_placement in unfold ReadsSound in tt
read_placement-ReadsSound (token ∷ tokens) c s =
    subst ReadsSound (sym (read_placement_turn token tokens c))
      (elim (Bool-cases (is_space token)) [
        | inl h ↦ rw h (unfold ReadsSound in s)
        | inr h ↦ rw h (
            after_token-ReadsSound tokens (λ c' s'. read_placement-ReadsSound tokens c' s')
              (place_token token c) (place_token-Keeps c s token h))
      ])

-- At the start no square has a piece.
pub start_cursor-IsSound : IsSound start_cursor
unfolding test_bit of_type of_color counted count_below
start_cursor-IsSound = record {
  consistent = record {
    on_board = λ s h. refl;
    pieces = λ s. inl refl;
    types = λ t s. test_bit-zero s;
    colors = λ c s. test_bit-zero s;
    counts = λ i. refl;
  };
  file_le = omega arith;
  rank_le = omega arith;
  ahead = λ s l a. refl;
}

check_cursor_passes :
    (c : Cursor)
    → check_cursor c ≡ none
    → (c.rank ≡ 0) × (c.file ≡ 8) × (check_pieces c.placement ≡ none)
unfolding check_cursor
check_cursor_passes c e = elim (Bool-cases (not (c.rank == 0) || not (c.file == 8))) [
  | inl h ↦ absurd (ground arith)
  | inr h ↦ (ground arith, ground arith, ground arith)
]

-- What is accepted passes the checks.
Accepted : FenError ⊎ (Placement × Color × List ℕ) → Type 0
Accepted (inl e) = Unit
Accepted (inr (q, us, rest)) = IsConsistent q × (check_pieces q ≡ none)

unfoldable pub after_side :
    Cursor → FenError ⊎ (Color × List ℕ) → FenError ⊎ (Placement × Color × List ℕ)
after_side c (inl e) = inl e
after_side c (inr (us, left)) = inr (c.placement, us, left)

unfoldable pub after_check :
    Cursor → List ℕ → Option FenError → FenError ⊎ (Placement × Color × List ℕ)
after_check c rest (some e) = inl e
after_check c rest none = after_side c (read_side rest)

unfoldable pub after_pieces : FenError ⊎ (Cursor × List ℕ) → FenError ⊎ (Placement × Color × List ℕ)
after_pieces (inl e) = inl e
after_pieces (inr (c, rest)) = after_check c rest (check_cursor c)

pub read_fields_steps :
    (tokens : List ℕ) → read_fields tokens ≡ after_pieces (read_placement tokens start_cursor)
unfolding read_fields after_pieces after_check after_side
read_fields_steps tokens = refl

after_side-Accepted :
    (c : Cursor)
    → IsConsistent c.placement
    → check_pieces c.placement ≡ none
    → (r : FenError ⊎ (Color × List ℕ)) → Accepted (after_side c r)
unfolding after_side Accepted
after_side-Accepted c s e (inl k) = tt
after_side-Accepted c s e (inr (us, left)) = (s, e)

after_check-Accepted :
    (c : Cursor) (rest : List ℕ)
    → IsSound c
    → (r : Option FenError) → check_cursor c ≡ r
    → Accepted (after_check c rest r)
unfolding after_check
after_check-Accepted c rest s (some k) e = unfold Accepted in tt
after_check-Accepted c rest s none e =
    after_side-Accepted c s.consistent (check_cursor_passes c e).2 (read_side rest)

after_pieces-Accepted :
    (r : FenError ⊎ (Cursor × List ℕ)) → ReadsSound r → Accepted (after_pieces r)
unfolding after_pieces ReadsSound
after_pieces-Accepted (inl e) s = unfold Accepted in tt
after_pieces-Accepted (inr (c, rest)) s = after_check-Accepted c rest s (check_cursor c) refl

-- Whatever the string, what `set` takes from its first two fields is an error, or a placement in which
-- squares, sets and numbers of pieces agree, and which passes the checks of the pieces.
pub read_fields-Accepted :
    (tokens : List ℕ) (q : Placement) (us : Color) (rest : List ℕ)
    → read_fields tokens ≡ inr (q, us, rest)
    → IsConsistent q × (check_pieces q ≡ none)
read_fields-Accepted tokens q us rest e = accepted (
    subst Accepted (sym (read_fields_steps tokens) ∙ e) (
      after_pieces-Accepted (read_placement tokens start_cursor)
        (read_placement-ReadsSound tokens start_cursor start_cursor-IsSound)))
  where
    accepted : Accepted (inr (q, us, rest)) → IsConsistent q × (check_pieces q ≡ none)
    accepted a = unfold Accepted in a
