-- ===== src/Notation.antt =====
-- src/engine/position.cpp and src/shell/uci.cpp: the notation of squares and moves. A string is the
-- list of its bytes.
mod Tests
use stockfish.Base.{
  ℕ, ◌+◌, ◌≡◌, refl, sym, Bool, true, false, not, ◌&&◌, ◌||◌, ◌==◌, ltb, leb, if◌then◌else◌, List,
  [], ◌∷◌, ◌++◌, map, ◌⊎◌, inl, inr, arith, Bool-cases,
}
use mathlib.Core.Path.{subst}
use stockfish.Base.Lists.{All}
use stockfish.Types.Board.{Square, file_of, rank_of, make_square}
use stockfish.Types.Moves.{
  Move, from_sq, to_sq, move_type, promotion_type, castling, promotion, no_move, null,
}
use stockfish.Position.State.{Position}
use stockfish.MoveGen.Generating.{generate_legal}
use stockfish.MoveGen.Legality.{contains}
use stockfish.Fen.{char_at}

abbrev pub square_name : Square → List ℕ
square_name s = (97 + file_of s) ∷ (49 + rank_of s) ∷ []

-- The target that is written: for castling it is that of the king, but in Chess960 the rook.
abbrev pub shown_to : Move → Bool → Square
shown_to m chess960 =
    if move_type m == castling && not chess960
    then make_square (if ltb (from_sq m) (to_sq m) then 6 else 2) (rank_of (from_sq m))
    else to_sq m

-- "(none)", "0000", or the squares and the piece of a promotion.
unfoldable pub move_to_uci : Move → Bool → List ℕ
move_to_uci m chess960 =
    if m == no_move
    then 40 ∷ 110 ∷ 111 ∷ 110 ∷ 101 ∷ 41 ∷ []
    else if m == null
    then 48 ∷ 48 ∷ 48 ∷ 48 ∷ []
    else square_name (from_sq m)
      ++ (square_name (shown_to m chess960)
          ++ (if move_type m == promotion
              then char_at (promotion_type m) (32 ∷ 112 ∷ 110 ∷ 98 ∷ 114 ∷ 113 ∷ 107 ∷ []) ∷ []
              else []))

abbrev pub to_lower : List ℕ → List ℕ
to_lower str = map (λ c. if leb 65 c && leb c 90 then c + 32 else c) str

-- The comparison of two strings.
unfoldable pub same_text : List ℕ → List ℕ → Bool
same_text [] [] = true
same_text [] (y ∷ ys) = false
same_text (x ∷ xs) [] = false
same_text (x ∷ xs) (y ∷ ys) = x == y && same_text xs ys

unfoldable pub find_move : List ℕ → Bool → List Move → Move
find_move str chess960 [] = no_move
find_move str chess960 (m ∷ ms) =
    if same_text str (move_to_uci m chess960) then m else find_move str chess960 ms

unfoldable pub to_move : Position → Bool → List ℕ → Move
to_move p chess960 str = find_move (to_lower str) chess960 (generate_legal p)

-- The move of a text among others: none has it, or the one that is found does.
abbrev pub Finds : List ℕ → Bool → List Move → Move → Type 0
Finds str chess960 ms m =
    ((m ≡ no_move) × All (λ x. same_text str (move_to_uci x chess960) ≡ false) ms)
    ⊎ ((contains ms m ≡ true) × (same_text str (move_to_uci m chess960) ≡ true))

module _ (str : List ℕ) (chess960 : Bool) (m : Move) (ms : List Move) where
  found_first : same_text str (move_to_uci m chess960) ≡ true → find_move str chess960 (m ∷ ms) ≡ m
  unfolding find_move
  found_first h = ground arith

  found_later :
      same_text str (move_to_uci m chess960) ≡ false
      → find_move str chess960 (m ∷ ms) ≡ find_move str chess960 ms
  unfolding find_move
  found_later h = ground arith

  Finds-later :
      (x : Move)
      → same_text str (move_to_uci m chess960) ≡ false
      → Finds str chess960 ms x
      → Finds str chess960 (m ∷ ms) x
  unfolding contains
  Finds-later x h (inl (e, none)) = inl (e, (h, none))
  Finds-later x h (inr (c, e)) = inr (ground arith, e)

  Finds-first : same_text str (move_to_uci m chess960) ≡ true → Finds str chess960 (m ∷ ms) m
  unfolding contains
  Finds-first h = inr (ground arith, h)

find_move-Finds :
    (str : List ℕ) (chess960 : Bool) (ms : List Move)
    → Finds str chess960 ms (find_move str chess960 ms)
find_move-Finds str chess960 [] = unfold find_move in inl (refl, tt)
find_move-Finds str chess960 (m ∷ ms) = elim (Bool-cases (same_text str (move_to_uci m chess960))) [
  | inl h ↦
      subst (Finds str chess960 (m ∷ ms)) (sym (found_first str chess960 m ms h))
        (Finds-first str chess960 m ms h)
  | inr h ↦ subst (Finds str chess960 (m ∷ ms)) (sym (found_later str chess960 m ms h)) (
      Finds-later str chess960 m ms (find_move str chess960 ms) h (find_move-Finds str chess960 ms))
]

-- `to_move` gives a legal move whose text is the one given, in lower case, or, if no legal move has
-- that text, the move `none`.
pub to_move-Finds :
    (p : Position) (chess960 : Bool) (str : List ℕ)
    → Finds (to_lower str) chess960 (generate_legal p) (to_move p chess960 str)
unfolding to_move
to_move-Finds p chess960 str = find_move-Finds (to_lower str) chess960 (generate_legal p)
