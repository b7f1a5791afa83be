-- ===== src/Fen/Writing.antt =====
-- What the reader does with the characters that `Position::fen` writes for the squares.
use stockfish.Base.{
  ℕ, zero, suc, ◌+◌, ◌≤◌, ◌<◌, ◌≡◌, refl, sym, ap, ◌∙◌, Bool, true, false, not, ◌&&◌, ◌||◌, ◌==◌,
  List, ◌∷◌, ◌++◌, Option, none, some, inr, arith,
}
use native.Mathlib.Nat.{add-zero}
use stockfish.Base.Bits.Tables.{passes_below, passes_below_sound}
use stockfish.Types.Board.{Piece, make_square, make_piece}
use stockfish.Position.Placement.{Placement, put_piece}
use stockfish.Position.Placement.Consistency.{IsPiece}
use stockfish.Fen.{
  Cursor, skip_squares, end_rank, place_piece, place_token, read_placement, find_from, char_at,
  piece_to_char, is_digit, is_space, write_count,
}
use stockfish.Fen.Accepting.{after_token, read_placement_turn}

abbrev pub cursor : ℕ → ℕ → ℕ → Placement → Cursor
cursor f r k q = record { file = f; rank = r; num_pieces = k; placement = q }

-- A token that is no space and places what it is to place is read on from there.
pub reads_on :
    (token : ℕ) (tokens : List ℕ) (c c' : Cursor)
    → is_space token ≡ false
    → place_token token c ≡ inr c'
    → read_placement (token ∷ tokens) c ≡ read_placement tokens c'
reads_on token tokens c c' h e =
    read_placement_turn token tokens c ∙ rw (h, ap (after_token tokens) e) refl

skip_token :
    (count f r k : ℕ) (q : Placement)
    → 1 ≤ count
    → f + count ≤ 8
    → place_token (48 + count) (cursor f r k q) ≡ inr (cursor (f + count) r k q)
unfolding place_token skip_squares
skip_token count f r k q pos le = ground arith

pub skip_read :
    (count f r k : ℕ) (q : Placement) (rest : List ℕ)
    → f + count ≤ 8
    → read_placement (write_count count ++ rest) (cursor f r k q)
      ≡ read_placement rest (cursor (f + count) r k q)
skip_read zero f r k q rest le = ap (λ g. read_placement rest (cursor g r k q)) (sym (add-zero f))
skip_read (suc count) f r k q rest le =
    reads_on (48 + suc count) rest (cursor f r k q) (cursor (f + suc count) r k q) (ground arith)
      (skip_token (suc count) f r k q (omega arith) le)

is_found : ℕ → Option ℕ → Bool
is_found pc none = false
is_found pc (some i) = i == pc

found_same : (pc : ℕ) (r : Option ℕ) → is_found pc r ≡ true → r ≡ some pc
unfolding is_found
found_same pc none h = absurd (ground arith)
found_same pc (some i) h = ap some (ground arith)

-- The letter of a piece is read as the piece.
letter_test : ℕ → Bool
letter_test pc =
    pc == 0
    || (pc == 7 || pc == 8)
    || not (is_space (char_at pc piece_to_char))
      && (not (is_digit (char_at pc piece_to_char))
          && (not (char_at pc piece_to_char == 47)
              && is_found pc (find_from 0 (char_at pc piece_to_char) piece_to_char)))

record IsLetter (pc token : ℕ) : Type 0 where
  spaced : is_space token ≡ false
  digit : is_digit token ≡ false
  slash : (token == 47) ≡ false
  found : find_from 0 token piece_to_char ≡ some pc

piece_range :
    (pc : Piece) → IsPiece pc → (pc < 15) × (not (pc == 0) && not (pc == 7 || pc == 8)) ≡ true
unfolding make_piece
piece_range pc v =
    let typed = v.typed in
    let small = v.type_le in
    let colored = v.color_le in let made = v.made in (ground arith, ground arith)

letter_lem : (pc : Piece) → IsPiece pc → IsLetter pc (char_at pc piece_to_char)
letter_lem pc v =
    let range = piece_range pc v in
    let test = passes_below_sound 15 letter_test pc table range.0 in
    let tests : (not (is_space (char_at pc piece_to_char))
          && (not (is_digit (char_at pc piece_to_char))
              && (not (char_at pc piece_to_char == 47)
                  && is_found pc (find_from 0 (char_at pc piece_to_char) piece_to_char))))
        ≡ true =
      unfold letter_test in ground arith in
    record {
      spaced = ground arith;
      digit = ground arith;
      slash = ground arith;
      found = found_same pc (find_from 0 (char_at pc piece_to_char) piece_to_char) (ground arith);
    }
  where
    table : passes_below 15 letter_test ≡ true
    table =
        unfold passes_below in
        unfold letter_test in unfold char_at in unfold is_found in unfold find_from in refl

-- A letter puts its piece on the square of the cursor.
pub letter_read :
    (pc f r k : ℕ) (q : Placement) (rest : List ℕ)
    → IsPiece pc
    → f < 8
    → k < 32
    → read_placement (char_at pc piece_to_char ∷ rest) (cursor f r k q)
      ≡ read_placement rest (cursor (f + 1) r (k + 1) (put_piece pc (make_square f r) q))
letter_read pc f r k q rest v lt few =
    let l = letter_lem pc v in
    let token = char_at pc piece_to_char in
    reads_on token rest (cursor f r k q) _ l.spaced (letter_token token l.digit l.slash l.found)
  where
    letter_token :
        (token : ℕ)
        → is_digit token ≡ false
        → (token == 47) ≡ false
        → find_from 0 token piece_to_char ≡ some pc
        → place_token token (cursor f r k q)
          ≡ inr (cursor (f + 1) r (k + 1) (put_piece pc (make_square f r) q))
    letter_token token a b e =
        unfold place_token in unfold place_piece in rw (a, b, e) (ground arith)

pub slash_read :
    (r k : ℕ) (q : Placement) (rest : List ℕ)
    → read_placement (47 ∷ rest) (cursor 8 (suc r) k q) ≡ read_placement rest (cursor 0 r k q)
slash_read r k q rest =
    reads_on 47 rest (cursor 8 (suc r) k q) (cursor 0 r k q) refl
      (unfold place_token in unfold end_rank in ground arith)

pub space_read : (rest : List ℕ) (c : Cursor) → read_placement (32 ∷ rest) c ≡ inr (c, rest)
space_read rest c = read_placement_turn 32 rest c
