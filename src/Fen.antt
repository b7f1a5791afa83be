-- ===== src/Fen.antt =====
-- src/engine/position.cpp: the first two fields of a FEN string, the pieces and the side to move, as
-- `Position::set` reads and checks them and as `Position::fen` writes them. A string is the list of
-- its bytes.
pub mod Accepting
pub mod Copying
pub mod Placed
pub mod RoundTrip
mod Tests
pub mod Reading
pub mod Writing
use stockfish.Base.{
  ℕ, zero, suc, ◌+◌, ◌-◌, Bool, true, false, not, ◌&&◌, ◌||◌, ◌==◌, ltb, leb, if◌then◌else◌, List,
  [], ◌∷◌, ◌++◌, Option, none, some, ◌⊎◌, inl, inr, bit_and, bit_or,
}
use stockfish.Base.Int.{ℤ, pos, eqb_ℤ, max_ℤ, ltb_ℤ, ◌+ℤ◌, ◌-ℤ◌}
use stockfish.Types.Board.{
  Color, PieceType, Square, white, black, pawn, knight, bishop, rook, queen, king, make_square,
  make_piece,
}
use stockfish.Bitboard.{rank_1_bb, rank_8_bb}
use stockfish.Position.Placement.{Placement, put_piece, empty}
use stockfish.Position.State.{of}

-- " PNBRQK  pnbrqk"
abbrev pub piece_to_char : List ℕ
piece_to_char = 32 ∷ 80 ∷ 78 ∷ 66 ∷ 82 ∷ 81 ∷ 75 ∷ 32 ∷ 32 ∷ 112 ∷ 110 ∷ 98 ∷ 114 ∷ 113 ∷ 107 ∷ []

-- The errors, one for each message; `bad_file` has one message at two places.
pub data FenError : Type 0 where
  end_of_stream : FenError
  bad_skip : FenError
  bad_file : FenError
  early_rank_end : FenError
  bad_rank : FenError
  bad_piece : ℕ → FenError
  too_many_pieces : FenError
  cursor_not_at_end : FenError
  pawn_on_edge : FenError
  wrong_kings : FenError
  too_many_pawns : Color → FenError
  too_many_for : Color → FenError
  bad_side : ℕ → FenError
  no_space_after_side : FenError

-- `isspace` and `isdigit`.
abbrev pub is_space : ℕ → Bool
is_space token = token == 32 || leb 9 token && leb token 13

abbrev pub is_digit : ℕ → Bool
is_digit token = leb 48 token && leb token 57

-- `std::string_view::find` of one byte, from an index on.
unfoldable pub find_from : ℕ → ℕ → List ℕ → Option ℕ
find_from i token [] = none
find_from i token (x ∷ xs) = if x == token then some i else find_from (i + 1) token xs

-- The variables of the loop over the first field.
pub record Cursor : Type 0 where
  pub file : ℕ
  pub rank : ℕ
  pub num_pieces : ℕ
  pub placement : Placement

abbrev pub start_cursor : Cursor
start_cursor = record {
  file = 0;
  rank = 7;
  num_pieces = 0;
  placement = record {
    board = λ s. 0;
    by_type_bb = λ t. 0;
    by_color_bb = λ c. 0;
    piece_count = λ i. pos 0;
  };
}

unfoldable pub skip_squares : ℕ → Cursor → FenError ⊎ Cursor
skip_squares diff c =
    if ltb diff 1 || ltb 8 diff
    then inl FenError.bad_skip
    else if ltb 8 (c.file + diff)
    then inl FenError.bad_file
    else inr (record c { file = c.file + diff })

unfoldable pub end_rank : Cursor → FenError ⊎ Cursor
end_rank c =
    if not (c.file == 8)
    then inl FenError.early_rank_end
    else if c.rank == 0
    then inl FenError.bad_rank
    else inr (record c { rank = c.rank - 1; file = 0 })

unfoldable pub place_piece : ℕ → Option ℕ → Cursor → FenError ⊎ Cursor
place_piece token none c = inl (FenError.bad_piece token)
place_piece token (some pc) c =
    if ltb 32 (c.num_pieces + 1)
    then inl FenError.too_many_pieces
    else inr (record c {
      file = c.file + 1;
      num_pieces = c.num_pieces + 1;
      placement = put_piece pc (make_square c.file c.rank) c.placement;
    })

-- One turn of the loop, with a token that is no space.
unfoldable pub place_token : ℕ → Cursor → FenError ⊎ Cursor
place_token token c =
    if is_digit token
    then skip_squares (token - 48) c
    else if token == 47
    then end_rank c
    else if leb 8 c.file
    then inl FenError.bad_file
    else place_piece token (find_from 0 token piece_to_char) c

-- The loop: the cursor, and what is left of the string.
unfoldable pub read_placement : List ℕ → Cursor → FenError ⊎ (Cursor × List ℕ)
read_placement [] c = inl FenError.end_of_stream
read_placement (token ∷ tokens) c =
    if is_space token
    then inr (c, tokens)
    else elim (place_token token c) [ inl e ↦ inl e | inr c' ↦ read_placement tokens c' ]

-- How many pieces of a type there are beyond the first ones, `std::max(count - n, 0)`.
unfoldable pub beyond : Placement → Color → PieceType → ℕ → ℤ
beyond q c pt n = max_ℤ (q.piece_count (make_piece c pt) -ℤ pos n) (pos 0)

unfoldable pub check_color : Placement → Color → Option FenError
check_color q c =
    let pawns = q.piece_count (make_piece c pawn) in
    let additional =
      beyond q c knight 2 +ℤ beyond q c bishop 2 +ℤ beyond q c rook 2 +ℤ beyond q c queen 1 in
    if ltb_ℤ (pos 8) pawns
    then some (FenError.too_many_pawns c)
    else if ltb_ℤ (pos 8 -ℤ pawns) additional
    then some (FenError.too_many_for c)
    else none

-- The checks of the pieces, in the order of the code.
unfoldable pub check_pieces : Placement → Option FenError
check_pieces q =
    if not (bit_and (of q pawn) (bit_or rank_1_bb rank_8_bb) == 0)
    then some FenError.pawn_on_edge
    else if not (eqb_ℤ (q.piece_count (make_piece white king)) (pos 1))
        || not (eqb_ℤ (q.piece_count (make_piece black king)) (pos 1))
    then some FenError.wrong_kings
    else elim (check_color q white) [ some e ↦ some e | none ↦ check_color q black ]

unfoldable pub check_cursor : Cursor → Option FenError
check_cursor c =
    if not (c.rank == 0) || not (c.file == 8)
    then some FenError.cursor_not_at_end
    else check_pieces c.placement

-- The second field.
unfoldable pub read_side : List ℕ → FenError ⊎ (Color × List ℕ)
read_side [] = inl FenError.end_of_stream
read_side (token ∷ []) =
    if not (token == 119) && not (token == 98)
    then inl (FenError.bad_side token)
    else inl FenError.no_space_after_side
read_side (token ∷ next ∷ tokens) =
    if not (token == 119) && not (token == 98)
    then inl (FenError.bad_side token)
    else if not (is_space next)
    then inl FenError.no_space_after_side
    else inr ((if token == 119 then white else black), tokens)

-- `Position::set` up to the second field: the pieces, the side to move, and what is left.
unfoldable pub read_fields : List ℕ → FenError ⊎ (Placement × Color × List ℕ)
read_fields tokens = elim (read_placement tokens start_cursor) [
  | inl e ↦ inl e
  | inr (c, rest) ↦ elim (check_cursor c) [
    | some e ↦ inl e
    | none ↦ elim (read_side rest) [ inl e ↦ inl e | inr (us, left) ↦ inr (c.placement, us, left) ]
  ]
]

-- `emptyCnt`, if it is not zero.
abbrev pub write_count : ℕ → List ℕ
write_count zero = []
write_count (suc n) = (48 + suc n) ∷ []

-- `PieceToChar[pc]`.
unfoldable pub char_at : ℕ → List ℕ → ℕ
char_at i [] = 0
char_at zero (x ∷ xs) = x
char_at (suc i) (x ∷ xs) = char_at i xs

-- The two loops over the files, with the number of files left and `emptyCnt`.
unfoldable pub write_rank : Placement → ℕ → ℕ → ℕ → ℕ → List ℕ
write_rank q r zero f count = write_count count
write_rank q r (suc n) f count = elim (empty q (make_square f r)) [
  | true ↦ write_rank q r n (f + 1) (count + 1)
  | false ↦
      write_count count
      ++ char_at (q.board (make_square f r)) piece_to_char ∷ write_rank q r n (f + 1) 0
]

-- The loop over the ranks, down from a rank.
unfoldable pub write_ranks : Placement → ℕ → List ℕ
write_ranks q zero = write_rank q 0 8 0 0
write_ranks q (suc r) = write_rank q (suc r) 8 0 0 ++ 47 ∷ write_ranks q r

-- `Position::fen` up to the second field and the space behind it.
unfoldable pub write_fields : Placement → Color → List ℕ
write_fields q us = write_ranks q 7 ++ 32 ∷ (if us == white then 119 else 98) ∷ 32 ∷ []
