-- ===== src/Fen/Tests.antt =====
-- Two kings and a pawn, "8/8/8/4k3/8/8/4P3/4K3 w ", and strings that are refused.
use stockfish.Base.{ℕ, ◌≤◌, ◌≡◌, refl, sym, ap, ◌∙◌, List, [], ◌∷◌, ◌++◌, none, inl, inr, arith}
use stockfish.Base.Arrays.{put}
use stockfish.Types.Board.{make_square, make_piece, type_of, color_of}
use stockfish.Bitboard.{with_square}
use stockfish.Position.Placement.{Placement, put_piece, empty, count_up}
use stockfish.Position.Placement.Consistency.{IsConsistent}
use stockfish.Position.Placement.Putting.{put_piece-IsConsistent}
use mathlib.Core.List.{append-nil}
use stockfish.Base.Int.{◌+ℤ◌, ◌-ℤ◌}
use stockfish.Position.State.{of}
use stockfish.Fen.{
  FenError, start_cursor, read_placement, place_token, skip_squares, end_rank, place_piece,
  find_from, check_pieces, check_color, beyond, read_fields, write_fields, write_ranks, write_rank,
  char_at,
}
use stockfish.Fen.Reading.{letter-IsPiece}
use stockfish.Fen.Accepting.{start_cursor-IsSound, read_fields-Accepted}
use stockfish.Fen.Copying.{men_to, men_in_rank}
use stockfish.Fen.RoundTrip.{read_fields-write_fields}

abbrev kings_text : List ℕ
kings_text =
    56 ∷ 47 ∷ 56 ∷ 47 ∷ 56 ∷ 47 ∷ 52 ∷ 107 ∷ 51 ∷ 47 ∷ 56 ∷ 47 ∷ 56 ∷ 47 ∷ 52 ∷ 80 ∷ 51 ∷ 47 ∷ 52
    ∷ 75 ∷ 51 ∷ 32 ∷ 119 ∷ 32 ∷ []

abbrev kings : Placement
kings = put_piece 6 4 (put_piece 1 12 (put_piece 14 36 start_cursor.placement))

kings_written : write_fields kings 0 ≡ kings_text
unfolding write_fields write_ranks write_rank empty put_piece put make_square char_at
kings_written = refl

kings-IsConsistent : IsConsistent kings
unfolding put_piece put char_at
kings-IsConsistent =
    let blank = start_cursor.placement in
    let black_king =
      put_piece-IsConsistent blank 14 36 start_cursor-IsSound.consistent
        (letter-IsPiece 14 (omega arith) refl) (omega arith) refl in
    let pawn =
      put_piece-IsConsistent (put_piece 14 36 blank) 1 12 black_king
        (letter-IsPiece 1 (omega arith) refl) (omega arith) refl in
    put_piece-IsConsistent (put_piece 1 12 (put_piece 14 36 blank)) 6 4 pawn
      (letter-IsPiece 6 (omega arith) refl) (omega arith) refl

kings_pass : check_pieces kings ≡ none
unfolding check_pieces of put_piece put type_of with_square count_up make_piece color_of beyond
    check_color ◌+ℤ◌ ◌-ℤ◌
kings_pass = refl

kings_few : men_to kings 7 ≤ 32
unfolding men_to men_in_rank put_piece empty make_square put
kings_few = omega arith

kings_read : read_fields kings_text ≡ inr (kings, 0, [])
kings_read =
    ap read_fields (sym (kings_written))
    ∙ ap read_fields (sym (append-nil (write_fields kings 0)))
    ∙ read_fields-write_fields kings 0 [] kings-IsConsistent kings_few kings_pass (omega arith)

read_fields-Accepted_example : IsConsistent kings × (check_pieces kings ≡ none)
read_fields-Accepted_example = read_fields-Accepted kings_text kings 0 [] kings_read

read_fields-write_fields_example :
    read_fields (write_fields kings 1 ++ 45 ∷ []) ≡ inr (kings, 1, 45 ∷ [])
read_fields-write_fields_example =
    read_fields-write_fields kings 1 (45 ∷ []) kings-IsConsistent kings_few kings_pass (omega arith)

-- "9", "8/8x" and the empty string.
nine_refused : read_fields (57 ∷ []) ≡ inl FenError.bad_skip
unfolding read_fields read_placement place_token skip_squares
nine_refused = refl

letter_refused : read_fields (56 ∷ 47 ∷ 120 ∷ []) ≡ inl (FenError.bad_piece 120)
unfolding read_fields read_placement place_token skip_squares end_rank place_piece find_from
letter_refused = refl

empty_refused : read_fields [] ≡ inl FenError.end_of_stream
unfolding read_fields read_placement
empty_refused = refl
