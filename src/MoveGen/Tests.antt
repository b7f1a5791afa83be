-- ===== src/MoveGen/Tests.antt =====
-- Instances at positions of chess.
use stockfish.Base.{arith, ◌*◌, ◌≡◌, refl, inl, [], ◌∷◌, ◌^◌, true, false, not, ◌&&◌, ◌==◌, to_ℕ}
use stockfish.Base.Filters.{tally}
use stockfish.Base.Lists.{length, All}
use stockfish.Base.Int.{pos}
use stockfish.Base.Tests.{ltb→lt}
use stockfish.Base.Arrays.{put}
use stockfish.Base.Bits.{test_bit}
use stockfish.Types.Board.{knight, king, type_of, color_of, opposite}
use stockfish.Types.Moves.{to_sq, from_sq, of_squares}
use stockfish.Bitboard.{squares_of, with_square}
use stockfish.Bitboard.Scanning.{squares_of-tally, digit_below}
use stockfish.Position.Keys.{set_state}
use stockfish.Position.Placement.{Placement, put_piece}
use stockfish.Position.Placement.Consistency.{IsConsistent}
use stockfish.Position.Placement.Putting.{put_piece-IsConsistent}
use stockfish.Attacks.{king_attack, piece_attacks_bb}
use stockfish.Fen.{start_cursor, char_at}
use stockfish.Fen.Reading.{letter-IsPiece}
use stockfish.Fen.Accepting.{start_cursor-IsSound}
use stockfish.Position.Attackers.{add_snipers, snipers_of, clear_blockers}
use stockfish.Position.State.{Position, all_of, square}
use stockfish.Position.Exchange.{start_exchange, exchange_loop}
use stockfish.Position.Exchange.Ending.{Ends, OnBoard, see_ge-Ends}
use stockfish.MoveGen.{GenType}
use stockfish.MoveGen.Pieces.{CacheMode, generate_moves}
use stockfish.MoveGen.Generating.{generate, generate_cached, generate_legal, king_moves, threatened}
use stockfish.MoveGen.Caching.Quiets.{cached_lists_same}
use stockfish.MoveGen.Targets.{generate_moves-Hits}
use stockfish.MoveGen.KingMoves.{king_moves-safe, king_target, seen_through}
use stockfish.MoveGen.Samples.{start, no_state, busy, checked}

-- The numbers of legal moves that are known for these positions.
start_moves : length (generate_legal start) ≡ 20
unfolding generate_legal set_state put_piece add_snipers snipers_of clear_blockers
start_moves = refl

busy_moves : length (generate_legal busy) ≡ 48
unfolding generate_legal set_state put_piece add_snipers snipers_of clear_blockers
busy_moves = refl

checked_moves : length (generate_legal checked) ≡ 6
unfolding generate_legal set_state put_piece add_snipers snipers_of clear_blockers
checked_moves = refl

squares_of-tally_example :
    tally (λ t. t == 40) (squares_of (2 ^ 40 * 5)) ≡ to_ℕ (test_bit (2 ^ 40 * 5) 40)
squares_of-tally_example =
    squares_of-tally (2 ^ 40 * 5) 40 (λ i. digit_below 64 (2 ^ 40 * 5) i (omega arith))

cached_lists_same_example :
    ((generate_cached GenType.captures CacheMode.fill_cache busy (λ i. 7)).0
      ≡ generate GenType.captures busy)
    × ((generate_cached GenType.quiets CacheMode.use_cache busy
          (generate_cached GenType.captures CacheMode.fill_cache busy (λ i. 7)).1).0
        ≡ generate GenType.quiets busy)
cached_lists_same_example = cached_lists_same busy (λ i. 7)

generate_moves-Hits_example :
    All
      (λ m. test_bit 0xFFFF0000 (to_sq m) ≡ true)
      (generate_moves CacheMode.no_cache knight start 0xFFFF0000 0
        (record { att = λ i. 0; next = 0 })).0
generate_moves-Hits_example =
    generate_moves-Hits CacheMode.no_cache start knight 0xFFFF0000
      (λ i e. digit_below 64 0xFFFF0000 i (omega arith) e) 0 (record { att = λ i. 0; next = 0 })

-- A white king on E1, and a black rook on H2 that guards the second rank.
abbrev guarded_placement : Placement
guarded_placement = put_piece 6 4 (put_piece 12 15 (put_piece 14 36 start_cursor.placement))

guarded_placement-IsConsistent : IsConsistent guarded_placement
unfolding put_piece put char_at
guarded_placement-IsConsistent =
    let blank = start_cursor.placement in
    let enemy_king =
      put_piece-IsConsistent blank 14 36 start_cursor-IsSound.consistent
        (letter-IsPiece 14 (omega arith) refl) (omega arith) refl in
    let enemy_rook =
      put_piece-IsConsistent (put_piece 14 36 blank) 12 15 enemy_king
        (letter-IsPiece 12 (omega arith) refl) (omega arith) refl in
    put_piece-IsConsistent (put_piece 12 15 (put_piece 14 36 blank)) 6 4 enemy_rook
      (letter-IsPiece 6 (omega arith) refl) (omega arith) refl

abbrev guarded : Position
guarded = record start { placement = guarded_placement; st = no_state 0 }

king_moves-guarded : king_moves GenType.quiets guarded 0 ≡ of_squares 4 3 ∷ of_squares 4 5 ∷ []
unfolding king_moves put_piece color_of type_of
king_moves-guarded = refl

king_moves-safe_example :
    (tally (λ m. to_sq m == 3) (king_moves GenType.quiets guarded 0)
      ≡ to_ℕ (
          test_bit (king_attack (square guarded_placement 0 king)) 3
          && (test_bit (king_target GenType.quiets guarded) 3
              && not (test_bit (threatened guarded) 3))))
    × All
        (λ m.
          test_bit
            (piece_attacks_bb (guarded_placement.board 15) 15 (seen_through guarded))
            (to_sq m)
          ≡ false)
        (king_moves GenType.quiets guarded 0)
unfolding put_piece put color_of opposite
king_moves-safe_example =
    king_moves-safe GenType.quiets guarded 15 3 guarded_placement-IsConsistent (inl refl)
      (omega arith) (λ z. absurd (omega arith)) refl

busy_OnBoard : OnBoard (all_of busy.placement)
unfolding all_of put_piece put type_of with_square
busy_OnBoard i h =
    digit_below 64 (all_of busy.placement) i (ltb→lt (all_of busy.placement) (2 ^ 64) refl) h

-- The knight of E5 takes the pawn of G6.
see_ge-Ends_example :
    Ends busy (to_sq (of_squares 36 46)) (start_exchange busy (of_squares 36 46) (pos 0)) (
      exchange_loop 64 busy
        (to_sq (of_squares 36 46))
        (start_exchange busy (of_squares 36 46) (pos 0)))
unfolding all_of put_piece test_bit from_sq to_sq of_squares put type_of with_square
see_ge-Ends_example =
    see_ge-Ends busy (of_squares 36 46) (pos 0) busy_OnBoard refl (λ e. absurd (omega arith))
