-- ===== src/MoveGen/KingMoves.antt =====
-- Where the moves of the king of src/engine/movegen.cpp lead.
use stockfish.Base.{
  ℕ, ◌&&◌, ◌^◌, ◌≤◌, ◌<◌, ◌≡◌, ◌≢◌, refl, sym, ap, ◌∙◌, inl, inr, true, false, not, ◌==◌,
  Bool-cases, ltb, if◌then◌else◌, to_ℕ, bit_and, arith,
}
use stockfish.Base.Filters.{tally}
use stockfish.Base.Lists.{All, All-mono}
use stockfish.Base.Bits.{test_bit, test_bit-bit_and}
use stockfish.Base.Bits.Tables.{passes_below, passes_below_sound}
use stockfish.Base.Tests.{ltb→lt}
use stockfish.Types.Board.{Color, Square, no_piece, color_of, opposite, king}
use stockfish.Types.Moves.{to_sq}
use stockfish.Bitboard.{Bitboard, complement, toggle_square, lsb}
use stockfish.Attacks.{king_attack, pseudo_attacks, piece_attacks_bb}
use stockfish.Bitboard.Within.{complement_digit}
use stockfish.Bitboard.Scanning.{lowest-le, digit_below}
use stockfish.Position.Placement.Consistency.{IsConsistent}
use stockfish.Position.Attackers.Threats.{IsCurrent, threats_by-covers}
use stockfish.Position.State.{Position, all_of, colored, colored_of, square}
use stockfish.MoveGen.Pawns.{splat_moves}
use stockfish.MoveGen.{GenType, is_evasions}
use stockfish.MoveGen.Generating.{king_moves, target_of, threatened}
use stockfish.MoveGen.Targets.{OnBoard, right_digit, splat_moves-All, splat_moves-tally}

-- The squares next to one lie on the board.
king_attack-lt : (s : ℕ) → s < 65 → king_attack s < 2 ^ 64
king_attack-lt s h =
    ltb→lt (king_attack s) (2 ^ 64)
      (passes_below_sound 65 (λ s. ltb (king_attack s) (2 ^ 64)) s table h)
  where
    table : passes_below 65 (λ s. ltb (king_attack s) (2 ^ 64)) ≡ true
    table = unfold passes_below in unfold king_attack in refl

square-le : (p : Position) (us : Color) → square p.placement us king ≤ 64
unfolding square lsb
square-le p us = lowest-le (colored_of p.placement us king) 64 0

pseudo_attacks-king : (s : ℕ) → pseudo_attacks king s ≡ king_attack s
unfolding pseudo_attacks
pseudo_attacks-king s = refl

module _ (ksq : Square) (t u : Bitboard) (h : ksq ≤ 64) where
  abbrev safe_squares : Bitboard
  safe_squares = bit_and (pseudo_attacks king ksq) (bit_and t (complement u))

  safe_OnBoard : OnBoard safe_squares
  safe_OnBoard i e = digit_below 64 (king_attack ksq) i (king_attack-lt ksq (omega arith)) (
      ap (λ b. test_bit b i) (sym (pseudo_attacks-king ksq))
      ∙ ground (arith, test_bit-bit_and i (pseudo_attacks king ksq) (bit_and t (complement u))))

  safe_digit : (i : ℕ) → test_bit safe_squares i ≡ true → test_bit u i ≡ false
  safe_digit i e =
      let free : test_bit (complement u) i ≡ true =
        right_digit t (complement u) i
          (right_digit (pseudo_attacks king ksq) (bit_and t (complement u)) i e) in
      ground (arith, complement_digit u i (safe_OnBoard i e))

  splat_safe : All (λ m. test_bit u (to_sq m) ≡ false) (splat_moves ksq safe_squares)
  splat_safe =
      All-mono (λ m e. safe_digit (to_sq m) e) (splat_moves ksq safe_squares)
        (splat_moves-All ksq safe_squares safe_OnBoard)

king_moves-avoid :
    (type : GenType) (p : Position) (us : Color)
    → All (λ m. test_bit (threatened p) (to_sq m) ≡ false) (king_moves type p us)
unfolding king_moves
king_moves-avoid type p us =
    splat_safe (square p.placement us king)
      (if is_evasions type then complement (colored p.placement us) else target_of type p us)
      (threatened p) (square-le p us)

-- What the pieces see with the own king taken off the board.
abbrev pub seen_through : Position → Bitboard
seen_through p = toggle_square (all_of p.placement) (square p.placement p.side_to_move king)

threatened-covers :
    (p : Position)
    → IsConsistent p.placement
    → IsCurrent p
    → (s i : ℕ) → p.side_to_move ≤ 1
    → p.placement.board s ≢ no_piece
    → color_of (p.placement.board s) ≡ opposite p.side_to_move
    → test_bit (piece_attacks_bb (p.placement.board s) s (seen_through p)) i ≡ true
    → test_bit (threatened p) i ≡ true
unfolding threatened
threatened-covers p c current s i le some own e = threats_by-covers p c current s i le some own e

-- The target of the king's moves.
abbrev pub king_target : GenType → Position → Bitboard
king_target type p =
    if is_evasions type
    then complement (colored p.placement p.side_to_move)
    else target_of type p p.side_to_move

king_moves-tally :
    (type : GenType) (p : Position) (t : Square)
    → tally (λ m. to_sq m == t) (king_moves type p p.side_to_move)
      ≡ to_ℕ (
          test_bit
            (safe_squares
              (square p.placement p.side_to_move king)
              (king_target type p)
              (threatened p)
              (square-le p p.side_to_move))
            t)
unfolding king_moves
king_moves-tally type p t =
    let ksq = square p.placement p.side_to_move king in
    let le = square-le p p.side_to_move in
    splat_moves-tally ksq (safe_squares ksq (king_target type p) (threatened p) le)
      (safe_OnBoard ksq (king_target type p) (threatened p) le) t

next_to_king :
    (ksq : Square) (t u : Bitboard) (h : ksq ≤ 64) (i : ℕ)
    → test_bit (safe_squares ksq t u h) i
      ≡ (test_bit (king_attack ksq) i && (test_bit t i && not (test_bit u i)))
next_to_king ksq t u h i =
    let digits =
      ap (λ b. test_bit (bit_and b (bit_and t (complement u))) i) (pseudo_attacks-king ksq)
      ∙ test_bit-bit_and i (king_attack ksq) (bit_and t (complement u)) in
    elim (Bool-cases (test_bit (king_attack ksq) i)) [
      | inl e ↦
          let lt : i < 64 =
            digit_below 64 (king_attack ksq) i (king_attack-lt ksq (omega arith)) e in
          ground (arith, digits, e, test_bit-bit_and i t (complement u), complement_digit u i lt)
      | inr e ↦ ground (arith, digits, e)
    ]

-- The moves of the king that are generated for the side to move, of whatever kind of list, lead to the
-- squares next to it that are in the target and not in `threats_by(ALL_PIECES)`, once to each; and to
-- no square that a given enemy piece attacks on the board from which the king is taken away. This is
-- where squares, sets and numbers of pieces agree, and the cached set of threats is not yet computed or
-- is what `compute_threats` computes.
pub king_moves-safe :
    (type : GenType) (p : Position) (s t : Square)
    → IsConsistent p.placement
    → IsCurrent p
    → p.side_to_move ≤ 1
    → p.placement.board s ≢ no_piece
    → color_of (p.placement.board s) ≡ opposite p.side_to_move
    → (tally (λ m. to_sq m == t) (king_moves type p p.side_to_move)
        ≡ to_ℕ (
            test_bit (king_attack (square p.placement p.side_to_move king)) t
            && (test_bit (king_target type p) t && not (test_bit (threatened p) t))))
      × All
          (λ m.
            test_bit (piece_attacks_bb (p.placement.board s) s (seen_through p)) (to_sq m) ≡ false)
          (king_moves type p p.side_to_move)
king_moves-safe type p s t c current le some own =
    let seen = piece_attacks_bb (p.placement.board s) s (seen_through p) in
    let near =
      next_to_king (square p.placement p.side_to_move king) (king_target type p) (threatened p)
        (square-le p p.side_to_move) t in
    (
      king_moves-tally type p t ∙ ap to_ℕ near,
      All-mono
          (λ m h. elim (Bool-cases (test_bit seen (to_sq m))) [
            | inl e ↦
                absurd (ground (arith, threatened-covers p c current s (to_sq m) le some own e, h))
            | inr e ↦ e
          ])
          (king_moves type p p.side_to_move) (king_moves-avoid type p p.side_to_move),
    )
