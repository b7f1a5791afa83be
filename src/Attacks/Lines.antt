-- ===== src/Attacks/Lines.antt =====
-- src/engine/attacks.cpp: `line_mask`, and the two tables of whole diagonals.
use stockfish.Base.{ℕ, zero, suc, bit_or, ◌==◌, if◌then◌else◌}
use stockfish.Base.Int.{ℤ, pos, negsuc}
use stockfish.Types.Board.{Square, step_by}
use stockfish.Bitboard.{Bitboard, with_square}
use stockfish.Attacks.{safe_destination}

-- The inner loop; a ray has at most seven squares.
unfoldable pub walk_line : ℕ → Square → ℤ → Bitboard → Bitboard
unfolding safe_destination step_by
walk_line zero s d mask = mask
walk_line (suc fuel) s d mask =
    let dest = safe_destination s d in
    let rest = walk_line fuel (step_by s d) d (bit_or mask dest) in if dest == 0 then mask else rest

unfoldable pub line_mask : Square → ℤ → ℤ → Bitboard
unfolding walk_line
line_mask sq d1 d2 = walk_line 8 sq d2 (walk_line 8 sq d1 0)

unfoldable pub diag_bb : Square → Bitboard
unfolding line_mask with_square
diag_bb s = with_square (line_mask s (pos 9) (negsuc 8)) s

unfoldable pub antidiag_bb : Square → Bitboard
unfolding line_mask with_square
antidiag_bb s = with_square (line_mask s (pos 7) (negsuc 6)) s
