-- ===== src/Bitboard.antt =====
-- src/engine/bitboard.h: sets of squares as 64-bit numbers.
pub mod Scanning
pub mod Squares
pub mod Within
use stockfish.Base.{
  ℕ, zero, suc, ◌+◌, ◌-◌, ◌*◌, ◌/◌, ◌%◌, ◌^◌, bit_and, bit_or, bit_xor, Bool, not, ◌==◌,
  if◌then◌else◌, List, [], ◌∷◌,
}
use stockfish.Base.Int.{ℤ, pos, negsuc, eqb_ℤ}
use stockfish.Base.Words.{u64}
use stockfish.Types.Board.{Square, Color, white}

abbrev pub Bitboard : Type 0
Bitboard = ℕ

-- `1ULL << s`, of a square of the board.
abbrev pub square_bb : Square → Bitboard
square_bb s = 2 ^ s

-- `operator&`, of which the code reads whether it is nonzero.
unfoldable pub has : Bitboard → Square → Bool
has b s = not (bit_and b (square_bb s) == 0)

-- `operator|` and `operator^` with a square.
unfoldable pub with_square : Bitboard → Square → Bitboard
with_square b s = bit_or b (square_bb s)

unfoldable pub toggle_square : Bitboard → Square → Bitboard
toggle_square b s = bit_xor b (square_bb s)

-- `operator|` of two squares.
unfoldable pub two_squares : Square → Square → Bitboard
two_squares a b = bit_or (square_bb a) (square_bb b)

-- `~` of a 64-bit number.
abbrev pub complement : Bitboard → Bitboard
complement b = bit_xor b (2 ^ 64 - 1)

abbrev pub file_a_bb : Bitboard
file_a_bb = 0x0101010101010101

abbrev pub file_h_bb : Bitboard
file_h_bb = u64 (file_a_bb * 2 ^ 7)

abbrev pub rank_1_bb : Bitboard
rank_1_bb = 0xFF

abbrev pub rank_8_bb : Bitboard
rank_8_bb = u64 (rank_1_bb * 2 ^ (8 * 7))

unfoldable pub more_than_one : Bitboard → Bool
more_than_one b = not (bit_and b (u64 (b + 2 ^ 64 - 1)) == 0)

unfoldable pub rank_bb : ℕ → Bitboard
rank_bb r = u64 (rank_1_bb * 2 ^ (8 * r))

unfoldable pub file_bb : ℕ → Bitboard
file_bb f = u64 (file_a_bb * 2 ^ f)

-- A set moved by one step, or by two ranks; what would leave its rank over the side is masked out.
unfoldable pub shift : Bitboard → ℤ → Bitboard
shift b dir =
    if eqb_ℤ dir (pos 8)
    then u64 (b * 2 ^ 8)
    else if eqb_ℤ dir (negsuc 7)
    then b / 2 ^ 8
    else if eqb_ℤ dir (pos 16)
    then u64 (b * 2 ^ 16)
    else if eqb_ℤ dir (negsuc 15)
    then b / 2 ^ 16
    else if eqb_ℤ dir (pos 1)
    then u64 (bit_and b (complement file_h_bb) * 2)
    else if eqb_ℤ dir (negsuc 0)
    then bit_and b (complement file_a_bb) / 2
    else if eqb_ℤ dir (pos 9)
    then u64 (bit_and b (complement file_h_bb) * 2 ^ 9)
    else if eqb_ℤ dir (pos 7)
    then u64 (bit_and b (complement file_a_bb) * 2 ^ 7)
    else if eqb_ℤ dir (negsuc 6)
    then bit_and b (complement file_h_bb) / 2 ^ 7
    else if eqb_ℤ dir (negsuc 8)
    then bit_and b (complement file_a_bb) / 2 ^ 9
    else 0

unfoldable pub pawn_attacks_bb : Color → Bitboard → Bitboard
unfolding shift
pawn_attacks_bb c b =
    if c == white
    then bit_or (shift b (pos 7)) (shift b (pos 9))
    else bit_or (shift b (negsuc 8)) (shift b (negsuc 6))

-- The first digit that is set, from `i` on, of `fuel` digits.
unfoldable pub lowest : Bitboard → ℕ → ℕ → ℕ
lowest b zero i = i
lowest b (suc fuel) i = let rest = lowest b fuel (i + 1) in if b / 2 ^ i % 2 == 1 then i else rest

-- The number of the lowest digit that is set: `__builtin_ctzll`.
unfoldable pub lsb : Bitboard → Square
unfolding lowest
lsb b = lowest b 64 0

-- What `pop_lsb` leaves of a nonempty set.
unfoldable pub without_lsb : Bitboard → Bitboard
without_lsb b = bit_and b (b - 1)

-- The squares in the order in which `while (b) pop_lsb(b)` finds them; a set has at most 64.
unfoldable pub pop_all : ℕ → Bitboard → List Square
unfolding lsb without_lsb
pop_all zero b = []
pop_all (suc fuel) b = if b == 0 then [] else lsb b ∷ pop_all fuel (without_lsb b)

unfoldable pub squares_of : Bitboard → List Square
unfolding pop_all
squares_of b = pop_all 64 b
