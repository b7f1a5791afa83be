-- ===== src/Types/Castling.antt =====
-- src/engine/types.h: castling rights, a set of four bits.
use stockfish.Base.{ℕ, ◌*◌, ◌-◌, ◌^◌, bit_and, bit_or, bit_xor, ◌==◌, if◌then◌else◌}
use stockfish.Types.Board.{Color, white}

abbrev pub CastlingRights : Type 0
CastlingRights = ℕ

abbrev pub white_oo : CastlingRights
white_oo = 1

abbrev pub white_ooo : CastlingRights
white_ooo = white_oo * 2

abbrev pub black_oo : CastlingRights
black_oo = white_oo * 4

abbrev pub black_ooo : CastlingRights
black_ooo = white_oo * 8

abbrev pub king_side : CastlingRights
king_side = bit_or white_oo black_oo

abbrev pub queen_side : CastlingRights
queen_side = bit_or white_ooo black_ooo

abbrev pub white_castling : CastlingRights
white_castling = bit_or white_oo white_ooo

abbrev pub black_castling : CastlingRights
black_castling = bit_or black_oo black_ooo

abbrev pub any_castling : CastlingRights
any_castling = bit_or white_castling black_castling

-- `operator&(Color, CastlingRights)`.
unfoldable pub rights_of : Color → CastlingRights → CastlingRights
rights_of c cr = bit_and (if c == white then white_castling else black_castling) cr

-- `operator-`: `a & ~b` on 32-bit numbers.
unfoldable pub without : CastlingRights → CastlingRights → CastlingRights
without a b = bit_and a (bit_xor b (2 ^ 32 - 1))
