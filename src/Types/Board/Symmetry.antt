-- ===== src/Types/Board/Symmetry.antt =====
-- src/engine/types.h: what the exclusive ors of squares, ranks and pieces mean on the board.
use stockfish.Base.{ℕ, ◌-◌, ◌%◌, ◌<◌, ◌≡◌, refl, ◌∙◌, true, arith, ◌==◌, if◌then◌else◌}
use stockfish.Base.Bits.Fields.{bit_and-low_mask}
use stockfish.Base.Bits.Tables.{equal_on_grid, equal_on_grid_sound}
use stockfish.Types.Board.{
  Square, Piece, white, opposite, flip_rank, flip_file, swap_color, make_square, make_piece,
  type_of, color_of, file_of, rank_of, relative_square, relative_rank, relative_rank_of,
}

pub file_of-mod : (s : Square) → file_of s ≡ s % 8
unfolding file_of
file_of-mod s = bit_and-low_mask 3 7 s refl

pub type_of-mod : (pc : Piece) → type_of pc ≡ pc % 8
unfolding type_of
type_of-mod pc = bit_and-low_mask 3 7 pc refl

-- Every file and rank of the board make a square below 64 that has them, and every square is made
-- of its own file and rank.
pub make_square_fields :
    (f r s : ℕ)
    → f < 8
    → r < 8
    → s < 64
    → (file_of (make_square f r) ≡ f)
      × (rank_of (make_square f r) ≡ r)
      × (make_square f r < 64)
      × (make_square (file_of s) (rank_of s) ≡ s)
unfolding make_square rank_of
make_square_fields f r s hf hr hs = (
  file_of-mod (make_square f r) ∙ omega arith,
  omega arith,
  omega arith,
  omega (arith, file_of-mod s),
)

-- A colour and a type below 8 make a piece of that type and colour; `~` on a piece
-- changes its colour and keeps its type, and twice gives the piece back.
pub make_piece_fields :
    (c pt : ℕ)
    → c < 2
    → pt < 8
    → (type_of (make_piece c pt) ≡ pt)
      × (color_of (make_piece c pt) ≡ c)
      × (swap_color (make_piece c pt) ≡ make_piece (opposite c) pt)
      × (swap_color (swap_color (make_piece c pt)) ≡ make_piece c pt)
unfolding make_piece color_of swap_color opposite equal_on_grid
make_piece_fields c pt hc hp = (
  type_of-mod (make_piece c pt) ∙ omega arith,
  omega arith,
  equal_on_grid_sound 2 8 (λ c pt. swap_color (make_piece c pt))
      (λ c pt. make_piece (opposite c) pt) c pt refl hc hp,
  equal_on_grid_sound 2 8 (λ c pt. swap_color (swap_color (make_piece c pt))) make_piece c pt refl
      hc hp,
)

-- Seen from a colour, a square keeps its file and has its rank mirrored for black alone; the rank
-- so seen is that of the square so seen, and looking twice gives the square back.
pub relative_square_fields :
    (c s : ℕ)
    → c < 2
    → s < 64
    → (file_of (relative_square c s) ≡ file_of s)
      × (rank_of (relative_square c s) ≡ (if c == white then rank_of s else 7 - rank_of s))
      × (relative_rank_of c s ≡ rank_of (relative_square c s))
      × (relative_square c (relative_square c s) ≡ s)
unfolding file_of rank_of relative_square relative_rank_of relative_rank equal_on_grid
relative_square_fields c s hc hs = (
  equal_on_grid_sound 2 64 (λ c s. file_of (relative_square c s)) (λ c s. file_of s) c s refl hc hs,
  equal_on_grid_sound 2 64 (λ c s. rank_of (relative_square c s))
      (λ c s. if c == white then rank_of s else 7 - rank_of s) c s refl hc hs,
  equal_on_grid_sound 2 64 relative_rank_of (λ c s. rank_of (relative_square c s)) c s refl hc hs,
  equal_on_grid_sound 2 64 (λ c s. relative_square c (relative_square c s)) (λ c s. s) c s refl hc
      hs,
)

-- `flip_rank` mirrors the rank and keeps the file, `flip_file` the other way round; each undoes
-- itself, and they commute.
pub flip_fields :
    (s : ℕ)
    → s < 64
    → (flip_rank s ≡ make_square (file_of s) (7 - rank_of s))
      × (flip_file s ≡ make_square (7 - file_of s) (rank_of s))
      × (flip_rank (flip_rank s) ≡ s)
      × (flip_file (flip_file s) ≡ s)
      × (flip_rank (flip_file s) ≡ flip_file (flip_rank s))
unfolding flip_rank flip_file make_square file_of rank_of equal_on_grid
flip_fields s hs = (
  at_square flip_rank (λ s. make_square (file_of s) (7 - rank_of s)) refl,
  at_square flip_file (λ s. make_square (7 - file_of s) (rank_of s)) refl,
  at_square (λ s. flip_rank (flip_rank s)) (λ s. s) refl,
  at_square (λ s. flip_file (flip_file s)) (λ s. s) refl,
  at_square (λ s. flip_rank (flip_file s)) (λ s. flip_file (flip_rank s)) refl,
)
  where
    at_square : (f g : ℕ → ℕ) → equal_on_grid 1 64 (λ _. f) (λ _. g) ≡ true → f s ≡ g s
    at_square f g h = equal_on_grid_sound 1 64 (λ _. f) (λ _. g) 0 s h (omega arith) hs
