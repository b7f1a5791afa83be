-- ===== src/Position/Attackers/Threats.antt =====
-- src/engine/position.cpp: the set that `compute_threats` leaves for all pieces, and what each enemy
-- piece attacks.
use stockfish.Base.{
  ℕ, zero, suc, ◌≤◌, ◌≡◌, ◌≢◌, refl, ap, ◌∙◌, ◌⊎◌, inl, inr, Bool, true, false, ◌==◌, if◌then◌else◌,
  bit_or, arith,
}
use stockfish.Base.Arrays.{put}
use stockfish.Base.Bits.{test_bit, test_bit-bit_or}
use stockfish.Types.Board.{
  Color, PieceType, no_piece, all_pieces, pawn, knight, bishop, rook, queen, king, type_of,
  color_of, opposite,
}
use stockfish.Bitboard.{Bitboard, toggle_square}
use stockfish.Attacks.{piece_attacks_bb}
use stockfish.Position.Placement.{Placement}
use stockfish.Position.Placement.Consistency.{IsPiece, IsConsistent}
use stockfish.Position.State.{StateInfo, Position, all_of, square}
use stockfish.Position.Attackers.Joining.{xattacks_by-covers}
use stockfish.Position.Attackers.{xattacks_by, add_threats, compute_threats, threats_by}

in_left : (a b i : ℕ) → test_bit a i ≡ true → test_bit (bit_or a b) i ≡ true
in_left a b i h = ground (arith, test_bit-bit_or i a b)

in_right : (a b i : ℕ) → test_bit b i ≡ true → test_bit (bit_or a b) i ≡ true
in_right a b i h = ground (arith, test_bit-bit_or i a b)

module _ (p : Placement) (us : Color) (st : StateInfo) where
  -- The enemy's attacks, through the king.
  abbrev by : PieceType → Bitboard
  by pt = xattacks_by p pt (opposite us) (toggle_square (all_of p) (square p us king))

  computed_all :
      (compute_threats p us st).threats all_pieces
      ≡ bit_or
          (bit_or (bit_or (bit_or (bit_or (by pawn) (by knight)) (by bishop)) (by rook)) (by queen))
          (by king)
  unfolding compute_threats add_threats put
  computed_all = refl

  computed_covers :
      (t i : ℕ)
      → 1 ≤ t
      → t ≤ 6
      → test_bit (by t) i ≡ true
      → test_bit ((compute_threats p us st).threats all_pieces) i ≡ true
  computed_covers t i lo hi h = ap (λ b. test_bit b i) computed_all ∙ among t lo hi h
    where
      among :
          (t : ℕ)
          → 1 ≤ t
          → t ≤ 6
          → test_bit (by t) i ≡ true
          → test_bit
              (bit_or
                (bit_or
                  (bit_or (bit_or (bit_or (by pawn) (by knight)) (by bishop)) (by rook))
                  (by queen))
                (by king))
              i
            ≡ true
      among zero lo hi h = absurd (omega arith)
      among (suc zero) lo hi h =
          in_left _ _ i (in_left _ _ i (in_left _ _ i (in_left _ _ i (in_left (by pawn) _ i h))))
      among (suc (suc zero)) lo hi h =
          in_left _ _ i (in_left _ _ i (in_left _ _ i (in_left _ _ i (in_right _ (by knight) i h))))
      among (suc (suc (suc zero))) lo hi h =
          in_left _ _ i (in_left _ _ i (in_left _ _ i (in_right _ (by bishop) i h)))
      among (suc (suc (suc (suc zero)))) lo hi h =
          in_left _ _ i (in_left _ _ i (in_right _ (by rook) i h))
      among (suc (suc (suc (suc (suc zero))))) lo hi h = in_left _ _ i (in_right _ (by queen) i h)
      among (suc (suc (suc (suc (suc (suc zero)))))) lo hi h = in_right _ (by king) i h
      among (suc (suc (suc (suc (suc (suc (suc t))))))) lo hi h = absurd (omega arith)

-- The cached set is empty, so that it is computed when it is asked for, or it has been computed.
abbrev pub IsCurrent : Position → Type 0
IsCurrent p =
    (p.st.threats all_pieces ≡ 0)
    ⊎ (p.st.threats all_pieces
        ≡ (compute_threats p.placement p.side_to_move p.st).threats all_pieces)

from_either :
    (b : Bool) (x y : StateInfo)
    → (b ≡ false → y.threats all_pieces ≡ x.threats all_pieces)
    → (if b then x else y).threats all_pieces ≡ x.threats all_pieces
from_either true x y h = refl
from_either false x y h = h refl

from_current : {t x : ℕ} → (t ≡ 0) ⊎ (t ≡ x) → (t == 0) ≡ false → t ≡ x
from_current (inl e) h = absurd (ground arith)
from_current (inr e) h = e

opposite-le : (c : Color) → c ≤ 1 → opposite c ≤ 1
unfolding opposite
opposite-le zero h = omega arith
opposite-le (suc zero) h = omega arith
opposite-le (suc (suc c)) h = absurd (omega arith)

-- The enemy's pieces attack what `threats_by(ALL_PIECES)` has.
module _ (p : Position) (c : IsConsistent p.placement) (current : IsCurrent p) where
  threatened_computed :
      (threats_by p.placement p.side_to_move all_pieces p.st).0
      ≡ (compute_threats p.placement p.side_to_move p.st).threats all_pieces
  unfolding threats_by
  threatened_computed =
      from_either (p.st.threats all_pieces == 0) (compute_threats p.placement p.side_to_move p.st)
        p.st (from_current current)

  pub threats_by-covers :
      (s i : ℕ)
      → p.side_to_move ≤ 1
      → p.placement.board s ≢ 0
      → color_of (p.placement.board s) ≡ opposite p.side_to_move
      → test_bit
          (piece_attacks_bb
            (p.placement.board s)
            s
            (toggle_square (all_of p.placement) (square p.placement p.side_to_move king)))
          i
        ≡ true
      → test_bit (threats_by p.placement p.side_to_move all_pieces p.st).0 i ≡ true
  threats_by-covers s i le some own e =
      let range = type_range (c.pieces s) in
      ap (λ b. test_bit b i) threatened_computed
      ∙ computed_covers p.placement p.side_to_move p.st (type_of (p.placement.board s)) i range.0
          range.1
          (xattacks_by-covers p.placement c (opposite p.side_to_move)
            (toggle_square (all_of p.placement) (square p.placement p.side_to_move king)) s i
            (opposite-le p.side_to_move le) some own e)
    where
      type_range :
          (p.placement.board s ≡ no_piece) ⊎ IsPiece (p.placement.board s)
          → (1 ≤ type_of (p.placement.board s)) × (type_of (p.placement.board s) ≤ 6)
      type_range (inl e) = absurd (some e)
      type_range (inr v) = (let t = v.typed in ground arith, v.type_le)
