-- ===== src/MoveGen/Caching.antt =====
-- src/engine/movegen.cpp: the cache of the sliders' attacks, which the capture list fills and the quiet
-- list reads back.
pub mod Types
pub mod Quiets
pub mod Fitting
use stockfish.MoveGen.Pawns.{splat_moves}
use stockfish.Base.{
  ℕ, bit_and, zero, suc, ◌+◌, ◌≤◌, ◌<◌, ◌≡◌, refl, sym, ap, ◌∙◌, ◌==◌, Bool, true, false,
  Bool-cases, inl, inr, List, [], ◌∷◌, ◌++◌, arith,
}
use mathlib.Core.Path.{subst}
use stockfish.Base.Lists.{length}
use stockfish.Base.Arrays.{Array, put, put_at, put_other}
use stockfish.Types.Board.{Color, PieceType, Square, knight, bishop, rook, queen}
use stockfish.Types.Moves.{Move}
use stockfish.Bitboard.{Bitboard}
use stockfish.Position.State.{Position}
use stockfish.MoveGen.{GenType}
use stockfish.MoveGen.Pieces.{CacheMode, Sliders, cut_attacks, look_up, walk_pieces, generate_moves}

-- A stretch of the cache: what pieces of a type are cut to, from an index on.
module _ (p : Position) (pt : PieceType) (line : Square → Bitboard) where
  abbrev pub Holds : Array Bitboard → ℕ → List Square → Type 0
  Holds att i [] = Unit
  Holds att i (from ∷ froms) = (att i ≡ cut_attacks p pt from (line from)) × Holds att (i + 1) froms

  pub Holds-cong :
      (a b : Array Bitboard) (i : ℕ) (froms : List Square)
      → ((j : ℕ) → j < i + length froms → b j ≡ a j)
      → Holds a i froms
      → Holds b i froms
  Holds-cong a b i [] h k = tt
  Holds-cong a b i (from ∷ froms) h k =
      (h i (omega arith) ∙ k.0, Holds-cong a b (i + 1) froms (λ j l. h j (omega arith)) k.1)

  module _ (target : Bitboard) (slider : (pt == knight) ≡ false) where
    abbrev walk : CacheMode → List Square → Sliders → List Move × Sliders
    walk mode froms s = walk_pieces mode p pt target line froms s

    abbrev filled : Square → Sliders → Sliders
    filled from s = record {
      att = put s.att s.next (cut_attacks p pt from (line from));
      next = s.next + 1;
    }

    look_up_none :
        (from : Square) (s : Sliders)
        → look_up CacheMode.no_cache p pt from (line from) s
          ≡ (cut_attacks p pt from (line from), s)
    unfolding look_up
    look_up_none from s = rw slider refl

    look_up_fill :
        (from : Square) (s : Sliders)
        → look_up CacheMode.fill_cache p pt from (line from) s
          ≡ (cut_attacks p pt from (line from), filled from s)
    unfolding look_up
    look_up_fill from s = rw slider refl

    look_up_use :
        (from : Square) (s : Sliders)
        → look_up CacheMode.use_cache p pt from (line from) s
          ≡ (s.att s.next, record s { next = s.next + 1 })
    unfolding look_up
    look_up_use from s = rw slider refl

    -- A turn of the loop, with what is looked up.
    abbrev turn : CacheMode → Square → List Square → Bitboard × Sliders → List Move × Sliders
    turn mode from froms r =
        (splat_moves from (bit_and r.0 target) ++ (walk mode froms r.1).0, (walk mode froms r.1).1)

    walk-turn :
        (mode : CacheMode) (from : Square) (froms : List Square) (s : Sliders)
        {r : Bitboard × Sliders}
        → look_up mode p pt from (line from) s ≡ r
        → walk mode (from ∷ froms) s ≡ turn mode from froms r
    unfolding walk_pieces
    walk-turn mode from froms s e = ap (turn mode from froms) e

    -- Filling: the moves are those without a cache, the index moves on, and the stretch holds.
    abbrev pub Fills : List Square → Sliders → List Move → List Move × Sliders → Type 0
    Fills froms s ms r =
        (r.0 ≡ ms)
        × (r.1.next ≡ s.next + length froms)
        × ((j : ℕ) → j < s.next → r.1.att j ≡ s.att j)
        × Holds r.1.att s.next froms

    pub fills :
        (froms : List Square) (s t : Sliders)
        → Fills froms s (walk CacheMode.no_cache froms t).0 (walk CacheMode.fill_cache froms s)
    fills [] s t = unfold walk_pieces in (refl, omega arith, λ j l. refl, tt)
    fills (from ∷ froms) s t =
        let rest = fills froms (filled from s) t in
        let cut = cut_attacks p pt from (line from) in
        let new : put s.att s.next cut s.next ≡ cut = put_at s.att s.next cut in
        subst (λ r. Fills (from ∷ froms) s r.0 (walk CacheMode.fill_cache (from ∷ froms) s))
          (sym (walk-turn CacheMode.no_cache from froms t (look_up_none from t)))
          (subst (Fills (from ∷ froms) s (turn CacheMode.no_cache from froms (cut, t)).0)
            (sym (walk-turn CacheMode.fill_cache from froms s (look_up_fill from s)))
            (
              ap (λ ms. splat_moves from (bit_and cut target) ++ ms) rest.0,
              omega (arith, rest.1),
              λ j l. rest.2 j (omega arith) ∙ put_other s.att s.next j cut (ground arith),
              (rest.2 s.next (omega arith) ∙ new, rest.3),
            ))

    -- Reading: where the stretch holds, the moves are those without a cache, and the index moves on.
    abbrev pub Reads : List Square → Sliders → List Move → List Move × Sliders → Type 0
    Reads froms s ms r = (r.0 ≡ ms) × (r.1 ≡ record s { next = s.next + length froms })

    pub reads :
        (froms : List Square) (s t : Sliders)
        → Holds s.att s.next froms
        → Reads froms s (walk CacheMode.no_cache froms t).0 (walk CacheMode.use_cache froms s)
    reads [] s t h = unfold walk_pieces in (refl, ap (λ n. record s { next = n }) (omega arith))
    reads (from ∷ froms) s t h =
        let rest = reads froms (record s { next = s.next + 1 }) t h.1 in
        let cut = cut_attacks p pt from (line from) in
        subst (λ r. Reads (from ∷ froms) s r.0 (walk CacheMode.use_cache (from ∷ froms) s))
          (sym (walk-turn CacheMode.no_cache from froms t (look_up_none from t)))
          (subst (Reads (from ∷ froms) s (turn CacheMode.no_cache from froms (cut, t)).0)
            (sym (walk-turn CacheMode.use_cache from froms s (look_up_use from s)))
            (
              ap
                    (λ a.
                      splat_moves from (bit_and a target)
                      ++ (walk CacheMode.use_cache froms (record s { next = s.next + 1 })).0)
                    h.0
                  ∙ ap (λ ms. splat_moves from (bit_and cut target) ++ ms) rest.0,
              rest.1 ∙ ap (λ n. record s { next = n }) (omega arith),
            ))
