-- ===== src/MoveGen/Caching/Quiets.antt =====
-- The capture list and the quiet list of src/engine/movegen.cpp, with the cache between them.
use stockfish.Base.{
  ℕ, ◌+◌, ◌≡◌, refl, sym, ap, ◌∙◌, false, List, [], ◌∷◌, ◌++◌, arith, if◌then◌else◌, ◌&&◌,
}
use mathlib.Core.Path.{subst, ap₂}
use stockfish.Base.Arrays.{Array}
use stockfish.Types.Board.{Color, PieceType, knight, bishop, rook, queen}
use stockfish.Types.Moves.{Move}
use stockfish.Bitboard.{Bitboard, more_than_one}
use stockfish.Position.State.{Position}
use stockfish.MoveGen.{GenType, is_evasions}
use stockfish.MoveGen.Pawns.{generate_pawn_moves}
use stockfish.MoveGen.Pieces.{CacheMode, Sliders, look_up, walk_pieces, generate_moves, whole_board}
use stockfish.MoveGen.Generating.{target_of, officers, generate_all, generate, generate_cached}
use stockfish.MoveGen.Caching.Types.{
  HoldsType, HoldsType-cong, stretch, unpinned, type_fills, type_reads,
}

-- Knights do not touch the cache.
module _ (p : Position) (target : Bitboard) (us : Color) (s : Sliders) where
  abbrev knights : List Move × Sliders
  knights = generate_moves CacheMode.no_cache knight p target us s

  walk_keeps :
      (line : ℕ → Bitboard) (froms : List ℕ)
      → (walk_pieces CacheMode.no_cache p knight target line froms s).1 ≡ s
  unfolding walk_pieces look_up
  walk_keeps line [] = refl
  walk_keeps line (from ∷ froms) = walk_keeps line froms

  knights_keep : knights.1 ≡ s
  unfolding generate_moves
  knights_keep = walk_keeps whole_board (unpinned p us knight)

-- Nor do their moves depend on it.
module _ (p : Position) (target : Bitboard) (us : Color) (s t : Sliders) where
  walk_same :
      (line : ℕ → Bitboard) (froms : List ℕ)
      → (walk_pieces CacheMode.no_cache p knight target line froms s).0
        ≡ (walk_pieces CacheMode.no_cache p knight target line froms t).0
  unfolding walk_pieces look_up
  walk_same line [] = refl
  walk_same line (from ∷ froms) = ap₂ ◌++◌ refl (walk_same line froms)

  knights_same : (knights p target us s).0 ≡ (knights p target us t).0
  unfolding generate_moves
  knights_same = ap₂ ◌++◌ (walk_same whole_board (unpinned p us knight)) refl

module _ (p : Position) (us : Color) where
  abbrev pub HoldsAll : Array Bitboard → Type 0
  HoldsAll att =
      HoldsType p us bishop att 0
      × HoldsType p us rook att (0 + stretch p us bishop)
      × HoldsType p us queen att (0 + stretch p us bishop + stretch p us rook)

module _ (p : Position) (us : Color) (target : Bitboard) where
  abbrev of_type : CacheMode → PieceType → Sliders → List Move × Sliders
  of_type mode pt s = generate_moves mode pt p target us s

  -- The three slider types in turn.
  abbrev three : CacheMode → Sliders → List Move × Sliders
  three mode s =
      let (bishops, s1) = of_type mode bishop s in
      let (rooks, s2) = of_type mode rook s1 in
      let (queens, s3) = of_type mode queen s2 in (bishops ++ (rooks ++ queens), s3)

  three_fill :
      (att : Array Bitboard) (t : Sliders)
      → ((three CacheMode.fill_cache (record { att = att; next = 0 })).0
          ≡ (three CacheMode.no_cache t).0)
        × HoldsAll p us (three CacheMode.fill_cache (record { att = att; next = 0 })).1.att
  three_fill att t =
      let s : Sliders = record { att = att; next = 0 } in
      let b = type_fills p us bishop target refl s t in
      let s1 = (of_type CacheMode.fill_cache bishop s).1 in
      let t1 = (of_type CacheMode.no_cache bishop t).1 in
      let r = type_fills p us rook target refl s1 t1 in
      let s2 = (of_type CacheMode.fill_cache rook s1).1 in
      let t2 = (of_type CacheMode.no_cache rook t1).1 in
      let q = type_fills p us queen target refl s2 t2 in
      let s3 = (of_type CacheMode.fill_cache queen s2).1 in
      (
        ap₂ ◌++◌ b.0 (ap₂ ◌++◌ r.0 q.0),
        (
          HoldsType-cong p us bishop s1.att s3.att 0
              (λ j l. q.2 j (omega (arith, b.1, r.1)) ∙ r.2 j (omega (arith, b.1))) b.3,
          HoldsType-cong p us rook s2.att s3.att (0 + stretch p us bishop)
              (λ j l. q.2 j (omega (arith, b.1, r.1)))
              (subst (λ i. HoldsType p us rook s2.att i) b.1 r.3),
          subst (λ i. HoldsType p us queen s3.att i) (r.1 ∙ ap (λ i. i + stretch p us rook) b.1)
              q.3,
        ),
      )

  -- How far the index goes.
  three_next :
      (s : Sliders)
      → (three CacheMode.fill_cache s).1.next
        ≡ s.next + stretch p us bishop + stretch p us rook + stretch p us queen
  three_next s =
      let s1 = (of_type CacheMode.fill_cache bishop s).1 in
      let s2 = (of_type CacheMode.fill_cache rook s1).1 in
      let b = (type_fills p us bishop target refl s s).1 in
      let r = (type_fills p us rook target refl s1 s1).1 in
      let q = (type_fills p us queen target refl s2 s2).1 in omega (arith, b, r, q)

  three_read :
      (att : Array Bitboard) (t : Sliders)
      → HoldsAll p us att
      → (three CacheMode.use_cache (record { att = att; next = 0 })).0
        ≡ (three CacheMode.no_cache t).0
  three_read att t h =
      let s : Sliders = record { att = att; next = 0 } in
      let b = type_reads p us bishop target refl s t h.0 in
      let t1 = (of_type CacheMode.no_cache bishop t).1 in
      let s1 : Sliders = record { att = att; next = 0 + stretch p us bishop } in
      let r = type_reads p us rook target refl s1 t1 h.1 in
      let t2 = (of_type CacheMode.no_cache rook t1).1 in
      let s2 : Sliders = record { att = att; next = 0 + stretch p us bishop + stretch p us rook } in
      let q = type_reads p us queen target refl s2 t2 h.2 in
      let rooks = λ (s : Sliders).
        (of_type CacheMode.use_cache rook s).0
        ++ (of_type CacheMode.use_cache queen (of_type CacheMode.use_cache rook s).1).0 in
      ap₂ ◌++◌ b.0
        (ap rooks b.1 ∙ ap₂ ◌++◌ r.0 (ap (λ s. (of_type CacheMode.use_cache queen s).0) r.1 ∙ q.0))

-- The lists of all but the king, by the slider types.
module _ (p : Position) (us : Color) (type : GenType) (plays : is_evasions type ≡ false) where
  abbrev goal : Bitboard
  goal = target_of type p us

  abbrev behind : Sliders → List Move × Sliders → List Move × Sliders
  behind s r = (generate_pawn_moves us type p goal ++ ((knights p goal us s).0 ++ r.0), r.1)

  officers_lem :
      (mode : CacheMode) (s : Sliders)
      → officers type mode p us s ≡ behind s (three p us goal mode s)
  unfolding officers
  officers_lem mode s =
      ap
        (λ b.
          if b && more_than_one p.st.checkers_bb
          then ([], s)
          else behind s (three p us goal mode (knights p goal us s).1))
        plays
      ∙ ap (λ t. behind s (three p us goal mode t)) (knights_keep p goal us s)

  behind_same :
      (s t : Sliders) (r q : List Move × Sliders) → r.0 ≡ q.0 → (behind s r).0 ≡ (behind t q).0
  behind_same s t r q h = ap₂ ◌++◌ refl (ap₂ ◌++◌ (knights_same p goal us s t) h)

  pub officers_fill :
      (att : Array Bitboard) (t : Sliders)
      → ((officers type CacheMode.fill_cache p us (record { att = att; next = 0 })).0
          ≡ (officers type CacheMode.no_cache p us t).0)
        × HoldsAll p us
            (officers type CacheMode.fill_cache p us (record { att = att; next = 0 })).1.att
  officers_fill att t =
      let s : Sliders = record { att = att; next = 0 } in
      let e = officers_lem CacheMode.fill_cache s in
      let f = three_fill p us goal att t in
      (
        ap (λ r. r.0) e
            ∙ behind_same s t (three p us goal CacheMode.fill_cache s)
                (three p us goal CacheMode.no_cache t) f.0
            ∙ sym (ap (λ r. r.0) (officers_lem CacheMode.no_cache t)),
        subst (λ r. HoldsAll p us r.1.att) (sym e) f.1,
      )

  pub officers_next :
      (s : Sliders)
      → (officers type CacheMode.fill_cache p us s).1.next
        ≡ s.next + stretch p us bishop + stretch p us rook + stretch p us queen
  officers_next s =
      ap (λ r. r.1.next) (officers_lem CacheMode.fill_cache s) ∙ three_next p us goal s

  pub officers_read :
      (att : Array Bitboard) (t : Sliders)
      → HoldsAll p us att
      → (officers type CacheMode.use_cache p us (record { att = att; next = 0 })).0
        ≡ (officers type CacheMode.no_cache p us t).0
  officers_read att t h =
      let s : Sliders = record { att = att; next = 0 } in
      ap (λ r. r.0) (officers_lem CacheMode.use_cache s)
      ∙ behind_same s t (three p us goal CacheMode.use_cache s)
          (three p us goal CacheMode.no_cache t) (three_read p us goal att t h)
      ∙ sym (ap (λ r. r.0) (officers_lem CacheMode.no_cache t))

-- The capture list is the same whether it fills the cache or not, whatever the cache held; and the
-- quiet list that then reads the sliders' attacks back is the one generated without a cache.
pub cached_lists_same :
    (p : Position) (cache : Array Bitboard)
    → ((generate_cached GenType.captures CacheMode.fill_cache p cache).0
        ≡ generate GenType.captures p)
      × ((generate_cached GenType.quiets CacheMode.use_cache p
            (generate_cached GenType.captures CacheMode.fill_cache p cache).1).0
          ≡ generate GenType.quiets p)
unfolding generate_cached generate generate_all
cached_lists_same p cache =
    let us = p.side_to_move in
    let blank : Sliders = record { att = λ i. 0; next = 0 } in
    let filled = officers_fill p us GenType.captures refl cache blank in
    (
      ap₂ ◌++◌ filled.0 refl,
      ap₂ ◌++◌ (officers_read p us GenType.quiets refl _ blank filled.1) refl,
    )
