-- ===== src/Position/Restoring/Castles.antt =====
-- A castling, taken back, where the squares of the king and of the rook may overlap.
use stockfish.Base.{ℕ, ◌<◌, ◌≡◌, sym, ap, ◌∙◌, false, ◌==◌, arith, Bool-cases, inl, inr}
use stockfish.Base.Arrays.{put, put_at, put_other}
use stockfish.Types.Board.{no_piece, rook, king, make_piece}
use stockfish.Position.Placement.{Placement, put_piece, remove_piece}
use stockfish.Position.Placement.Consistency.{IsPiece, IsConsistent}
use stockfish.Position.Placement.Putting.{put_piece-IsConsistent}
use stockfish.Position.Placement.Removing.{remove_piece-IsConsistent}
use stockfish.Position.Placement.Algebra.{put_piece-remove_piece, remove_piece-put_piece}
use stockfish.Position.TakingBack.{ClearFor}
use stockfish.Position.Castling.{castle, uncastle, king_to, rook_to}
use stockfish.Position.Restoring.{make_piece-IsPiece}

-- A castling, taken back.
module _ (p : Placement) (us from to : ℕ) (c : IsConsistent p) (side : us < 2) (h : from < 64)
    (k : to < 64) (o : p.board from ≡ make_piece us king)
    (q : p.board to ≡ make_piece us rook) where
  pub king_rook_apart : (from == to) ≡ false
  unfolding make_piece
  king_rook_apart = elim (Bool-cases (from == to)) [
    | inl e ↦
        let same : from ≡ to = ground arith in absurd (omega (arith, sym o ∙ ap p.board same ∙ q))
    | inr e ↦ e
  ]

  pub cleared :
      (s : ℕ) → ClearFor p from to s → (remove_piece from (remove_piece to p)).board s ≡ no_piece
  unfolding remove_piece put
  cleared s (inl e) = ground (arith, e)
  cleared s (inr (inl e)) = rw e (put_at (put p.board to no_piece) from no_piece)
  cleared s (inr (inr e)) = rw e (
      put_other (put p.board to no_piece) from to no_piece (ground (arith, king_rook_apart))
      ∙ put_at p.board to no_piece)

  pub castle_back :
      king_to us from to < 64
      → rook_to us from to < 64
      → (king_to us from to == rook_to us from to) ≡ false
      → ClearFor p from to (king_to us from to)
      → ClearFor p from to (rook_to us from to)
      → uncastle us from to (castle us from to p) ≡ p
  unfolding castle uncastle remove_piece put_piece
  castle_back kh rh apart kc rc =
      let kt = king_to us from to in
      let rt = rook_to us from to in
      let kpc = make_piece us king in
      let rpc = make_piece us rook in
      let kv : IsPiece kpc = make_piece-IsPiece us king side (omega arith) (omega arith) in
      let rv : IsPiece rpc = make_piece-IsPiece us rook side (omega arith) (omega arith) in
      let r1 = remove_piece to p in
      let c1 = remove_piece-IsConsistent p to c k (rw q rv) in
      let k1 : r1.board from ≡ kpc = put_other p.board to from no_piece king_rook_apart ∙ o in
      let v1 : IsPiece (r1.board from) = rw k1 kv in
      let r = remove_piece from r1 in
      let cr = remove_piece-IsConsistent r1 from c1 h v1 in
      let placed = put_piece kpc kt r in
      let rook_free : placed.board rt ≡ no_piece =
        put_other r.board kt rt kpc (ground (arith, apart)) ∙ cleared rt rc in
      ap (λ x. put_piece rpc to (put_piece kpc from (remove_piece kt x)))
        (remove_piece-put_piece placed rt (put_piece-IsConsistent r kpc kt cr kv kh (cleared kt kc))
          rh rpc rv rook_free)
      ∙ ap (λ x. put_piece rpc to (put_piece kpc from x))
          (remove_piece-put_piece r kt cr kh kpc kv (cleared kt kc))
      ∙ ap (put_piece rpc to)
          (ap (λ x. put_piece x from r) (sym k1) ∙ put_piece-remove_piece r1 from c1 h v1)
      ∙ ap (λ x. put_piece x to r1) (sym q)
      ∙ put_piece-remove_piece p to c k (rw q rv)

  -- A castling keeps squares, sets and numbers in agreement.
  pub castle-IsConsistent :
      king_to us from to < 64
      → rook_to us from to < 64
      → (king_to us from to == rook_to us from to) ≡ false
      → ClearFor p from to (king_to us from to)
      → ClearFor p from to (rook_to us from to)
      → IsConsistent (castle us from to p)
  unfolding castle remove_piece put_piece
  castle-IsConsistent kh rh apart kc rc =
      let kt = king_to us from to in
      let rt = rook_to us from to in
      let kpc = make_piece us king in
      let kv : IsPiece kpc = make_piece-IsPiece us king side (omega arith) (omega arith) in
      let rv = make_piece-IsPiece us rook side (omega arith) (omega arith) in
      let r1 = remove_piece to p in
      let c1 = remove_piece-IsConsistent p to c k (rw q rv) in
      let k1 : r1.board from ≡ kpc = put_other p.board to from no_piece king_rook_apart ∙ o in
      let v1 : IsPiece (r1.board from) = rw k1 kv in
      let r = remove_piece from r1 in
      let cr = remove_piece-IsConsistent r1 from c1 h v1 in
      put_piece-IsConsistent (put_piece kpc kt r) (make_piece us rook) rt
        (put_piece-IsConsistent r kpc kt cr kv kh (cleared kt kc)) rv rh
        (put_other r.board kt rt kpc (ground (arith, apart)) ∙ cleared rt rc)
