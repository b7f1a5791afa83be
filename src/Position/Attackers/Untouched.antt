-- ===== src/Position/Attackers/Untouched.antt =====
-- What `set_extra_bitboards` leaves as it is.
use stockfish.Base.{
  ℕ, ◌≡◌, refl, ◌∙◌, not, ◌&&◌, ◌==◌, Bool-cases, inl, inr, bit_and, bit_xor, List, [], ◌∷◌,
}
use stockfish.Types.Board.{king}
use stockfish.Bitboard.{more_than_one, squares_of}
use stockfish.Attacks.{between_bb}
use stockfish.Position.Placement.{Placement}
use stockfish.Position.State.{StateInfo, square, all_of}
use stockfish.Position.Attackers.{
  add_sniper, add_snipers, snipers_of, clear_blockers, update_slider_blockers, set_extra_bitboards,
}

pub record Untouched (a b : StateInfo) : Type 0 where
  pub captured_piece : a.captured_piece ≡ b.captured_piece
  pub key : a.key ≡ b.key
  pub ep_square : a.ep_square ≡ b.ep_square
  pub castling_rights : a.castling_rights ≡ b.castling_rights

Untouched-trans : (a b c : StateInfo) → Untouched a b → Untouched b c → Untouched a c
Untouched-trans a b c u v = record {
  captured_piece = u.captured_piece ∙ v.captured_piece;
  key = u.key ∙ v.key;
  ep_square = u.ep_square ∙ v.ep_square;
  castling_rights = u.castling_rights ∙ v.castling_rights;
}

add_sniper-Untouched :
    (p : Placement) (c ksq occ s : ℕ) (st : StateInfo) → Untouched (add_sniper p c ksq occ s st) st
unfolding add_sniper
add_sniper-Untouched p c ksq occ s st =
    let b = bit_and (between_bb ksq s) occ in
    elim (Bool-cases (not (b == 0) && not (more_than_one b))) [
      | inl e ↦
          rw e
            (record { captured_piece = refl; key = refl; ep_square = refl; castling_rights = refl })
      | inr e ↦
          rw e
            (record { captured_piece = refl; key = refl; ep_square = refl; castling_rights = refl })
    ]

add_snipers-Untouched :
    (p : Placement) (c ksq occ : ℕ) (snipers : List ℕ) (st : StateInfo)
    → Untouched (add_snipers p c ksq occ snipers st) st
unfolding add_snipers
add_snipers-Untouched p c ksq occ [] st = record {
  captured_piece = refl;
  key = refl;
  ep_square = refl;
  castling_rights = refl;
}
add_snipers-Untouched p c ksq occ (s ∷ snipers) st =
    let next = add_sniper p c ksq occ s st in
    Untouched-trans (add_snipers p c ksq occ snipers next) next st
      (add_snipers-Untouched p c ksq occ snipers next) (add_sniper-Untouched p c ksq occ s st)

update_slider_blockers-Untouched :
    (p : Placement) (c : ℕ) (st : StateInfo) → Untouched (update_slider_blockers p c st) st
unfolding update_slider_blockers clear_blockers
update_slider_blockers-Untouched p c st =
    let ksq = square p c king in
    let snipers = snipers_of p c ksq in
    let same =
      add_snipers-Untouched p c ksq (bit_xor (all_of p) snipers) (squares_of snipers)
        (clear_blockers c st) in
    record {
      captured_piece = same.captured_piece;
      key = same.key;
      ep_square = same.ep_square;
      castling_rights = same.castling_rights;
    }

pub set_extra_bitboards-Untouched :
    (p : Placement) (c : ℕ) (st : StateInfo) → Untouched (set_extra_bitboards p c st) st
unfolding set_extra_bitboards
set_extra_bitboards-Untouched p c st =
    let first = update_slider_blockers p 0 st in
    let same =
      Untouched-trans (update_slider_blockers p 1 first) first st
        (update_slider_blockers-Untouched p 1 first) (update_slider_blockers-Untouched p 0 st) in
    record {
      captured_piece = same.captured_piece;
      key = same.key;
      ep_square = same.ep_square;
      castling_rights = same.castling_rights;
    }
