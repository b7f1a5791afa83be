-- ===== src/Position/Exchange.antt =====
-- src/engine/position.cpp: `see_ge`, the static exchange evaluation.
pub mod Ending
use stockfish.Base.{
  ℕ, zero, suc, bit_and, bit_or, bit_xor, Bool, true, false, not, ◌&&◌, ◌||◌, ◌==◌, if◌then◌else◌,
  ◌⊎◌, inl, inr,
}
use stockfish.Base.Int.{ℤ, pos, ltb_ℤ, leb_ℤ, ◌-ℤ◌}
use stockfish.Types.Board.{
  Color, PieceType, Square, pawn, knight, bishop, rook, queen, opposite, piece_value,
}
use stockfish.Types.Moves.{Move, from_sq, to_sq, move_type, normal}
use stockfish.Bitboard.{Bitboard, lsb, toggle_square, complement}
use stockfish.Attacks.{attacks_bb}
use stockfish.Position.State.{Position, all_of, of, colored}
use stockfish.Position.Attackers.{of_either, attackers_to}

-- The variables of the loop; `res` is 0 or 1.
pub record Exchange : Type 0 where
  pub stm : Color
  pub attackers : Bitboard
  pub occupied : Bitboard
  pub swap : ℤ
  pub res : ℕ

-- A capture by the least valuable attacker, one of `bb`, of the given value, and the sliders that it
-- uncovers. With `gives_up` the loop ends if the gain is below `res`.
unfoldable pub recapture :
    Position → Square → Exchange → ℤ → Bool → Bitboard → (Bitboard → Bitboard) → Exchange ⊎ Bool
recapture p to x value gives_up bb uncovers =
    let swap = value -ℤ x.swap in
    let occupied = toggle_square x.occupied (lsb bb) in
    if gives_up && ltb_ℤ swap (pos x.res)
    then inr (x.res == 1)
    else inl (record x {
      swap = swap;
      occupied = occupied;
      attackers = bit_or x.attackers (uncovers occupied);
    })

unfoldable pub bishops_behind : Position → Square → Bitboard → Bitboard
bishops_behind p to occupied =
    bit_and (attacks_bb bishop to occupied) (of_either p.placement bishop queen)

unfoldable pub rooks_behind : Position → Square → Bitboard → Bitboard
rooks_behind p to occupied =
    bit_and (attacks_bb rook to occupied) (of_either p.placement rook queen)

-- The capture by the least valuable of the attackers; a king that captures ends the exchange.
unfoldable pub next_capture : Position → Square → Exchange → Bitboard → Exchange ⊎ Bool
next_capture p to x stm_attackers =
    let own = λ (pt : PieceType). bit_and stm_attackers (of p.placement pt) in
    if not (own pawn == 0)
    then recapture p to x (piece_value pawn) true (own pawn) (bishops_behind p to)
    else if not (own knight == 0)
    then recapture p to x (piece_value knight) true (own knight) (λ occupied. 0)
    else if not (own bishop == 0)
    then recapture p to x (piece_value bishop) true (own bishop) (bishops_behind p to)
    else if not (own rook == 0)
    then recapture p to x (piece_value rook) true (own rook) (rooks_behind p to)
    else if not (own queen == 0)
    then recapture p to x (piece_value queen) false (own queen)
        (λ occupied. bit_or (bishops_behind p to occupied) (rooks_behind p to occupied))
    else inr (
        (if not (bit_and x.attackers (complement (colored p.placement x.stm)) == 0)
          then bit_xor x.res 1
          else x.res)
        == 1)

-- One turn of the loop: the variables for the next one, or the answer.
unfoldable pub exchange_step : Position → Square → Exchange → Exchange ⊎ Bool
exchange_step p to x =
    let stm = opposite x.stm in
    let attackers = bit_and x.attackers x.occupied in
    let all_own = bit_and attackers (colored p.placement stm) in
    let pinned = not (bit_and (p.st.pinners (opposite stm)) x.occupied == 0) in
    let own =
      if pinned then bit_and all_own (complement (p.st.blockers_for_king stm)) else all_own in
    if all_own == 0 || own == 0
    then inr (x.res == 1)
    else next_capture p to (record x { stm = stm; attackers = attackers; res = bit_xor x.res 1 })
        own

-- Each turn but the last takes an attacker off the board.
unfoldable pub exchange_loop : ℕ → Position → Square → Exchange → Bool
exchange_loop zero p to x = x.res == 1
exchange_loop (suc fuel) p to x = elim (exchange_step p to x) [
  | inl next ↦ exchange_loop fuel p to next
  | inr answer ↦ answer
]

-- What `see_ge` has won, and may lose, when the move is made.
abbrev pub gain_of : Position → Move → ℤ → ℤ
gain_of p m threshold = piece_value (p.placement.board (to_sq m)) -ℤ threshold

abbrev pub risk_of : Position → Move → ℤ → ℤ
risk_of p m threshold = piece_value (p.placement.board (from_sq m)) -ℤ gain_of p m threshold

-- The variables before the loop.
unfoldable pub start_exchange : Position → Move → ℤ → Exchange
start_exchange p m threshold =
    let from = from_sq m in
    let to = to_sq m in
    let occupied = toggle_square (toggle_square (all_of p.placement) from) to in
    record {
      stm = p.side_to_move;
      attackers = attackers_to p.placement to occupied;
      occupied = occupied;
      swap = risk_of p m threshold;
      res = 1;
    }

unfoldable pub see_ge : Position → Move → ℤ → Bool
see_ge p m threshold =
    if not (move_type m == normal)
    then leb_ℤ threshold (pos 0)
    else if ltb_ℤ (gain_of p m threshold) (pos 0)
    then false
    else if leb_ℤ (risk_of p m threshold) (pos 0)
    then true
    else exchange_loop 64 p (to_sq m) (start_exchange p m threshold)
