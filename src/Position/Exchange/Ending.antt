-- ===== src/Position/Exchange/Ending.antt =====
-- The loop of `see_ge` ends: each turn but the last takes a square off `occupied`.
use stockfish.Base.{
  ℕ, zero, suc, ◌+◌, ◌≤◌, ◌<◌, ◌≡◌, ◌≢◌, refl, sym, ap, ◌∙◌, bit_and, bit_or, bit_xor, Bool, true,
  false, not, ◌==◌, if◌then◌else◌, ◌⊎◌, inl, inr, arith, Bool-cases,
}
use mathlib.Core.Path.{subst}
use stockfish.Base.Int.{ℤ, ◌-ℤ◌}
use stockfish.Base.Arrays.{tally_from, tally_from-differ}
use stockfish.Base.Bits.{test_bit, test_bit-bit_and}
use stockfish.Types.Board.{Square, PieceType, pawn, knight, bishop, rook, queen, opposite}
use stockfish.Types.Moves.{Move, from_sq, to_sq}
use stockfish.Types.Moves.Encoding.{to_sq-mod}
use stockfish.Bitboard.{Bitboard, lsb, toggle_square, complement}
use stockfish.Bitboard.Squares.{test_bit-toggle_square}
use stockfish.Bitboard.Scanning.{pop_first}
use stockfish.Position.State.{Position, all_of, of, colored}
use stockfish.Position.Exchange.{
  Exchange, recapture, next_capture, exchange_step, exchange_loop, start_exchange,
}

-- The turns from given variables end with an answer.
pub data Ends (p : Position) (to : Square) : Exchange → Bool → Type 0 where
  answers : {x : Exchange} {r : Bool} → exchange_step p to x ≡ inr r → Ends p to x r
  turns : {x y : Exchange} {r : Bool} → exchange_step p to x ≡ inl y → Ends p to y r → Ends p to x r

-- A set has squares of the board only.
abbrev pub OnBoard : Bitboard → Type 0
OnBoard b = (i : ℕ) → test_bit b i ≡ true → i < 64

-- The number of squares in a set.
abbrev pub squares : Bitboard → ℕ
squares b = tally_from (λ d. d) (test_bit b) 0 64

-- What is left of a set when a turn has been made, if it is not the last.
Taken : Bitboard → Exchange ⊎ Bool → Type 0
Taken b (inl y) = (s : ℕ) × (test_bit b s ≡ true) × (y.occupied ≡ toggle_square b s)
Taken b (inr answer) = Unit

abbrev Within : Bitboard → Bitboard → Type 0
Within a b = (i : ℕ) → test_bit a i ≡ true → test_bit b i ≡ true

Within-bit_and : (a c b : Bitboard) → Within a b → Within (bit_and a c) b
Within-bit_and a c b w i h = w i (ground (arith, test_bit-bit_and i a c))

Taken-if :
    (b : Bitboard) (c : Bool) (r q : Exchange ⊎ Bool)
    → (c ≡ true → Taken b r)
    → Taken b q
    → Taken b (if c then r else q)
Taken-if b true r q h k = h refl
Taken-if b false r q h k = k

module _ (p : Position) (to : Square) (x : Exchange) (board : OnBoard x.occupied) where
  recapture-Taken :
      (value : ℤ) (gives_up : Bool) (bb : Bitboard) (uncovers : Bitboard → Bitboard)
      → Within bb x.occupied
      → not (bb == 0) ≡ true
      → Taken x.occupied (recapture p to x value gives_up bb uncovers)
  unfolding recapture Taken
  recapture-Taken value gives_up bb uncovers w some =
      let first = pop_first bb (λ i h. board i (w i h)) (λ z. absurd (ground arith)) in
      let occupied = toggle_square x.occupied (lsb bb) in
      let left : Exchange = record x {
        swap = value -ℤ x.swap;
        occupied = occupied;
        attackers = bit_or x.attackers (uncovers occupied);
      } in
      Taken-if x.occupied _ (inr (x.res == 1)) (inl left) (λ e. tt)
        (lsb bb, w (lsb bb) first.1, refl)

  next_capture-Taken :
      (own : Bitboard) → Within own x.occupied → Taken x.occupied (next_capture p to x own)
  unfolding next_capture Taken
  next_capture-Taken own w =
      let inside = λ (pt : PieceType). Within-bit_and own (of p.placement pt) x.occupied w in
      Taken-if x.occupied _ _ _ (recapture-Taken _ _ _ _ (inside pawn)) (
        Taken-if x.occupied _ _ _ (recapture-Taken _ _ _ _ (inside knight)) (
          Taken-if x.occupied _ _ _ (recapture-Taken _ _ _ _ (inside bishop)) (
            Taken-if x.occupied _ _ _ (recapture-Taken _ _ _ _ (inside rook))
              (Taken-if x.occupied _ _ _ (recapture-Taken _ _ _ _ (inside queen)) tt))))

  own_Within : (c : Bitboard) → Within (bit_and (bit_and x.attackers x.occupied) c) x.occupied
  own_Within c i h = ground (
    arith,
    test_bit-bit_and i x.attackers x.occupied,
    test_bit-bit_and i (bit_and x.attackers x.occupied) c,
  )

  Within-if :
      (c : Bool) (a b : Bitboard)
      → Within a x.occupied
      → Within b x.occupied
      → Within (if c then a else b) x.occupied
  Within-if true a b v w = v
  Within-if false a b v w = w

module _ (p : Position) (to : Square) (x : Exchange) (board : OnBoard x.occupied) where
  exchange_step-Taken : Taken x.occupied (exchange_step p to x)
  unfolding exchange_step Taken
  exchange_step-Taken =
      let us = opposite x.stm in
      let all_own = bit_and (bit_and x.attackers x.occupied) (colored p.placement us) in
      let free = bit_and all_own (complement (p.st.blockers_for_king us)) in
      let all_inside = own_Within p to x board (colored p.placement us) in
      let inside =
        Within-if p to x board _ free all_own (Within-bit_and all_own _ x.occupied all_inside)
          all_inside in
      let turned : Exchange = record x {
        stm = us;
        attackers = bit_and x.attackers x.occupied;
        res = bit_xor x.res 1;
      } in
      Taken-if x.occupied _ (inr (x.res == 1)) _ (λ e. tt)
        (next_capture-Taken p to turned board _ inside)

squares-toggle :
    (b s : ℕ) → OnBoard b → test_bit b s ≡ true → squares b ≡ squares (toggle_square b s) + 1
squares-toggle b s board h =
    tally_from-differ (λ d. d) (test_bit b) (test_bit (toggle_square b s)) s 0 64 (omega arith)
      (omega (arith, board s h)) h (ground (arith, test_bit-toggle_square b s s))
      (λ j off. ground (arith, test_bit-toggle_square b s j))

OnBoard-toggle : (b s : ℕ) → OnBoard b → s < 64 → OnBoard (toggle_square b s)
OnBoard-toggle b s board lt i h = elim (Bool-cases (s == i)) [
  | inl e ↦ ground arith
  | inr e ↦ board i (ground (arith, test_bit-toggle_square b s i))
]

Taken-off :
    (b : ℕ) (y : Exchange)
    → OnBoard b
    → Taken b (inl y)
    → OnBoard y.occupied × (squares b ≡ squares y.occupied + 1)
unfolding Taken
Taken-off b y board (s, h, e) = (
  subst OnBoard (sym e) (OnBoard-toggle b s board (board s h)),
  subst (λ o. squares b ≡ squares o + 1) (sym e) (squares-toggle b s board h),
)

module _ (p : Position) (to : Square) where
  abbrev after_turn : ℕ → Exchange ⊎ Bool → Bool
  after_turn n (inl next) = exchange_loop n p to next
  after_turn n (inr answer) = answer

  loop_turn :
      (n : ℕ) (x : Exchange) → exchange_loop (suc n) p to x ≡ after_turn n (exchange_step p to x)
  unfolding exchange_loop
  loop_turn n x = refl

  turn_Ends :
      (n : ℕ) (x : Exchange)
      → OnBoard x.occupied
      → squares x.occupied < suc n
      → ((y : Exchange)
          → OnBoard y.occupied
          → squares y.occupied < n
          → Ends p to y (exchange_loop n p to y))
      → (r : Exchange ⊎ Bool) → exchange_step p to x ≡ r
      → Ends p to x (exchange_loop (suc n) p to x)
  turn_Ends n x board lt rest (inr r) e =
      subst (Ends p to x) (sym (loop_turn n x ∙ ap (after_turn n) e)) (answers e)
  turn_Ends n x board lt rest (inl y) e =
      let taken : Taken x.occupied (inl y) =
        subst (Taken x.occupied) e (exchange_step-Taken p to x board) in
      let left = Taken-off x.occupied y board taken in
      subst (Ends p to x) (sym (loop_turn n x ∙ ap (after_turn n) e))
        (turns e (rest y left.0 (omega (arith, left.1))))

  -- With more fuel than squares are occupied, the loop ends, and gives the answer of its last turn.
  pub exchange_loop-Ends :
      (n : ℕ) (x : Exchange)
      → OnBoard x.occupied
      → squares x.occupied < n
      → Ends p to x (exchange_loop n p to x)
  exchange_loop-Ends zero x board lt = absurd (omega arith)
  exchange_loop-Ends (suc n) x board lt =
      turn_Ends n x board lt (λ y b l. exchange_loop-Ends n y b l) (exchange_step p to x) refl

squares-le : (b i n : ℕ) → tally_from (λ d. d) (test_bit b) i n ≤ n
unfolding tally_from
squares-le b i zero = omega arith
squares-le b i (suc n) = ground (arith, squares-le b (i + 1) n)

squares-lt : (b s : ℕ) → s < 64 → test_bit b s ≡ false → squares b < 64
squares-lt b s lt h =
    let more : squares (toggle_square b s) ≡ squares b + 1 =
      tally_from-differ (λ d. d) (test_bit (toggle_square b s)) (test_bit b) s 0 64 (omega arith)
        (omega arith) (ground (arith, test_bit-toggle_square b s s)) h
        (λ j off. ground (arith, test_bit-toggle_square b s j)) in
    omega (arith, more, squares-le (toggle_square b s) 0 64)

to_sq-lt : (m : Move) → to_sq m < 64
to_sq-lt m = omega (arith, to_sq-mod m)

-- The exchange on a square of the board, with the piece that starts it taken off, and the square
-- that it leaves not the target: there are fewer than 64 other pieces, so that `see_ge` has an answer.
module _ (p : Position) (m : Move) (threshold : ℤ) where
  started_few :
      OnBoard (all_of p.placement)
      → test_bit (all_of p.placement) (from_sq m) ≡ true
      → from_sq m ≢ to_sq m
      → OnBoard (start_exchange p m threshold).occupied
        × (squares (start_exchange p m threshold).occupied < 64)
  unfolding start_exchange
  started_few board on off =
      let b = all_of p.placement in
      let gone = toggle_square b (from_sq m) in
      let left = toggle_square gone (to_sq m) in
      let gone_board = OnBoard-toggle b (from_sq m) board (board (from_sq m) on) in
      let off_board : test_bit left (from_sq m) ≡ false = ground (
        arith,
        test_bit-toggle_square b (from_sq m) (from_sq m),
        test_bit-toggle_square gone (to_sq m) (from_sq m),
      ) in
      (
        OnBoard-toggle gone (to_sq m) gone_board (to_sq-lt m),
        squares-lt left (from_sq m) (board (from_sq m) on) off_board,
      )

  -- For a move of a piece on another square than its target, on a position whose pieces stand on the
  -- board, the turns of the exchange that `see_ge` starts end, and its loop gives their answer.
  pub see_ge-Ends :
      OnBoard (all_of p.placement)
      → test_bit (all_of p.placement) (from_sq m) ≡ true
      → from_sq m ≢ to_sq m
      → Ends p
          (to_sq m)
          (start_exchange p m threshold)
          (exchange_loop 64 p (to_sq m) (start_exchange p m threshold))
  see_ge-Ends board on off =
      let few = started_few board on off in
      exchange_loop-Ends p (to_sq m) 64 (start_exchange p m threshold) few.0 few.1
