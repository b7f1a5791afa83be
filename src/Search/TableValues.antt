-- ===== src/Search/TableValues.antt =====
-- src/engine/search.cpp: `value_to_tt` and `value_from_tt`, the adjustment of mate and tablebase
-- scores to the distance from a position of the tree.
use stockfish.Base.{ℕ, ◌+◌, ◌-◌, ◌≤◌, ◌≡◌, Bool, true, not, ◌&&◌, ◌||◌, leb, arith, if◌then◌else◌}
use stockfish.Base.Int.{ℤ, pos, negsuc, neg, ◌+ℤ◌, ◌-ℤ◌, ltb_ℤ, abs}
use stockfish.Types.Scores.{
  Value, value_none, value_mate, value_tb, value_mate_in_max_ply, value_tb_win_in_max_ply, is_valid,
  is_decisive, is_win, is_loss, is_mate, is_mated, is_mate_or_mated,
}

unfoldable pub value_to_tt : Value → ℤ → Value
unfolding is_win is_loss ◌+ℤ◌ ◌-ℤ◌
value_to_tt v ply = if is_win v then v +ℤ ply else if is_loss v then v -ℤ ply else v

-- The branches of the win and of the loss.
unfoldable pub win_from_tt : Value → ℤ → ℤ → Value
unfolding is_mate ◌-ℤ◌
win_from_tt v ply r50c =
    if is_mate v && ltb_ℤ (pos 100 -ℤ r50c) (pos value_mate -ℤ v)
    then pos (value_tb_win_in_max_ply - 1)
    else if ltb_ℤ (pos 100 -ℤ r50c) (pos value_tb -ℤ v)
    then pos (value_tb_win_in_max_ply - 1)
    else v -ℤ ply

unfoldable pub loss_from_tt : Value → ℤ → ℤ → Value
unfolding is_mated ◌+ℤ◌ ◌-ℤ◌
loss_from_tt v ply r50c =
    if is_mated v && ltb_ℤ (pos 100 -ℤ r50c) (pos value_mate +ℤ v)
    then neg (pos value_tb_win_in_max_ply) +ℤ pos 1
    else if ltb_ℤ (pos 100 -ℤ r50c) (pos value_tb +ℤ v)
    then neg (pos value_tb_win_in_max_ply) +ℤ pos 1
    else v +ℤ ply

unfoldable pub value_from_tt : Value → ℤ → ℤ → Value
unfolding is_valid is_win is_loss win_from_tt loss_from_tt
value_from_tt v ply r50c =
    if not (is_valid v)
    then value_none
    else if is_win v
    then win_from_tt v ply r50c
    else if is_loss v
    then loss_from_tt v ply r50c
    else v

-- The highest score that is no tablebase win.
abbrev pub best_unproved : ℕ
best_unproved = value_tb_win_in_max_ply - 1

-- Whether a decisive score of the magnitude that the table holds can still be reached: its distance
-- from the mate score, or from the tablebase score, is within the plies that the count leaves.
abbrev pub within_reach : ℕ → ℕ → Bool
within_reach stored r50c =
    leb (if leb value_mate_in_max_ply stored then value_mate else value_tb) (stored + (100 - r50c))

-- A value within the mate score, counted from the position, that is stored at a ply and fetched at the
-- same ply with a rule-50 count up to 100, comes back as it was exactly if it is not decisive or the
-- stored score can be reached within the plies that the count leaves; otherwise a win comes back as
-- the highest score that is none, and a loss as the lowest.
pub value_from_to_tt :
    (v : Value) (ply r50c : ℕ)
    → abs v + ply ≤ value_mate
    → r50c ≤ 100
    → value_from_tt (value_to_tt v (pos ply)) (pos ply) (pos r50c) ≡ (
        if not (is_decisive v) || within_reach (abs v + ply) r50c
        then v
        else if is_win v
        then pos best_unproved
        else neg (pos best_unproved))
unfolding value_from_tt value_to_tt is_win is_loss is_decisive
value_from_to_tt (pos n) ply r50c h k = ground arith
value_from_to_tt (negsuc n) ply r50c h k = ground arith

-- A mate score, for either side, counted from the position and within the mate score, whose distance
-- from the position is within the plies that a rule-50 count up to 100 leaves, comes back as it was
-- when it is stored at a ply and fetched at the same ply with that count.
pub mate_from_to_tt :
    (v : Value) (ply r50c : ℕ)
    → abs v + ply ≤ value_mate
    → r50c ≤ 100
    → is_mate_or_mated v ≡ true
    → value_mate ≤ abs v + ply + (100 - r50c)
    → value_from_tt (value_to_tt v (pos ply)) (pos ply) (pos r50c) ≡ v
unfolding value_from_tt value_to_tt is_mate_or_mated
mate_from_to_tt (pos n) ply r50c h k m d = ground arith
mate_from_to_tt (negsuc n) ply r50c h k m d = ground arith
