-- ===== src/Search/Tests.antt =====
-- src/engine/search.cpp: a mate score, and the theorems at it.
use stockfish.Base.{◌≡◌, refl, not, ◌||◌, if◌then◌else◌, arith}
use stockfish.Base.Int.{pos, neg}
use stockfish.Types.Scores.{is_win, is_decisive, is_mate_or_mated}
use stockfish.Search.TableValues.{
  value_to_tt, value_from_tt, within_reach, best_unproved, value_from_to_tt, mate_from_to_tt,
}

-- Mate in 20 plies, seen from ply 8, at rule-50 count 60.
value_from_to_tt_example : value_from_tt (value_to_tt (pos 31980) (pos 8)) (pos 8) (pos 60) ≡ (
    if not (is_decisive (pos 31980)) || within_reach 31988 60
    then pos 31980
    else if is_win (pos 31980)
    then pos best_unproved
    else neg (pos best_unproved))
value_from_to_tt_example = value_from_to_tt (pos 31980) 8 60 (omega arith) (omega arith)

mate_from_to_tt_example :
    value_from_tt (value_to_tt (pos 31980) (pos 8)) (pos 8) (pos 60) ≡ pos 31980
unfolding is_mate_or_mated
mate_from_to_tt_example =
    mate_from_to_tt (pos 31980) 8 60 (omega arith) (omega arith) refl (omega arith)

-- At count 95 it is too late.
downgraded : value_from_tt (value_to_tt (pos 31980) (pos 8)) (pos 8) (pos 95) ≡ pos 31506
unfolding value_from_tt value_to_tt
downgraded = refl
