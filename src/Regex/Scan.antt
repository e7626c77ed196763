-- ===== src/Regex/Scan.antt =====
-- `exec` and `matchAll`: the leftmost match, and the successive ones. No pattern of the program
-- that is searched for repeatedly matches the empty text.
use price_scout.Base.{ℕ, zero, suc, Option, none, some, List, [], ◌∷◌, length}
use price_scout.Base.{take, ◌-◌}
use price_scout.Base.Text.{Text}
use price_scout.Regex.{Regex, Pos, ends}

abbrev pub first_end : List Pos → Option Pos
first_end [] = none
first_end (x ∷ _) = some x

-- A match: the position where it starts, its text, and the position behind it.
pub record Found : Type 0 where
  pub start : Pos
  pub text : Text
  pub stop : Pos

abbrev pub found_at : Pos → Pos → Found
found_at x y = record { start = x; text = take (length x.1 - length y.1) x.1; stop = y }

unfoldable pub exec_from : Regex → Text → Text → Option Found
unfolding ends
exec_from r before [] = elim (first_end (ends r (before, []))) [
  | none ↦ none
  | some y ↦ some (found_at (before, []) y)
]
exec_from r before (c ∷ after) =
    let later = exec_from r (c ∷ before) after in
    elim (first_end (ends r (before, c ∷ after))) [
      | none ↦ later
      | some y ↦ some (found_at (before, c ∷ after) y)
    ]

unfoldable pub exec : Regex → Text → Option Found
unfolding exec_from
exec r s = exec_from r [] s

-- Each match consumes a unit, so a round for each unit, and one to see the end, is enough.
unfoldable pub scan : ℕ → Regex → Pos → List Found
unfolding exec_from
scan zero r x = []
scan (suc n) r x = elim (exec_from r x.0 x.1) [
  | none ↦ []
  | some found ↦ found ∷ scan n r found.stop
]

unfoldable pub match_all : Regex → Text → List Found
unfolding scan
match_all r s = scan (suc (length s)) r ([], s)
