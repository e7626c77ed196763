-- ===== src/Regex.antt =====
-- Regular expressions of the language, as a backtracking matcher. A match is a pair of positions;
-- `ends` lists the ends of the matches that start at a position in the order in which the engine
-- tries them, so its head is the match that `exec` reports. Under the flag `i` and without `u` an
-- ASCII letter matches its two cases and nothing else.
pub mod Meaning
pub mod Scan
pub mod Members
pub mod Phrases
pub mod Avoids
use Members.{flat_map}
use price_scout.Base.{ℕ, zero, suc, ◌+◌, ◌≡◌, Bool, true, false, not, ◌&&◌, Option, none, some}
use price_scout.Base.{List, [], ◌∷◌, ◌++◌, ltb, ◌==◌, if◌then◌else◌, length}
use price_scout.Base.Text.{Text, codes, to_lower, is_word, is_digit, is_space}
use Prim.Native.String.{String}

pub data Regex : Type 0 where
  unit : (ℕ → Bool) → Regex
  empty : Regex
  seq : Regex → Regex → Regex
  alt : Regex → Regex → Regex
  star : Regex → Regex
  boundary : Regex
  at_start : Regex
  at_end : Regex
  not_ahead : Regex → Regex

-- The text before the position, last unit first, and the text after it.
abbrev pub Pos : Type 0
Pos = Text × Text

abbrev pub word_at : Text → Bool
word_at [] = false
word_at (c ∷ s) = is_word c

abbrev pub is_boundary : Pos → Bool
is_boundary (before, after) = if word_at before then not (word_at after) else word_at after

abbrev pub is_empty : Text → Bool
is_empty [] = true
is_empty (_ ∷ _) = false

abbrev pub unit_ends : (ℕ → Bool) → Pos → List Pos
unit_ends p (before, []) = []
unit_ends p (before, c ∷ after) = if p c then (c ∷ before, after) ∷ [] else []

abbrev pub stay : Bool → Pos → List Pos
stay b x = if b then x ∷ [] else []

abbrev pub shorter : Pos → Pos → Bool
shorter x y = ltb (length x.1) (length y.1)

-- Greedy repetition; a round that consumes nothing is not tried, so a round for each unit left
-- is enough.
unfoldable pub star_ends : ℕ → (Pos → List Pos) → Pos → List Pos
star_ends zero step x = x ∷ []
star_ends (suc n) step x =
    flat_map (λ y. let more = star_ends n step y in if shorter y x then more else []) (step x)
    ++ x ∷ []

abbrev pub no_match : List Pos → Bool
no_match [] = true
no_match (_ ∷ _) = false

unfoldable pub ends : Regex → Pos → List Pos
unfolding star_ends
ends (unit p) x = unit_ends p x
ends empty x = x ∷ []
ends (seq r s) x = flat_map (ends s) (ends r x)
ends (alt r s) x = ends r x ++ ends s x
ends (star r) x = star_ends (length x.1) (ends r) x
ends boundary x = stay (is_boundary x) x
ends at_start x = stay (is_empty x.0) x
ends at_end x = stay (is_empty x.1) x
ends (not_ahead r) x = stay (no_match (ends r x)) x

-- `regex.test(text)`: a match starts somewhere.
unfoldable pub matches_from : Regex → Text → Text → Bool
matches_from r before [] = not (no_match (ends r (before, [])))
matches_from r before (c ∷ after) =
    let later = matches_from r (c ∷ before) after in
    if no_match (ends r (before, c ∷ after)) then later else true

unfoldable pub test : Regex → Text → Bool
unfolding matches_from ends
test r s = matches_from r [] s

abbrev pub digit : Regex
digit = unit is_digit

abbrev pub plus : Regex → Regex
plus r = seq r (star r)

abbrev pub optional : Regex → Regex
optional r = alt r empty

-- Exactly n, and from n to n + k, greedily.
abbrev pub times : ℕ → Regex → Regex
times zero r = empty
times (suc n) r = seq r (times n r)

abbrev pub up_to : ℕ → Regex → Regex
up_to zero r = empty
up_to (suc n) r = optional (seq r (up_to n r))

abbrev pub one_of : Text → Regex
one_of s = unit (λ c. member c s)
  where
    member : ℕ → Text → Bool
    member c [] = false
    member c (d ∷ t) = if c == d then true else member c t

-- A literal, as it stands and under the flag `i`.
abbrev pub exactly : Text → Regex
exactly [] = empty
exactly (c ∷ s) = seq (unit (λ d. d == c)) (exactly s)

abbrev pub folded : Text → Regex
folded [] = empty
folded (c ∷ s) = seq (unit (λ d. to_lower d == to_lower c)) (folded s)

abbrev pub any_of : List Regex → Regex
any_of [] = unit (λ _. false)
any_of (r ∷ []) = r
any_of (r ∷ s ∷ rs) = alt r (any_of (s ∷ rs))

abbrev pub folded_any : List String → Regex
folded_any [] = unit (λ _. false)
folded_any (w ∷ []) = folded (codes w)
folded_any (w ∷ v ∷ ws) = alt (folded (codes w)) (folded_any (v ∷ ws))
