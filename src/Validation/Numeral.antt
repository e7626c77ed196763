-- ===== src/Validation/Numeral.antt =====
-- The part of `parsePrice` of worker/src/validation.ts that turns the matched numeral, with its
-- group separators, into the text that `Number` reads.
pub mod Laws
use price_scout.Base.{ℕ, suc, ◌-◌, not, Option, none, some, [], ◌∷◌, ◌++◌}
use price_scout.Base.{length, take, drop, keep, ltb, ◌==◌, if◌then◌else◌}
use price_scout.Base.Text.{Text}

-- `text.lastIndexOf(unit)`, with `none` for -1
unfoldable pub last_index : ℕ → Text → Option ℕ
last_index u [] = none
last_index u (c ∷ s) = elim (last_index u s) [
  | some i ↦ some (suc i)
  | none ↦ if c == u then some 0 else none
]

-- `text.replaceAll(unit, "")`
abbrev pub without : ℕ → Text → Text
without u = keep (λ c. not (c == u))

-- `text.replace(",", ".")`: the first comma alone
unfoldable pub comma_to_point : Text → Text
comma_to_point [] = []
comma_to_point (c ∷ s) = let rest = comma_to_point s in if c == b',' then b'.' ∷ s else c ∷ rest

-- One kind of separator, last at index `i`: three digits behind it make a group, any other number
-- of digits is a fraction.
unfoldable pub one_separator : ℕ → ℕ → Text → Text
one_separator u i s =
    if length s - i - 1 == 3 then without u s else without u (take i s) ++ (b'.' ∷ drop (suc i) s)

unfoldable pub choose : Option ℕ → Option ℕ → Text → Text
unfolding one_separator comma_to_point
choose (some comma) (some dot) s =
    if ltb dot comma then comma_to_point (without b'.' s) else without b',' s
choose (some comma) none s = one_separator b',' comma s
choose none (some dot) s = one_separator b'.' dot s
choose none none s = s

unfoldable pub plain_numeral : Text → Text
unfolding choose last_index
plain_numeral s = choose (last_index b',' s) (last_index b'.' s) s
