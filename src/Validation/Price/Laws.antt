-- ===== src/Validation/Price/Laws.antt =====
-- Which texts `parsePrice` accepts as a price.
use price_scout.Base.{ℕ, ◌≡◌, ◌⊎◌, true, false, not, Option, none, some}
use price_scout.Base.{List, [], ◌∷◌, ◌++◌, keep, ◌==◌, All}
use price_scout.Base.Text.{Text, codes, is_space}
use price_scout.Contracts.{Currency}
use price_scout.Outside.{Platform}
use price_scout.Regex.{is_boundary}
use price_scout.Regex.Members.{In}
use price_scout.Regex.Meaning.{onto}
use price_scout.Regex.Scan.{Found, match_all}
use price_scout.Regex.Phrases.{lowered, Mentions}
use price_scout.Validation.Numeral.{plain_numeral}
use price_scout.Validation.Price.{
  compact, is_unsupported, detected_currencies, numeral, adjacent_codes, code_currency,
}

-- The phrases of prices that are not one-time totals.
abbrev pub not_total_phrases : List Text
not_total_phrases =
    codes "from"
    ∷ codes "starting at"
    ∷ codes "per month"
    ∷ codes "monthly"
    ∷ codes "installment"
    ∷ codes "finance"
    ∷ []

-- A slash, space, and "mo" or "month" up to case at the end of a word.
abbrev pub IsPerMonth : Text → Type 0
IsPerMonth s =
    (pre : Text) × (gap : Text) × (word : Text) × (post : Text) × (s
      ≡ pre ++ (b'/' ∷ (gap ++ (word ++ post))))
    × All (λ c. is_space c ≡ true) gap
    × In (lowered word) (codes "month" ∷ codes "mo" ∷ [])
    × (is_boundary (onto word (onto gap (b'/' ∷ onto pre [])), post) ≡ true)

-- The number of a numeral is positive and finite, and rounds to so many minor units.
abbrev pub IsValue : Platform → Text → ℕ → Type 0
IsValue p t minor =
    (p.numbers.is_finite (p.numbers.number t) ≡ true)
    × (p.numbers.le_nat (p.numbers.number t) 0 ≡ false)
    × (minor ≡ p.numbers.round_scaled (p.numbers.number t))

-- A text with one numeral, no phrase of a price that is not a total, at most one currency, and no
-- code of a currency that is not supported beside the numeral. The price is the numeral's number,
-- which is positive, in minor units.
pub record IsPlainPrice (p : Platform) (raw : Text) (minor : ℕ) (currency : Option Currency)
    : Type 0 where
  pub total : ¬ Mentions not_total_phrases (compact raw)
  pub one_time : ¬ IsPerMonth (compact raw)
  pub supported : is_unsupported (compact raw) ≡ false
  pub single :
      (found : Found) × (match_all numeral (compact raw) ≡ found ∷ [])
      × All (λ code. (c : Currency) × (code_currency code ≡ some c)) (adjacent_codes found)
      × IsValue p (plain_numeral (keep (λ c. not (c == 32)) found.text)) minor
  pub currencies :
      ((detected_currencies (compact raw) ≡ []) × (currency ≡ none))
      ⊎ ((c : Currency) × (detected_currencies (compact raw) ≡ c ∷ []) × (currency ≡ some c))
