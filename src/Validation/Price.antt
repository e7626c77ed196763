-- ===== src/Validation/Price.antt =====
-- `parsePrice` of worker/src/validation.ts.
pub mod Laws
pub mod Groups
pub mod Scanned
pub mod Printed
use price_scout.Base.{ℕ, Bool, true, false, not, ◌||◌, Option, none, some, List, [], ◌∷◌, ◌++◌, map}
use price_scout.Base.{any, find, keep, take, reverse, ◌==◌, if◌then◌else◌, length}
use price_scout.Base.Text.{Text, codes, text_eq, trim, trim_start, trim_end, to_upper, is_upper}
use price_scout.Base.Text.{is_space, show}
use price_scout.Base.Effects.{Result, ok, err, Check, validation, ambiguous_value, msg, ◌>>=◌, ◌>>◌}
use price_scout.Contracts.{Currency, usd, cad, eur, gbp, aud}
use price_scout.Outside.{Platform}
use price_scout.Regex.{
  Regex, unit, seq, alt, star, boundary, at_start, at_end, digit, plus, optional, times, up_to,
  one_of, exactly, folded, folded_any, any_of, test,
}
use price_scout.Regex.Scan.{Found, exec, match_all}
use price_scout.Regex.Phrases.{whole_words}
use price_scout.Validation.Numeral.{plain_numeral}

-- `raw.replace(/[\u00a0\u202f]/g, " ").trim()`
unfoldable pub compact : Text → Text
compact raw = trim (map (λ c. if c == 0xa0 then 32 else if c == 0x202f then 32 else c) raw)

abbrev pub not_total_words : Regex
not_total_words =
    folded_any ("from" ∷ "starting at" ∷ "per month" ∷ "monthly" ∷ "installment" ∷ "finance" ∷ [])

-- `\/\s*mo(?:nth)?\b`
abbrev pub per_month : Regex
per_month = seq (exactly (codes "/")) (
    seq (star (unit is_space))
      (seq (folded (codes "mo")) (seq (optional (folded (codes "nth"))) boundary)))

unfoldable pub is_ambiguous : Text → Bool
is_ambiguous s = test (alt (whole_words not_total_words) per_month) s

abbrev pub other_symbol : Regex
other_symbol = one_of (codes "¥₹₽₩₺₫฿₱₦₴₪")

abbrev pub yen : Regex
yen = whole_words (folded (codes "JPY"))

unfoldable pub is_unsupported : Text → Bool
is_unsupported s = test other_symbol s || test yen s

abbrev pub symbol : Regex
symbol = any_of (
    folded (codes "US$")
    ∷ folded (codes "C$")
    ∷ folded (codes "A$")
    ∷ exactly (codes "$")
    ∷ exactly (codes "€")
    ∷ exactly (codes "£")
    ∷ [])

-- `currencySymbols[symbol]`, where the letters of the match have been put in upper case.
unfoldable pub symbol_currency : Text → Option Currency
unfolding text_eq
symbol_currency s =
    let t = map to_upper s in
    if text_eq t (codes "US$")
    then some usd
    else if text_eq t (codes "C$")
    then some cad
    else if text_eq t (codes "A$")
    then some aud
    else if text_eq t (codes "$")
    then some usd
    else if text_eq t (codes "€")
    then some eur
    else if text_eq t (codes "£")
    then some gbp
    else none

abbrev pub code_word : Regex
code_word = whole_words (folded_any ("USD" ∷ "CAD" ∷ "EUR" ∷ "GBP" ∷ "AUD" ∷ []))

-- The currency that an upper-case code names, if it is supported.
unfoldable pub code_currency : Text → Option Currency
unfolding text_eq
code_currency t =
    if text_eq t (codes "USD")
    then some usd
    else if text_eq t (codes "CAD")
    then some cad
    else if text_eq t (codes "EUR")
    then some eur
    else if text_eq t (codes "GBP")
    then some gbp
    else if text_eq t (codes "AUD")
    then some aud
    else none

abbrev pub same_currency : Currency → Currency → Bool
same_currency usd usd = true
same_currency cad cad = true
same_currency eur eur = true
same_currency gbp gbp = true
same_currency aud aud = true
same_currency _ _ = false

-- `set.add(currency)`, in insertion order
abbrev pub add_currency : Option Currency → List Currency → List Currency
add_currency none set = set
add_currency (some c) set = if any (same_currency c) set then set else set ++ c ∷ []

unfoldable pub add_all : List (Option Currency) → List Currency → List Currency
add_all [] set = set
add_all (c ∷ cs) set = add_all cs (add_currency c set)

unfoldable pub detected_currencies : Text → List Currency
unfolding add_all symbol_currency code_currency match_all
detected_currencies s =
    add_all (map (λ (f : Found). code_currency (map to_upper f.text)) (match_all code_word s))
      (add_all (map (λ (f : Found). symbol_currency f.text) (match_all symbol s)) [])

abbrev pub one_currency : List Currency → Result (Option Currency)
one_currency [] = ok none
one_currency (c ∷ []) = ok (some c)
one_currency (c ∷ d ∷ more) =
    err (validation ambiguous_value (msg "Price text contains conflicting currencies"))

abbrev pub fraction : Regex
fraction = optional (seq (one_of (codes ".,")) (seq digit (up_to 1 digit)))

abbrev pub numeral : Regex
numeral =
    let head_group = seq digit (up_to 2 digit) in
    alt (seq head_group (seq (plus (seq (exactly (codes " ")) (times 3 digit))) fraction)) (
      seq (alt (seq head_group (plus (seq (one_of (codes ",.")) (times 3 digit)))) (plus digit))
        fraction)

abbrev pub one_numeral : List Found → Result Found
one_numeral (f ∷ []) = ok f
one_numeral fs =
    err (validation ambiguous_value (msg "Expected one current price, found " ++ show (length fs)))

abbrev upper : Regex
upper = unit is_upper

abbrev captured : Option Found → List Text
captured none = []
captured (some f) = take 3 f.text ∷ []

-- The words of three capitals right before and right behind the numeral.
unfoldable pub adjacent_codes : Found → List Text
unfolding exec trim_start trim_end
adjacent_codes f =
    captured (
      exec (seq boundary (seq (times 3 upper) (seq boundary (seq (star (unit is_space)) at_end))))
        (trim_end (reverse f.start.0)))
    ++ captured (exec (seq at_start (seq (times 3 upper) boundary)) (trim_start f.stop.1))

abbrev pub unsupported_code : Text → Bool
unsupported_code code = elim (code_currency code) [ none ↦ true | some c ↦ false ]

abbrev pub check_codes : Option Text → Check
check_codes none = ok tt
check_codes (some code) = err (
    validation ambiguous_value
      (msg "Currency " ++ (code ++ msg " is not supported in price monitor v1")))

abbrev pub refuse_if : Bool → Text → Check
refuse_if true message = err (validation ambiguous_value message)
refuse_if false message = ok tt

module _ (p : Platform) where
  open p.numbers use {number, is_finite, le_nat, round_scaled}

  -- `Number(numeric)` must be positive and finite; the result is in minor units.
  unfoldable pub to_minor : Text → Result ℕ
  to_minor numeric =
      let value = number numeric in
      if not (is_finite value) || le_nat value 0
      then err (validation ambiguous_value (msg "Price must be a positive finite number"))
      else ok (round_scaled value)

  unfoldable pub parse_price : Text → Result (ℕ × Option Currency)
  parse_price raw = do
    let s = compact raw
    refuse_if (is_ambiguous s) (msg "Ambiguous non-total price: " ++ s)
    refuse_if (is_unsupported s) (msg "This currency is not supported in price monitor v1")
    currency ← one_currency (detected_currencies s)
    found ← one_numeral (match_all numeral s)
    check_codes (find unsupported_code (adjacent_codes found))
    minor ← to_minor (plain_numeral (keep (λ c. not (c == 32)) found.text))
    ok (minor, currency)
