-- ===== src/Extract/Words.antt =====
-- `parseAvailability` and `normalizeCurrency` of worker/src/extract.ts.
use price_scout.Base.{Bool, true, false, Option, none, some, List, [], ◌∷◌, ◌++◌, any, keep}
use price_scout.Base.{if◌then◌else◌}
use price_scout.Base.Text.{Text, codes, trim, is_lower, contains}
use price_scout.Base.Unicode.{Unicode}
use price_scout.Base.Effects.{Result, ok, err, plain, msg}
use price_scout.Contracts.{Currency}
use price_scout.Validation.Price.{symbol_currency, code_currency}

abbrev pub out_words : List Text
out_words =
    codes "outofstock"
    ∷ codes "soldout"
    ∷ codes "unavailable"
    ∷ codes "preorder"
    ∷ codes "backorder"
    ∷ []

abbrev pub in_words : List Text
in_words = codes "instock" ∷ codes "available" ∷ codes "addtocart" ∷ []

-- The lower-case letters of the text.
abbrev pub letters : Unicode → Text → Text
letters u raw = keep is_lower (u.lower raw)

unfoldable pub parse_availability : Unicode → Text → Result Bool
parse_availability u raw =
    let value = letters u raw in
    if any (contains value) out_words
    then ok false
    else if any (contains value) in_words
    then ok true
    else err (plain (msg "Unrecognized availability value: " ++ raw))

-- The six symbols, or a supported code.
abbrev currency_of : Option Currency → Option Currency → Option Currency
currency_of (some c) code = some c
currency_of none code = code

abbrev or_unsupported : Text → Option Currency → Result Currency
or_unsupported raw (some c) = ok c
or_unsupported raw none = err (plain (msg "Unsupported currency: " ++ raw))

unfoldable pub normalize_currency : Unicode → Text → Result Currency
normalize_currency u raw =
    let value = u.upper (trim raw) in
    or_unsupported raw (currency_of (symbol_currency value) (code_currency value))
