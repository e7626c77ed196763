-- ===== src/Web/Format.antt =====
-- web/src/lib/format.ts. Formatting by the locale is the browser's; times are counted in
-- milliseconds from the earliest date.
pub mod Laws
use price_scout.Base.{
  ℕ, ◌+◌, ◌-◌, ◌*◌, ◌/◌, ◌%◌, ◌≤◌, Bool, true, false, not, ◌&&◌, Option, none, some,
}
use price_scout.Base.{[], ◌∷◌, ◌++◌, map, ltb, leb, ◌==◌, drop, if◌then◌else◌}
use price_scout.Base.Decimal.{fixed}
use price_scout.Base.Text.{Text, codes, show, starts_with, is_word, to_upper}
use price_scout.Outside.{Url}
use price_scout.Web.Client.Normalize.{Dates}

-- `Intl.NumberFormat` of hundredths for a currency, `none` where it throws on the code;
-- `Intl.DateTimeFormat`; and the tenths that `(ms / 1000).toFixed(1)` shows, which are the nearest,
-- and either of two that are as near, since the quotient is a double.
pub record Locale : Type 0 where
  pub money : Text → ℕ → Option Text
  pub date : ℕ → Text
  pub tenths : ℕ → ℕ
  pub tenths_near : (ms : ℕ) → (100 * tenths ms ≤ ms + 50) × (ms ≤ 100 * tenths ms + 50)

abbrev dash : Text
dash = codes "—"

abbrev money_or : Text → ℕ → Option Text → Text
money_or currency value none = currency ++ b' ' ∷ fixed value
money_or currency value (some shown) = shown

abbrev default_currency : Option Text → Text
default_currency none = codes "USD"
default_currency (some c) = c

module _ (l : Locale) where
  abbrev pub format_money : Option ℕ → Option Text → Text
  format_money none currency = dash
  format_money (some value) currency =
      let c = default_currency currency in money_or c value (l.money c value)

  abbrev date_or_dash : Option ℕ → Text
  date_or_dash none = dash
  date_or_dash (some t) = l.date t

  abbrev pub format_date : Dates → Option Text → Text
  format_date time none = dash
  format_date time (some []) = dash
  format_date time (some (c ∷ s)) = date_or_dash (time (c ∷ s))

  -- `Math.round` of the seconds over the full minutes rounds halves up.
  unfoldable pub format_duration : Option ℕ → Text
  format_duration none = dash
  format_duration (some ms) =
      if ltb ms 1000
      then show ms ++ codes "ms"
      else if ltb ms 60000
      then show (l.tenths ms / 10) ++ b'.' ∷ (48 + l.tenths ms % 10) ∷ codes "s"
      else show (ms / 60000) ++ (codes "m " ++ (show ((ms % 60000 + 500) / 1000) ++ codes "s"))

-- `Math.round(n / unit)` of a number of milliseconds
abbrev rounded : ℕ → ℕ → ℕ
rounded n unit = (2 * n + unit) / (2 * unit)

-- The distance of a date, and whether it is not in the past.
abbrev relative : Bool → ℕ → Text
relative ahead abs =
    let suffix = if ahead then codes "from now" else codes "ago" in
    if ltb abs 60000
    then if ahead then codes "in a moment" else codes "just now"
    else if ltb abs 3600000
    then show (rounded abs 60000) ++ codes "m " ++ suffix
    else if ltb abs 86400000
    then show (rounded abs 3600000) ++ codes "h " ++ suffix
    else show (rounded abs 86400000) ++ codes "d " ++ suffix

abbrev relative_to : ℕ → Option ℕ → Text
relative_to now none = codes "Unknown"
relative_to now (some t) = relative (leb now t) (if leb now t then t - now else now - t)

abbrev pub format_relative : Dates → ℕ → Option Text → Text
format_relative time now none = codes "Not scheduled"
format_relative time now (some []) = codes "Not scheduled"
format_relative time now (some (c ∷ s)) = relative_to now (time (c ∷ s))

abbrev host_or : Text → Option Url → Text
host_or text none = text
host_or text (some url) =
    if starts_with url.hostname (codes "www.") then drop 4 url.hostname else url.hostname

abbrev pub hostname : (Text → Option Url) → Text → Text
hostname parse_url text = host_or text (parse_url text)

-- `replace(/\b\w/g, upper)`, behind a unit that is or is not of a word
unfoldable pub capitalize : Bool → Text → Text
capitalize in_word [] = []
capitalize in_word (c ∷ s) =
    (if is_word c && not in_word then to_upper c else c) ∷ capitalize (is_word c) s

unfoldable pub labelize : Option Text → Text
unfolding capitalize
labelize none = codes "Unknown"
labelize (some []) = codes "Unknown"
labelize (some (c ∷ s)) = capitalize false (map (λ d. if d == b'_' then b' ' else d) (c ∷ s))
