-- ===== src/Validation/Price/Printed.antt =====
-- What `parsePrice` reads in a price that is printed as digits, a point and two digits.
use price_scout.Base.{
  ℕ, ◌+◌, ◌*◌, ◌/◌, ◌%◌, ◌^◌, ◌<◌, ◌≡◌, refl, sym, ap, ◌∙◌, true, false, not, none, some, [], ◌∷◌,
  ◌++◌, map, reverse,
}
use price_scout.Base.{arith, All, All-append, All-imp, all, keep, ◌==◌, leb, if◌then◌else◌}
use price_scout.Base.Decimal.{fixed, digit_of, show-digits, show-cons, decimal-fixed}
use price_scout.Base.Effects.{ok}
use price_scout.Base.Numbers.{decimal}
use price_scout.Base.Text.{Text, is_digit, is_space, trim, trim_start, trim_end, show}
use mathlib.Core.Path.{subst}
use mathlib.Core.List.{reverse-append, reverse-reverse}
use price_scout.Outside.{Platform}
use price_scout.Regex.Members.{In}
use price_scout.Regex.Scan.{Found, match_all, exec, exec_from}
use price_scout.Regex.Avoids.{all_none, test-avoids, match_all-avoids}
use price_scout.Validation.Numeral.{plain_numeral}
use price_scout.Validation.Numeral.Laws.{others, keep-all, plain_numeral-cents}
use price_scout.Validation.Price.{
  compact, is_ambiguous, is_unsupported, detected_currencies, add_all, other_symbol, yen, symbol,
  code_word, numeral, adjacent_codes, to_minor, parse_price,
}
use price_scout.Validation.Price.Groups.{plain_units, cents}
use price_scout.Validation.Price.Scanned.{printed, match_all-numeral}

digit_In : (c : ℕ) → is_digit c ≡ true → In c plain_units
digit_In c h = ground arith

point_In : In b'.' plain_units
point_In = ground arith

digits_In : (ds : Text) → all is_digit ds ≡ true → All (λ c. In c plain_units) ds
digits_In [] h = tt
digits_In (c ∷ ds) h = (digit_In c (ground arith), digits_In ds (ground arith))

map-same : (f : ℕ → ℕ) (s : Text) → All (λ c. f c ≡ c) s → map f s ≡ s
map-same f [] h = refl
map-same f (c ∷ s) (e, h) = rw (e, map-same f s h) refl

abbrev spaced_out : ℕ → ℕ
spaced_out c = if c == 0xa0 then 32 else if c == 0x202f then 32 else c

plain-spaced_out : (c : ℕ) → In c plain_units → spaced_out c ≡ c
plain-spaced_out c i =
    let a : c == 0xa0 ≡ false = all_none (λ d. d == 0xa0) plain_units c refl i in
    let b : c == 0x202f ≡ false = all_none (λ d. d == 0x202f) plain_units c refl i in rw (a, b) refl

digit_no_space : (c : ℕ) → is_digit c ≡ true → is_space c ≡ false
unfolding is_space
digit_no_space c h = ground arith

trim_start-solid : (c : ℕ) (s : Text) → is_digit c ≡ true → trim_start (c ∷ s) ≡ c ∷ s
unfolding trim_start
trim_start-solid c s h = rw (digit_no_space c h) refl

trim_end-solid : (e : ℕ) (s t : Text) → is_digit e ≡ true → reverse s ≡ e ∷ t → trim_end s ≡ s
unfolding trim_end
trim_end-solid e s t h back =
    ap reverse (ap trim_start back ∙ trim_start-solid e t h ∙ sym back) ∙ reverse-reverse s

module _ (p : Platform) where
  to_minor-value :
      (t : Text) (n : ℕ) → decimal t ≡ some n → 0 < n → n < 2 ^ 50 → to_minor p t ≡ ok n
  unfolding to_minor
  to_minor-value t n value positive small =
      let some_value : leb n (100 * 0) ≡ false = ground arith in
      rw
        (
          p.numbers.finite_decimal t n value small,
          p.numbers.le_decimal t n value small 0,
          some_value,
          p.numbers.round_decimal t n value small,
        )
        refl

  -- A text with one numeral and nothing else that `parsePrice` looks for.
  parse_price-single :
      (t : Text) (found : Found) (n : ℕ)
      → compact t ≡ t
      → is_ambiguous t ≡ false
      → is_unsupported t ≡ false
      → detected_currencies t ≡ []
      → match_all numeral t ≡ found ∷ []
      → adjacent_codes found ≡ []
      → to_minor p (plain_numeral (keep (λ c. not (c == 32)) found.text)) ≡ ok n
      → parse_price p t ≡ ok (n, none)
  unfolding parse_price
  parse_price-single t found n same total supported no_currency single no_code value =
      rw (same, total, supported, no_currency, single, no_code, value) refl

module _ (c : ℕ) (ds : Text) (d e : ℕ) (c_digit : is_digit c ≡ true)
    (digits : all is_digit ds ≡ true) (d_digit : is_digit d ≡ true)
    (e_digit : is_digit e ≡ true) where
  abbrev s : Text
  s = c ∷ ds ++ cents d e

  all_digits : all is_digit (c ∷ ds) ≡ true
  all_digits = ground arith

  plain : All (λ u. In u plain_units) s
  plain =
      All-append (λ u. In u plain_units) (c ∷ ds) (cents d e) (digits_In (c ∷ ds) all_digits)
        (point_In, (digit_In d d_digit, (digit_In e e_digit, tt)))

  compact_same : compact s ≡ s
  unfolding compact trim
  compact_same =
      ap trim (map-same spaced_out s (All-imp plain-spaced_out s plain))
      ∙ ap trim_end (trim_start-solid c (ds ++ cents d e) c_digit)
      ∙ trim_end-solid e s (d ∷ b'.' ∷ reverse (c ∷ ds)) e_digit
          (reverse-append (c ∷ ds) (cents d e))

  not_ambiguous : is_ambiguous s ≡ false
  unfolding is_ambiguous
  not_ambiguous = test-avoids plain_units _ refl s plain

  not_unsupported : is_unsupported s ≡ false
  unfolding is_unsupported
  not_unsupported =
      rw (test-avoids plain_units other_symbol refl s plain)
        (test-avoids plain_units yen refl s plain)

  no_currency : detected_currencies s ≡ []
  unfolding detected_currencies add_all
  no_currency =
      rw
        (
          match_all-avoids plain_units code_word refl s plain,
          match_all-avoids plain_units symbol refl s plain,
        )
        refl

  no_code : adjacent_codes (printed c ds d e c_digit digits d_digit e_digit plain) ≡ []
  unfolding adjacent_codes exec exec_from trim_end trim_start
  no_code = refl

  -- Nothing but the number is read.
  pub parse_price-cents :
      (p : Platform) (n : ℕ)
      → decimal s ≡ some n
      → 0 < n
      → n < 2 ^ 50
      → parse_price p s ≡ ok (n, none)
  parse_price-cents p n value positive small =
      let kept : keep (λ u. not (u == 32)) s ≡ s =
        keep-all (λ u. not (u == 32)) s
          (others (c ∷ ds) d e all_digits d_digit e_digit 32 refl refl) in
      let numeral_same : plain_numeral s ≡ s =
        plain_numeral-cents (c ∷ ds) d e all_digits d_digit e_digit in
      parse_price-single p s (printed c ds d e c_digit digits d_digit e_digit plain) n compact_same
        not_ambiguous not_unsupported no_currency
        (match_all-numeral c ds d e c_digit digits d_digit e_digit plain) no_code
        (ap (to_minor p) (ap plain_numeral kept ∙ numeral_same)
          ∙ to_minor-value p s n value positive small)

module _ (p : Platform) (n : ℕ) (positive : 0 < n) (small : n < 2 ^ 50) where
  parse_price-digits :
      (c : ℕ) (ds : Text) → show (n / 100) ≡ c ∷ ds → parse_price p (fixed n) ≡ ok (n, none)
  parse_price-digits c ds e =
      let digits : all is_digit (c ∷ ds) ≡ true =
        subst (λ t. all is_digit t ≡ true) e (show-digits (n / 100)) in
      let first : is_digit c ≡ true = ground arith in
      let others_too : all is_digit ds ≡ true = ground arith in
      let tens : is_digit (48 + n % 100 / 10) ≡ true = digit_of (n % 100 / 10) (omega arith) in
      let ones : is_digit (48 + n % 10) ≡ true = digit_of (n % 10) (omega arith) in
      let read =
        subst (λ t. decimal (t ++ cents (48 + n % 100 / 10) (48 + n % 10)) ≡ some n) e
          (decimal-fixed n) in
      subst (λ t. parse_price p (t ++ cents (48 + n % 100 / 10) (48 + n % 10)) ≡ ok (n, none))
        (sym e)
        (parse_price-cents c ds (48 + n % 100 / 10) (48 + n % 10) first others_too tens ones p n
          read positive small)

  -- `parsePrice` reads the number of hundredths back that `toFixed` printed.
  pub parse_price-fixed : parse_price p (fixed n) ≡ ok (n, none)
  parse_price-fixed = let (c, ds, e) = show-cons (n / 100) in parse_price-digits c ds e
