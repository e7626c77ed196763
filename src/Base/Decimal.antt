-- ===== src/Base/Decimal.antt =====
-- The decimal numeral of a number, and the number of a numeral.
use Prim.Native.Nat.{ℕ, zero, suc, ◌+◌, ◌-◌, ◌*◌, ◌/◌, ◌%◌, ◌<◌}
use mathlib.Core.Path.{◌≡◌, refl, ap, sym, subst, ◌∙◌}
use mathlib.Core.Option.{some}
use price_scout.Base.Numbers.{decimal, decimal_from}
use mathlib.Core.Logic.{inl, inr}
use mathlib.Core.Bool.{true}
use mathlib.Core.List.{[], ◌∷◌, ◌++◌, append-nil}
use native.Mathlib.Omega.{arith}
use price_scout.Base.Tests.{ltb, ◌==◌, if◌then◌else◌, Bool-cases}
use price_scout.Base.Lists.{all}
use price_scout.Base.Text.{Text, is_digit, show, show_from}

-- `(n / 100).toFixed(2)`
abbrev pub fixed : ℕ → Text
fixed n = show (n / 100) ++ b'.' ∷ (48 + n % 100 / 10) ∷ (48 + n % 10) ∷ []

-- The value of the digits behind a number.
unfoldable pub value_from : ℕ → Text → ℕ
value_from n [] = n
value_from n (c ∷ s) = value_from (n * 10 + (c - 48)) s

pub digit_of : (n : ℕ) → n < 10 → is_digit (48 + n) ≡ true
digit_of n h = ground arith

show_from-value :
    (rounds n : ℕ) (digits : Text)
    → n < rounds
    → value_from 0 (show_from rounds n digits) ≡ value_from n digits
unfolding value_from show_from
show_from-value zero n digits h = absurd (omega arith)
show_from-value (suc rounds) n digits h = elim (Bool-cases (ltb n 10)) [
  | inl small ↦ rw small (ap (λ m. value_from m digits) (omega arith))
  | inr large ↦ rw large (
      show_from-value rounds (n / 10) ((48 + n % 10) ∷ digits) (ground arith)
      ∙ ap (λ m. value_from m digits) (omega arith))
]

show_from-digits :
    (rounds n : ℕ) (digits : Text)
    → n < rounds
    → all is_digit digits ≡ true
    → all is_digit (show_from rounds n digits) ≡ true
unfolding show_from
show_from-digits zero n digits h k = absurd (omega arith)
show_from-digits (suc rounds) n digits h k = elim (Bool-cases (ltb n 10)) [
  | inl small ↦ rw (small, digit_of n (ground arith)) k
  | inr large ↦ rw large (
      show_from-digits rounds (n / 10) ((48 + n % 10) ∷ digits) (ground arith)
        (rw (digit_of (n % 10) (omega arith)) k))
]

-- A numeral has a first digit.
show_from-cons :
    (rounds n : ℕ) (digits : Text)
    → n < rounds
    → (c : ℕ) × (s : Text) × (show_from rounds n digits ≡ c ∷ s)
unfolding show_from
show_from-cons zero n digits h = absurd (omega arith)
show_from-cons (suc rounds) n digits h = elim (Bool-cases (ltb n 10)) [
  | inl small ↦ (48 + n, digits, rw small refl)
  | inr large ↦
      let (c, s, e) = show_from-cons rounds (n / 10) ((48 + n % 10) ∷ digits) (ground arith) in
      (c, s, rw large e)
]

pub value-show : (n : ℕ) → value_from 0 (show n) ≡ n
unfolding show value_from
value-show n = show_from-value (suc n) n [] (omega arith)

pub show-digits : (n : ℕ) → all is_digit (show n) ≡ true
unfolding show
show-digits n = show_from-digits (suc n) n [] (omega arith) refl

pub show-cons : (n : ℕ) → (c : ℕ) × (s : Text) × (show n ≡ c ∷ s)
unfolding show
show-cons n = show_from-cons (suc n) n [] (omega arith)

-- The digits of a numeral, and what is behind them.
decimal_from-append :
    (whole : ℕ) (ds tail : Text)
    → all is_digit ds ≡ true
    → decimal_from whole (ds ++ tail) ≡ decimal_from (value_from whole ds) tail
unfolding decimal_from value_from
decimal_from-append whole [] tail h = refl
decimal_from-append whole (c ∷ ds) tail h =
    let here : is_digit c ≡ true = ground arith in
    rw here (decimal_from-append (whole * 10 + (c - 48)) ds tail (ground arith))

decimal-append :
    (c : ℕ) (ds tail : Text)
    → all is_digit (c ∷ ds) ≡ true
    → decimal (c ∷ ds ++ tail) ≡ decimal_from (value_from 0 (c ∷ ds)) tail
unfolding decimal value_from
decimal-append c ds tail h =
    let here : is_digit c ≡ true = ground arith in
    let same : c - 48 ≡ 0 * 10 + (c - 48) = omega arith in
    rw (here, ← same) (decimal_from-append (c - 48) ds tail (ground arith))

module _ (n : ℕ) (tail : Text) where
  decimal-digits :
      (c : ℕ) (ds : Text) → show n ≡ c ∷ ds → decimal (show n ++ tail) ≡ decimal_from n tail
  decimal-digits c ds e =
      ap (λ t. decimal (t ++ tail)) e
      ∙ decimal-append c ds tail (subst (λ t. all is_digit t ≡ true) e (show-digits n))
      ∙ ap (λ m. decimal_from m tail) (ap (value_from 0) (sym e) ∙ value-show n)

  -- What a printed number is worth with what is behind it.
  pub decimal-show : decimal (show n ++ tail) ≡ decimal_from n tail
  decimal-show = let (c, ds, e) = show-cons n in decimal-digits c ds e

-- `String(n / 100)`, for numbers that are not too large: no zero ends the fraction.
abbrev pub shortest : ℕ → Text
shortest n =
    if n % 100 == 0
    then show (n / 100)
    else if n % 10 == 0
    then show (n / 100) ++ b'.' ∷ (48 + n % 100 / 10) ∷ []
    else fixed n

pub decimal-fixed : (n : ℕ) → decimal (fixed n) ≡ some n
unfolding decimal_from
decimal-fixed n =
    let tens : is_digit (48 + n % 100 / 10) ≡ true = digit_of (n % 100 / 10) (omega arith) in
    let ones : is_digit (48 + n % 10) ≡ true = digit_of (n % 10) (omega arith) in
    decimal-show (n / 100) (b'.' ∷ (48 + n % 100 / 10) ∷ (48 + n % 10) ∷ [])
    ∙ rw (tens, ones) (ap some (omega arith))

pub decimal-shortest : (n : ℕ) → decimal (shortest n) ≡ some n
unfolding decimal_from
decimal-shortest n = elim (Bool-cases (n % 100 == 0)) [
  | inl whole ↦ rw whole (
      ap decimal (sym (append-nil (show (n / 100))))
      ∙ decimal-show (n / 100) []
      ∙ ap some (ground arith))
  | inr broken ↦ elim (Bool-cases (n % 10 == 0)) [
    | inl round ↦
        let tens : is_digit (48 + n % 100 / 10) ≡ true = digit_of (n % 100 / 10) (omega arith) in
        rw (broken, round)
          (decimal-show (n / 100) (b'.' ∷ (48 + n % 100 / 10) ∷ [])
            ∙ rw tens (ap some (ground arith)))
    | inr odd ↦ rw (broken, odd) (decimal-fixed n)
  ]
]
