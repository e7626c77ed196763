-- ===== src/Base/Numbers.antt =====
-- Double-precision numbers, which the logic has not: a type and the operations that the worker
-- applies, with what the language fixes of them on decimal numerals. `decimal` is the exact
-- mathematical value of such a numeral, in hundredths.
use Prim.Native.Nat.{ℕ, ◌+◌, ◌-◌, ◌*◌, ◌^◌, ◌<◌}
use mathlib.Core.Path.{◌≡◌, ap}
use mathlib.Core.Bool.{Bool, true, false, ◌&&◌}
use mathlib.Core.Option.{Option, none, some}
use mathlib.Core.List.{[], ◌∷◌}
use price_scout.Base.Tests.{leb, ◌==◌, if◌then◌else◌, is_some}
use price_scout.Base.Text.{Text, is_digit}

abbrev digit_value : ℕ → ℕ
digit_value c = c - 48

abbrev hundredths : ℕ → Text → Option ℕ
hundredths whole (d ∷ []) = if is_digit d then some (whole * 100 + digit_value d * 10) else none
hundredths whole (d ∷ e ∷ []) =
    if is_digit d && is_digit e
    then some (whole * 100 + digit_value d * 10 + digit_value e)
    else none
hundredths whole _ = none

unfoldable pub decimal_from : ℕ → Text → Option ℕ
decimal_from whole [] = some (whole * 100)
decimal_from whole (c ∷ s) =
    let longer = decimal_from (whole * 10 + digit_value c) s in
    if is_digit c then longer else if c == b'.' then hundredths whole s else none

-- Digits, and behind a point one or two more.
unfoldable pub decimal : Text → Option ℕ
unfolding decimal_from
decimal [] = none
decimal (c ∷ s) = if is_digit c then decimal_from (digit_value c) s else none

pub record Numbers : Type 1 where
  pub Num : Type 0
  pub number : Text → Num  -- `Number(text)`
  pub is_nan : Num → Bool
  pub is_finite : Num → Bool
  pub eq_nat : Num → ℕ → Bool  -- `x === n`
  pub le_nat : Num → ℕ → Bool  -- `x <= n`
  pub ge_nat : Num → ℕ → Bool  -- `x >= n`
  pub round_scaled : Num → ℕ  -- `Math.round(x * 100)`
  -- Below 2 ^ 50 hundredths the double nearest to the numeral loses nothing that these show.
  pub nan_decimal : (s : Text) (h : ℕ) → decimal s ≡ some h → h < 2 ^ 50 → is_nan (number s) ≡ false
  pub finite_decimal :
      (s : Text) (h : ℕ) → decimal s ≡ some h → h < 2 ^ 50 → is_finite (number s) ≡ true
  pub eq_decimal :
      (s : Text) (h : ℕ)
      → decimal s ≡ some h
      → h < 2 ^ 50
      → (n : ℕ) → eq_nat (number s) n ≡ (h == 100 * n)
  pub le_decimal :
      (s : Text) (h : ℕ)
      → decimal s ≡ some h
      → h < 2 ^ 50
      → (n : ℕ) → le_nat (number s) n ≡ leb h (100 * n)
  pub ge_decimal :
      (s : Text) (h : ℕ)
      → decimal s ≡ some h
      → h < 2 ^ 50
      → (n : ℕ) → ge_nat (number s) n ≡ leb (100 * n) h
  pub round_decimal :
      (s : Text) (h : ℕ) → decimal s ≡ some h → h < 2 ^ 50 → round_scaled (number s) ≡ h

abbrev held : (ℕ → Bool) → Option ℕ → Bool
held p none = false
held p (some h) = p h

abbrev minor : Option ℕ → ℕ
minor none = 0
minor (some h) = h

abbrev absent : Option ℕ → Bool
absent none = true
absent (some h) = false

-- Decimal numerals computed exactly; any other text is NaN.
abbrev pub exact : Numbers
exact = record {
  Num = Option ℕ;
  number = decimal;
  is_nan = absent;
  is_finite = is_some;
  eq_nat = λ x n. held (λ h. h == 100 * n) x;
  le_nat = λ x n. held (λ h. leb h (100 * n)) x;
  ge_nat = λ x n. held (λ h. leb (100 * n) h) x;
  round_scaled = minor;
  nan_decimal = λ s h e b. ap absent e;
  finite_decimal = λ s h e b. ap is_some e;
  eq_decimal = λ s h e b n. ap (held (λ h. h == 100 * n)) e;
  le_decimal = λ s h e b n. ap (held (λ h. leb h (100 * n))) e;
  ge_decimal = λ s h e b n. ap (held (λ h. leb (100 * n) h)) e;
  round_decimal = λ s h e b. ap minor e;
}
