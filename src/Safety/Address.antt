-- ===== src/Safety/Address.antt =====
-- `isPrivateAddress` of worker/src/safety.ts.
pub mod Blocks
pub mod Dotted
use price_scout.Base.{ℕ, zero, suc, Bool, true, false, ◌&&◌, ◌||◌, Option, none, some}
use price_scout.Base.{List, [], ◌∷◌, ◌++◌, map, any, if◌then◌else◌}
use price_scout.Base.Text.{Text, codes, text_eq, starts_with, split}
use price_scout.Base.Unicode.{Unicode}
use price_scout.Base.Numbers.{Numbers}
use price_scout.Regex.{Regex, seq, exactly, digit, plus, at_start, at_end, test}

-- The addresses that the first test recognises by their text.
unfoldable pub special_text : Text → Bool
special_text value =
    text_eq value (codes "::1")
    || text_eq value (codes "::")
    || starts_with value (codes "fe80:")
    || starts_with value (codes "fc")
    || starts_with value (codes "fd")
    || starts_with value (codes "ff")
    || text_eq value (codes "2001:db8::")
    || starts_with value (codes "2001:db8:")

abbrev quad_pattern : Regex
quad_pattern = seq at_start (
    seq (plus digit) (
      seq (exactly (codes ".")) (
        seq (plus digit) (
          seq (exactly (codes "."))
            (seq (plus digit) (seq (exactly (codes ".")) (seq (plus digit) at_end)))))))

abbrev without_prefix : Text → Text → Option Text
without_prefix [] s = some s
without_prefix (c ∷ p) [] = none
without_prefix (c ∷ p) (d ∷ s) =
    let rest = without_prefix p s in elim (text_eq (c ∷ []) (d ∷ [])) [ true ↦ rest | false ↦ none ]

-- `value.match(/^::ffff:(\d+\.\d+\.\d+\.\d+)$/)?.[1]`
unfoldable pub mapped : Text → Option Text
mapped value = elim (without_prefix (codes "::ffff:") value) [
  | none ↦ none
  | some rest ↦ if test quad_pattern rest then some rest else none
]

module _ (n : Numbers) where
  open n use {Num, number, is_nan, eq_nat, le_nat, ge_nat}

  unfoldable pub reserved_octets : Num → Num → Num → Bool
  reserved_octets a b c =
      eq_nat a 0
      || eq_nat a 10
      || eq_nat a 127
      || (eq_nat a 169 && eq_nat b 254)
      || (eq_nat a 172 && ge_nat b 16 && le_nat b 31)
      || (eq_nat a 192 && eq_nat b 168)
      || (eq_nat a 192 && eq_nat b 0 && (eq_nat c 0 || eq_nat c 2))
      || (eq_nat a 198 && (eq_nat b 18 || eq_nat b 19))
      || (eq_nat a 198 && eq_nat b 51 && eq_nat c 100)
      || (eq_nat a 203 && eq_nat b 0 && eq_nat c 113)
      || (eq_nat a 100 && ge_nat b 64 && le_nat b 127)
      || ge_nat a 224

  -- The octets, if there are four and none is NaN.
  unfoldable pub private_octets : List Num → Bool
  private_octets (a ∷ b ∷ c ∷ d ∷ []) =
      if any is_nan (a ∷ b ∷ c ∷ d ∷ []) then false else reserved_octets a b c
  private_octets _ = false

  -- The recursion is on the part behind "::ffff:", which is not such an address again: two rounds
  -- are enough.
  unfoldable pub private_rounds : ℕ → (Text → Text) → Text → Bool
  private_rounds zero lower address = false
  private_rounds (suc rounds) lower address =
      let value = lower address in
      if special_text value then true else elim (mapped value) [
        | some inner ↦ private_rounds rounds lower inner
        | none ↦ private_octets (map number (split b'.' value))
      ]

  unfoldable pub is_private_address : Unicode → Text → Bool
  unfolding private_rounds
  is_private_address u address = private_rounds 2 u.lower address
