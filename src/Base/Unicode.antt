-- ===== src/Base/Unicode.antt =====
-- What the worker takes from the Unicode character database: full case mapping and compatibility
-- normalisation. Their tables are data of the runtime; on ASCII text their results are fixed.
use price_scout.Base.Lists.{All, all}
use price_scout.Base.Tests.{ltb}
use price_scout.Base.Text.{Text, to_lower, to_upper}
use Prim.Native.Nat.{◌<◌}
use mathlib.Core.Path.{◌≡◌, refl}
use mathlib.Core.Bool.{true}
use mathlib.Core.List.{map, [], ◌∷◌}
use native.Mathlib.Omega.{arith}

abbrev pub IsAscii : Text → Type 0
IsAscii = All (λ c. c < 128)

pub all-IsAscii : (s : Text) → all (λ c. ltb c 128) s ≡ true → IsAscii s
all-IsAscii [] h = tt
all-IsAscii (c ∷ s) h = (ground arith, all-IsAscii s (ground arith))

-- `toLowerCase`, `toUpperCase` and `normalize("NFKC")`
pub record Unicode : Type 0 where
  pub lower : Text → Text
  pub upper : Text → Text
  pub nfkc : Text → Text
  pub lower_ascii : (s : Text) → IsAscii s → lower s ≡ map to_lower s
  pub upper_ascii : (s : Text) → IsAscii s → upper s ≡ map to_upper s
  pub nfkc_ascii : (s : Text) → IsAscii s → nfkc s ≡ s

-- The database cut down to ASCII.
abbrev pub ascii : Unicode
ascii = record {
  lower = map to_lower;
  upper = map to_upper;
  nfkc = λ s. s;
  lower_ascii = λ s h. refl;
  upper_ascii = λ s h. refl;
  nfkc_ascii = λ s h. refl;
}
