-- ===== src/Contracts/Entries.antt =====
-- Reading and writing a `Record<string, …>`, kept as the list of its entries.
use price_scout.Base.{Option, none, some, ◌≡◌, List, [], ◌∷◌, arith, if◌then◌else◌}
use price_scout.Base.Text.{Text, text_eq, text_eq_refl}

module _ {V : Type 0} where
  -- `entries[key]`
  unfoldable pub lookup : Text → List (Text × V) → Option V
  lookup key [] = none
  lookup key ((k, v) ∷ more) = if text_eq k key then some v else lookup key more

  -- `entries[key] = value`
  unfoldable pub insert : Text → V → List (Text × V) → List (Text × V)
  insert key value [] = (key, value) ∷ []
  insert key value ((k, v) ∷ more) =
      if text_eq k key then (k, value) ∷ more else (k, v) ∷ insert key value more

  pub lookup-insert_self :
      (key : Text) (value : V) (m : List (Text × V)) → lookup key (insert key value m) ≡ some value
  unfolding lookup insert
  lookup-insert_self key value [] = ground (arith, text_eq_refl key)
  lookup-insert_self key value ((k, v) ∷ more) = ground (arith, lookup-insert_self key value more)
