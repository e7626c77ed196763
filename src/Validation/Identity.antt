-- ===== src/Validation/Identity.antt =====
-- `validateObservation` of worker/src/validation.ts.
pub mod Laws
use price_scout.Base.{Bool, true, false, not, Option, none, some, List, [], ◌∷◌, ◌++◌}
use price_scout.Base.{if◌then◌else◌}
use price_scout.Base.Text.{Text, codes, text_eq}
use price_scout.Base.Unicode.{Unicode}
use price_scout.Base.Effects.{
  Check, Reason, ok, err, validation, identity_drift, ambiguous_value, msg, ◌>>◌,
}
use price_scout.Contracts.{Currency, usd, cad, eur, gbp, aud, Identity, Plan, Observation}
use price_scout.Contracts.Entries.{lookup}
use price_scout.Validation.Price.{same_currency}
use price_scout.Validation.Title.{normalize, dissimilar, or_empty}
use price_scout.Browser.{present}

abbrev pub currency_code : Currency → Text
currency_code usd = codes "USD"
currency_code cad = codes "CAD"
currency_code eur = codes "EUR"
currency_code gbp = codes "GBP"
currency_code aud = codes "AUD"

abbrev pub refuse_unless : Bool → Reason → Text → Check
refuse_unless true reason message = ok tt
refuse_unless false reason message = err (validation reason message)

module _ (u : Unicode) where
  abbrev pub same_text : Text → Text → Bool
  same_text s t = text_eq (normalize u s) (normalize u t)

  -- The SKUs decide where both are given and not empty, and else the titles.
  unfoldable pub check_product : Identity → Text → Option Text → Check
  check_product identity title sku =
      if present identity.sku
      then if present sku
        then refuse_unless (same_text (or_empty identity.sku) (or_empty sku)) identity_drift
            (msg "Product SKU changed")
        else check_title
      else check_title
    where
      check_title : Check
      check_title =
          refuse_unless (not (dissimilar u identity.title title)) identity_drift
            (msg "Product title no longer matches the compiled identity")

  unfoldable pub check_variants : List (Text × Text) → List (Text × Text) → Check
  check_variants [] selected = ok tt
  check_variants ((attribute, expected) ∷ rest) selected = do
    refuse_unless (same_text (or_empty (lookup attribute selected)) expected) identity_drift
        (msg "Requested " ++ (attribute ++ msg " variant is no longer selected"))
    check_variants rest selected

  unfoldable pub validate_observation : Observation → Plan → Check
  unfolding check_product check_variants
  validate_observation observation plan = do
    refuse_unless (same_currency observation.currency plan.expected_currency) ambiguous_value (
        msg "Expected "
        ++ (currency_code plan.expected_currency
            ++ (msg ", observed " ++ currency_code observation.currency)))
    check_product plan.identity observation.title observation.sku
    check_variants plan.identity.requested_variant observation.selected_variant
