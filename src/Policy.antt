-- ===== src/Policy.antt =====
-- worker/src/extractorPolicy.ts: which strategies a live plan may fall back to.
pub mod Laws
use price_scout.Base.{Bool, true, false, Option, none, some, List, [], ◌∷◌, if◌then◌else◌}
use price_scout.Base.Text.{Text}
use price_scout.Contracts.{
  Strategy, json_ld, JsonLdField, title, sku, price, currency, availability, Extractors,
}

pub record Inputs : Type 0 where
  pub requested_variant : List (Text × Text)
  pub title : Strategy
  pub sku : Option Strategy
  pub price : Strategy
  pub currency : Option Strategy
  pub availability : Strategy
  pub selected_variant : List Strategy

-- `Object.keys(input.requestedVariant).length > 0`
abbrev pub variant_bound : List (Text × Text) → Bool
variant_bound [] = false
variant_bound (_ ∷ _) = true

abbrev with_fallback : Bool → Strategy → JsonLdField → List Strategy
with_fallback bound s field = if bound then s ∷ [] else s ∷ json_ld field ∷ []

abbrev sku_list : Bool → Option Strategy → Option (List Strategy)
sku_list bound none = if bound then none else some (json_ld sku ∷ [])
sku_list bound (some s) = some (with_fallback bound s sku)

abbrev currency_list : Option Strategy → List Strategy
currency_list none = json_ld currency ∷ []
currency_list (some s) = s ∷ json_ld currency ∷ []

unfoldable pub build_live_extractors : Inputs → Extractors
build_live_extractors input =
    let bound = variant_bound input.requested_variant in
    record {
      title = input.title ∷ json_ld title ∷ [];
      sku = sku_list bound input.sku;
      price = with_fallback bound input.price price;
      currency = some (currency_list input.currency);
      availability = with_fallback bound input.availability availability;
      selected_variant = input.selected_variant;
    }
