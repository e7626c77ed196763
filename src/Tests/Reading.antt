-- ===== src/Tests/Reading.antt =====
-- Theorems on prices, observations and plans, on the shop.
use price_scout.Base.{◌≡◌, ◌↔◌, refl, none, some, [], ◌∷◌}
use price_scout.Base.Text.{codes}
use price_scout.Base.Unicode.{ascii}
use price_scout.Base.Effects.{ok}
use price_scout.Contracts.{Strategy, xpath_text}
use price_scout.Outside.{main}
use price_scout.Outside.Act.{St}
use price_scout.Validation.Identity.{validate_observation}
use price_scout.Validation.Identity.Laws.{Belongs, validate_observation_iff}
use price_scout.Extract.{read_first_from}
use price_scout.Extract.Fallback.{IsFirst, read_first_from_iff}
use price_scout.Policy.{Inputs, build_live_extractors}
use price_scout.Policy.Laws.{NeverGeneric, IsBoundToPage, listed, variant_fails_closed}
use price_scout.Tests.Shop.{platform, shop, start, plan, observed}

validate_observation_iff_example :
    (validate_observation ascii observed plan ≡ ok tt) ↔ Belongs ascii observed plan
validate_observation_iff_example = validate_observation_iff ascii observed plan

abbrev node : Strategy
node = xpath_text (codes "xpath=/html[1]/body[1]") none

abbrev inputs : Inputs
inputs = record {
  requested_variant = (codes "color", codes "black") ∷ [];
  title = node;
  sku = some node;
  price = node;
  currency = none;
  availability = node;
  selected_variant = node ∷ [];
}

bound : IsBoundToPage inputs
bound = record { price = λ (f, e). cc; availability = λ (f, e). cc; sku = λ s e (f, g). cc }

variant_fails_closed_example :
    NeverGeneric (build_live_extractors inputs).price
    × NeverGeneric (build_live_extractors inputs).availability
    × NeverGeneric (listed (build_live_extractors inputs).sku)
variant_fails_closed_example = variant_fails_closed inputs refl bound

abbrev after_price : St shop
after_price =
    (read_first_from platform {o = shop} main (codes "price") [] plan.extractors.price start).1

read_first_from_iff_example :
    (read_first_from platform {o = shop} main (codes "price") [] plan.extractors.price start
      ≡ (ok (codes "$5.25"), after_price))
    ↔ IsFirst platform {o = shop} main (codes "$5.25") after_price plan.extractors.price start
read_first_from_iff_example =
    read_first_from_iff platform {o = shop} main (codes "price") (codes "$5.25")
      plan.extractors.price [] start after_price
