-- ===== src/Policy/Laws.antt =====
-- A monitor of a variant fails closed: it never reads the price, the stock or the SKU of the
-- page's generic product data.
use price_scout.Base.{◌≡◌, true, Option, none, some, List, []}
use price_scout.Base.{All, refl}
use price_scout.Contracts.{Strategy, json_ld, JsonLdField}
use price_scout.Policy.{Inputs, variant_bound, build_live_extractors}

-- The strategy reads the product data of the page.
abbrev pub IsGeneric : Strategy → Type 0
IsGeneric s = (f : JsonLdField) × (s ≡ json_ld f)

abbrev pub listed : Option (List Strategy) → List Strategy
listed none = []
listed (some l) = l

-- Strategies that a person's or a model's choice of nodes has given.
pub record IsBoundToPage (input : Inputs) : Type 0 where
  pub price : ¬ IsGeneric input.price
  pub availability : ¬ IsGeneric input.availability
  pub sku : (s : Strategy) → input.sku ≡ some s → ¬ IsGeneric s

abbrev pub NeverGeneric : List Strategy → Type 0
NeverGeneric = All (λ s. ¬ IsGeneric s)

sku-NeverGeneric :
    (x : Inputs)
    → variant_bound x.requested_variant ≡ true
    → IsBoundToPage x
    → (o : Option Strategy) → x.sku ≡ o
    → NeverGeneric (listed (build_live_extractors x).sku)
unfolding build_live_extractors
sku-NeverGeneric x v b none e = rw (v, e) tt
sku-NeverGeneric x v b (some s) e = rw (v, e) (b.sku s e, tt)

-- With a requested variant, every strategy for price, availability and SKU is one that was bound
-- to a node of the page, so that a stale one surfaces as a failure and not as another offer's
-- value.
pub variant_fails_closed :
    (x : Inputs)
    → variant_bound x.requested_variant ≡ true
    → IsBoundToPage x
    → NeverGeneric (build_live_extractors x).price
      × NeverGeneric (build_live_extractors x).availability
      × NeverGeneric (listed (build_live_extractors x).sku)
unfolding build_live_extractors
variant_fails_closed x v b =
    (rw v (b.price, tt), rw v (b.availability, tt), sku-NeverGeneric x v b x.sku refl)
