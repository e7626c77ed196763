-- ===== src/Fixture/Page.antt =====
-- The product page of fixture/src/server.ts: the description of the product that it embeds for
-- machines, and the price that its script shows for a selection.
pub mod Laws
use price_scout.Base.{ℕ, ◌+◌, Bool, true, false, if◌then◌else◌}
use price_scout.Base.Decimal.{fixed}
use price_scout.Base.Text.{Text, codes}
use price_scout.Outside.{Json, str, obj, Members, end, member}
use price_scout.Fixture.{FixtureState}

abbrev pub stock_url : Bool → Text
stock_url in_stock =
    if in_stock then codes "https://schema.org/InStock" else codes "https://schema.org/OutOfStock"

abbrev pub offer : FixtureState → Members
offer s = member (codes "@type") (str (codes "Offer")) (
    member (codes "price") (str (fixed s.base_price_minor)) (
      member (codes "priceCurrency") (str (codes "USD"))
        (member (codes "availability") (str (stock_url s.in_stock)) end)))

abbrev brand : Members
brand =
    member (codes "@type") (str (codes "Brand"))
      (member (codes "name") (str (codes "Price Scout Fixture Store")) end)

abbrev pub description : FixtureState → Members
description s = member (codes "@context") (str (codes "https://schema.org")) (
    member (codes "@type") (str (codes "Product")) (
      member (codes "name") (str (codes "Atlas Studio Headphones")) (
        member (codes "sku") (str (codes "ASH-100"))
          (member (codes "brand") (obj brand) (member (codes "offers") (obj (offer s)) end)))))

-- The object whose JSON text is the page's script "application/ld+json".
unfoldable pub structured_data : FixtureState → Json
structured_data s = obj (description s)
