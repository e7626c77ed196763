-- ===== src/Fixture/Page/Laws.antt =====
-- What the worker reads in the description that the store embeds.
use price_scout.Base.{◌≡◌, refl, Bool, true, false, none, some, arith, List}
use price_scout.Base.Decimal.{fixed}
use price_scout.Base.Effects.{ok}
use price_scout.Base.Text.{
  Text, codes, text_eq, contains, starts_with, trim, trim_start, trim_end, is_space,
}
use price_scout.Base.Unicode.{Unicode, all-IsAscii}
use price_scout.Contracts.{usd, title, sku, price, currency, availability}
use price_scout.Outside.{Platform, Json, Members}
use price_scout.Extract.Product.{
  find_product, json_ld_field, is_product, includes_product, get, field_value, to_text,
}
use price_scout.Extract.Words.{parse_availability, normalize_currency}
use price_scout.Validation.Price.{parse_price, symbol_currency, code_currency}
use price_scout.Validation.Price.Printed.{parse_price-fixed}
use price_scout.Fixture.{FixtureState, Decoder, Request, initial_state, serve}
use price_scout.Fixture.Laws.{IsSound, serve-IsSound}
use price_scout.Fixture.Page.{stock_url, description, structured_data}

-- The worker's functions find the product of the state in a document.
pub record IsReadAs (p : Platform) (document : Json) (s : FixtureState) : Type 0 where
  pub product : Members
  pub found : find_product document ≡ some product
  pub named : json_ld_field product title ≡ ok (codes "Atlas Studio Headphones")
  pub numbered : json_ld_field product sku ≡ ok (codes "ASH-100")
  pub priced :
      (raw : Text) × (json_ld_field product price ≡ ok raw)
      × (parse_price p raw ≡ ok (s.base_price_minor, none))
  pub in_dollars :
      (raw : Text) × (json_ld_field product currency ≡ ok raw)
      × (normalize_currency p.unicode raw ≡ ok usd)
  pub stocked :
      (raw : Text) × (json_ld_field product availability ≡ ok raw)
      × (parse_availability p.unicode raw ≡ ok s.in_stock)

module _ (u : Unicode) where
  stock-IsRead : (b : Bool) → parse_availability u (stock_url b) ≡ ok b
  unfolding parse_availability contains starts_with
  stock-IsRead true = rw (u.lower_ascii (stock_url true) (all-IsAscii (stock_url true) refl)) refl
  stock-IsRead false =
      rw (u.lower_ascii (stock_url false) (all-IsAscii (stock_url false) refl)) refl

  dollar-IsRead : normalize_currency u (codes "USD") ≡ ok usd
  unfolding normalize_currency symbol_currency code_currency text_eq trim trim_start trim_end
      is_space
  dollar-IsRead = rw (u.upper_ascii (codes "USD") (all-IsAscii (codes "USD") refl)) refl

structured_data-IsReadAs :
    (p : Platform) (s : FixtureState) → IsSound s → IsReadAs p (structured_data s) s
unfolding structured_data find_product json_ld_field is_product includes_product get field_value
    to_text text_eq
structured_data-IsReadAs p s h = record {
  product = description s;
  found = refl;
  named = refl;
  numbered = refl;
  priced = (
    fixed s.base_price_minor,
    refl,
    parse_price-fixed p s.base_price_minor h.priced (omega arith),
  );
  in_dollars = (codes "USD", refl, dollar-IsRead p.unicode);
  stocked = (stock_url s.in_stock, refl, stock-IsRead p.unicode s.in_stock);
}

-- Whatever requests the store has served since it started, the worker's functions find a product in
-- the description that its page embeds, and read there its title, its SKU, the price of the state
-- in cents, dollars as the currency, and whether the product is in stock.
pub serve-IsReadAs :
    (p : Platform) (d : Decoder) (control_token : Text) (qs : List Request)
    → IsReadAs p
        (structured_data (serve d control_token qs initial_state))
        (serve d control_token qs initial_state)
serve-IsReadAs p d control_token qs =
    structured_data-IsReadAs p (serve d control_token qs initial_state)
      (serve-IsSound d control_token qs)
