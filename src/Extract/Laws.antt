-- ===== src/Extract/Laws.antt =====
-- What an observation says, by the texts that were read from the page.
use price_scout.Base.{◌≡◌, Option}
use price_scout.Base.Text.{Text, codes}
use price_scout.Base.Effects.{ok}
use price_scout.Contracts.{Plan, Observation, Currency}
use price_scout.Outside.{Platform, Outside, Session}
use price_scout.Outside.Act.{St}
use price_scout.Outside.Returns.{Returns}
use price_scout.Validation.Price.{parse_price}
use price_scout.Validation.Title.{fingerprint}
use price_scout.Extract.Words.{parse_availability, normalize_currency}
use price_scout.Extract.{read_first, optional_list, currency_text}

-- A text that the plan's strategies for a currency give in some state of the page, or none if the
-- plan has no such strategy.
abbrev pub IsPageCurrency : Platform → Outside → Session → Plan → Option Text → Type 0
IsPageCurrency p o run plan raw =
    (s : St o) × ((read_first p run (codes "currency") (optional_list plan.extractors.currency) s).0
      ≡ ok raw)

-- The observation's price, currency, stock and fingerprint are computed from texts of the page: the
-- currency from the one for it, else from the price's, else it is the expected one.
pub record IsDerived (p : Platform) (o : Outside) (run : Session) (plan : Plan) (r : Observation)
    : Type 0 where
  pub price :
      (found : Option Currency) × (parse_price p r.raw_price ≡ ok (r.price_minor, found))
      × ((raw : Option Text) × IsPageCurrency p o run plan raw
          × (normalize_currency p.unicode (currency_text raw found plan.expected_currency)
              ≡ ok r.currency))
  pub stock : parse_availability p.unicode r.availability_raw ≡ ok r.in_stock
  pub identity : r.identity_fingerprint ≡ fingerprint p r.title r.sku
