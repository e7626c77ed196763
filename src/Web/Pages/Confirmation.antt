-- ===== src/Web/Pages/Confirmation.antt =====
-- `ConfirmationPanel` of web/src/pages/MonitorDetailPage.tsx: the form that a plan is confirmed by.
pub mod Laws
use price_scout.Base.{
  ℕ, suc, zero, Bool, true, false, not, ◌||◌, Option, none, some, List, [], chain, or_else,
}
use price_scout.Base.{if◌then◌else◌}
use price_scout.Base.Decimal.{shortest}
use price_scout.Base.Numbers.{Numbers}
use price_scout.Base.Text.{Text, codes, truthy}
use price_scout.Base.Unicode.{Unicode}
use price_scout.Web.Types.{Monitor, MonitorRevision, PriceCondition}

-- The state of the panel.
pub record Form : Type 0 where
  pub price : Text
  pub currency : Text
  pub in_stock : Bool

-- A threshold of zero counts as none.
abbrev pub price_text : Option ℕ → Text
price_text none = []
price_text (some zero) = []
price_text (some (suc n)) = shortest (suc n)

abbrev or_default {ℓ} : {A : Type ℓ} → Option A → A → A
or_default none d = d
or_default (some a) d = a

abbrev expected_currency : MonitorRevision → Option Text
expected_currency r = chain r.plan (λ p. p.expected_currency)

abbrev requested_variant : MonitorRevision → Option (List (Text × Text))
requested_variant r = chain (chain r.plan (λ p. p.identity)) (λ i. i.requested_variant)

abbrev condition_currency : Monitor → Option Text
condition_currency m = chain m.condition (λ c. c.currency)

abbrev pub initial_form : Monitor → MonitorRevision → Form
initial_form m r = record {
  price = price_text (chain m.condition (λ c. c.price_below_minor));
  currency = or_default (or_else (condition_currency m) (expected_currency r)) (codes "USD");
  in_stock = or_default (chain m.condition (λ c. some c.require_in_stock)) true;
}

module _ (u : Unicode) (numbers : Numbers) where
  open numbers use {number, le_nat, round_scaled}

  unfoldable pub submitted : Monitor → MonitorRevision → Form → PriceCondition
  submitted m r form = record {
    price_below_minor = if truthy form.price then some (round_scaled (number form.price)) else none;
    currency = some (u.upper form.currency);
    require_in_stock = form.in_stock;
    requested_variant =
        or_default
          (or_else (chain m.condition (λ c. some c.requested_variant)) (requested_variant r)) [];
  }

  -- The button is not disabled.
  unfoldable pub can_submit : Bool → Form → Bool
  can_submit is_pending form =
      not (is_pending || not (truthy form.price) || le_nat (number form.price) 0)
