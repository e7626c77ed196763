-- ===== src/Web/Pages/Dashboard.antt =====
-- `DashboardPage` of web/src/pages/DashboardPage.tsx: the counts over all monitors, and the row of
-- a monitor.
use price_scout.Base.{ℕ, suc, Bool, true, false, Option, none, some, List}
use price_scout.Base.{keep, length, take, chain, or_else, min, if◌then◌else◌}
use price_scout.Base.Text.{Text, codes}
use price_scout.Base.Unicode.{Unicode}
use price_scout.Outside.{Url}
use price_scout.Web.Types.{
  Monitor, MonitorStatus, active, needs_review, awaiting_confirmation, Observation,
}
use price_scout.Web.Client.Normalize.{Dates}
use price_scout.Web.Format.{Locale, format_money, format_relative, hostname}

abbrev is_active : MonitorStatus → Bool
is_active active = true
is_active _ = false

abbrev wants_review : MonitorStatus → Bool
wants_review needs_review = true
wants_review awaiting_confirmation = true
wants_review _ = false

abbrev is_known : Option Observation → Bool
is_known none = false
is_known (some o) = true

pub record Counts : Type 0 where
  pub active : ℕ
  pub reviews : ℕ
  pub observations : ℕ
  pub total : ℕ

abbrev pub counts : List Monitor → Counts
counts items = record {
  active = length (keep (λ (m : Monitor). is_active m.status) items);
  reviews = length (keep (λ (m : Monitor). wants_review m.status) items);
  observations = length (keep (λ (m : Monitor). is_known m.latest_observation) items);
  total = length items;
}

pub record Row : Type 0 where
  pub avatar : Text
  pub title : Text
  pub price : Text
  pub target : Option Text
  pub progress : Option ℕ
  pub next : Text
  pub stock : Text

abbrev some_or {ℓ} : {A : Type ℓ} → Option A → A → A
some_or none d = d
some_or (some a) d = a

abbrev stock_text : Option Observation → Text
stock_text none = codes "Awaiting first check"
stock_text (some o) = if is_out o.in_stock then codes "Out of stock" else codes "In stock"
  where
    is_out : Option Bool → Bool
    is_out (some false) = true
    is_out _ = false

-- `percent target price` is `Math.round((target / price) * 100)`.
module _ (percent : ℕ → ℕ → ℕ) (u : Unicode) (l : Locale) (time : Dates) (now : ℕ)
    (parse_url : Text → Option Url) where
  -- Without a target or a price, or where one of them is zero, there is no progress.
  abbrev pub progress : Option ℕ → Option ℕ → Option ℕ
  progress (some (suc t)) (some (suc p)) = some (min 100 (percent (suc t) (suc p)))
  progress _ _ = none

  abbrev pub row : Monitor → Row
  row m =
      let seen = m.latest_observation in
      let limit = chain m.condition (λ c. c.price_below_minor) in
      let currency = or_else (chain seen (λ o. o.currency)) (chain m.condition (λ c. c.currency)) in
      let price = chain seen (λ o. o.price_minor) in
      record {
        avatar = u.upper (take 1 (some_or m.name (hostname parse_url m.url)));
        title = some_or (or_else m.name (chain seen (λ o. o.title))) (hostname parse_url m.url);
        price = format_money l price currency;
        target = chain limit (λ n. some (format_money l (some n) currency));
        progress = progress limit price;
        next =
            if is_active m.status then format_relative time now m.next_run_at else codes "On hold";
        stock = stock_text seen;
      }
