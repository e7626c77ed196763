-- ===== src/Web/Pages/Confirmation/Laws.antt =====
-- What a confirmation sends of a form that nobody has edited.
use price_scout.Base.{ℕ, suc, zero, ◌^◌, ◌*◌, ◌<◌, ◌≡◌, refl, true, false, some, arith, leb, Bool}
use price_scout.Base.{List, [], ◌∷◌}
use price_scout.Base.Decimal.{shortest, decimal-shortest}
use price_scout.Base.Numbers.{Numbers, decimal}
use price_scout.Base.Text.{Text, truthy}
use price_scout.Base.Unicode.{Unicode}
use price_scout.Web.Types.{Monitor, MonitorRevision}
use price_scout.Web.Pages.Confirmation.{initial_form, submitted, can_submit}

decimal-truthy : (t : Text) (n : ℕ) → decimal t ≡ some n → truthy t ≡ true
unfolding decimal
decimal-truthy [] n h = absurd cc
decimal-truthy (c ∷ t) n h = refl

-- A panel that is opened on a monitor with a price threshold, below 2 ^ 50 hundredths, and with a
-- currency in capitals can be submitted at once, and then sends the condition of the monitor as it is.
pub submitted-initial_form :
    (u : Unicode) (numbers : Numbers) (m : Monitor) (r : MonitorRevision) (n : ℕ) (currency : Text)
    (in_stock : Bool) (variant : List (Text × Text))
    → 0 < n
    → n < 2 ^ 50
    → u.upper currency ≡ currency
    → m.condition
      ≡ some (record {
        price_below_minor = some n;
        currency = some currency;
        require_in_stock = in_stock;
        requested_variant = variant;
      })
    → (can_submit u numbers false (initial_form m r) ≡ true)
      × (some (submitted u numbers m r (initial_form m r)) ≡ m.condition)
unfolding can_submit submitted
submitted-initial_form u numbers m r zero currency in_stock variant positive small capitals stored =
    absurd (omega arith)
submitted-initial_form u numbers m r (suc n) currency in_stock variant positive small capitals
      stored =
    let value = decimal-shortest (suc n) in
    let shown = decimal-truthy (shortest (suc n)) (suc n) value in
    let above : leb (suc n) (100 * 0) ≡ false = ground arith in
    rw
      (
        stored,
        shown,
        numbers.le_decimal (shortest (suc n)) (suc n) value small 0,
        above,
        numbers.round_decimal (shortest (suc n)) (suc n) value small,
        capitals,
      )
      (refl, refl)
