-- ===== src/Tests/Pages.antt =====
-- Theorems and examples on the pages of the console.
use price_scout.Base.{
  ℕ, ◌<◌, chain, ◌≡◌, ◌⊎◌, refl, arith, true, false, Option, none, some, [], ◌∷◌, keep, map,
}
use price_scout.Base.Sorting.{sort_by, insert_by}
use price_scout.Base.Sorting
use price_scout.Base.Numbers.{exact, decimal}
use price_scout.Base.Text.{Text, codes, split, split_from, starts_with, is_space}
use price_scout.Base.Unicode.{ascii}
use price_scout.Outside.{Url}
use price_scout.Web.Types.{Monitor, MonitorRevision, Observation, PriceCondition}
use price_scout.Web.Client.Request.{and_then}
use price_scout.Web.Client.Normalize.{or_empty}
use price_scout.Web.Client.Operations.{create_monitor}
use price_scout.Web.Pages.Confirmation.{initial_form, submitted, can_submit}
use price_scout.Web.Pages.Confirmation.Laws.{submitted-initial_form}
use price_scout.Base.{◌↔◌}
use price_scout.Web.Pages.Monitor.{is_candidate, latest_candidate, latest_shown, target_met}
use price_scout.Web.Pages.Monitor.Laws.{IsPending, latest_candidate-Leads, target_met_iff}
use price_scout.Web.Pages.NewMonitor
use price_scout.Web.Pages.NewMonitor.{
  submit, sent, field_error, url_message, intent_message, input, monitor_page,
}
use price_scout.Web.Pages.NewMonitor.Laws.{IsComplete, submit-cases}
use price_scout.Web.Pages.Operations.{parse_metrics}
use price_scout.Web.Pages.Execution.{split_words}
use price_scout.Web.Pages.Components.{points}
use price_scout.Tests.Console.{stored, revision, observation, time, browser}

abbrev condition : PriceCondition
condition = record {
  price_below_minor = some 12990;
  currency = some (codes "USD");
  require_in_stock = true;
  requested_variant = [];
}

abbrev candidate : MonitorRevision
candidate = record (revision (codes "c") 3) { activated_at = none }

abbrev watched : Monitor
watched = record stored {
  condition = some condition;
  revisions = some (revision (codes "a") 1 ∷ candidate ∷ revision (codes "b") 2 ∷ []);
}

submitted-initial_form_example :
    (can_submit ascii exact false (initial_form watched candidate) ≡ true)
    × (some (submitted ascii exact watched candidate (initial_form watched candidate))
        ≡ watched.condition)
submitted-initial_form_example =
    submitted-initial_form ascii exact watched candidate 12990 (codes "USD") true [] (omega arith)
      (omega arith) refl refl

target_met_iff_example : (target_met watched ≡ true) ↔ (
    (price : ℕ) × (limit : ℕ) × (chain (latest_shown watched) (λ (o : Observation). o.price_minor)
      ≡ some price)
    × (chain watched.condition (λ (c : PriceCondition). c.price_below_minor) ≡ some limit)
    × (price < limit)
    × (chain watched.condition (λ (c : PriceCondition). some c.require_in_stock) ≡ some true
        → chain (latest_shown watched) (λ (o : Observation). o.in_stock) ≡ some true))
target_met_iff_example = target_met_iff watched

latest_candidate-Leads_example :
    (((keep is_candidate (or_empty watched.revisions) ≡ []) × (latest_candidate watched ≡ none))
      ⊎ ((r : MonitorRevision) × (latest_candidate watched ≡ some r)
          × Sorting.Leads (λ x. x.generation) r (keep is_candidate (or_empty watched.revisions))))
    × ((r : MonitorRevision) → (is_candidate r ≡ true) ↔ IsPending r)
    × ((r : MonitorRevision)
        → r.validation_state ≡ some (codes "rejected")
        → r.activated_at ≡ none
        → is_candidate r ≡ true)
latest_candidate-Leads_example = latest_candidate-Leads watched

third_revision : latest_candidate watched ≡ some candidate
unfolding latest_candidate sort_by insert_by
third_revision = refl

-- Every address is one of the fixture shop.
abbrev parse_url : Text → Option Url
parse_url t = some (record {
  href = t;
  protocol = codes "http:";
  username = [];
  password = [];
  hostname = codes "fixture";
  port = codes "4173";
  origin = codes "http://fixture:4173";
  hash = [];
})

abbrev form : NewMonitor.Form
form = record {
  url = codes " http://fixture:4173/ ";
  intent = codes "watch it ";
  interval_minutes = 60;
}

submit-cases_example :
    (IsComplete browser parse_url form
      × (submit browser parse_url form
          ≡ sent (and_then monitor_page (create_monitor browser (input form)))))
    ⊎ ((IsComplete browser parse_url form → ⊥)
        × ((submit browser parse_url form ≡ field_error url_message)
            ⊎ (submit browser parse_url form ≡ field_error intent_message)))
submit-cases_example = submit-cases browser parse_url form

metrics_read :
    parse_metrics exact
      (some (codes "# HELP a\nscout_results_total{kind=\"check\"} 12\n\nup 1.50\nbroken\n"))
    ≡ record {
      name = codes "scout_results_total";
      labels = some (codes "{kind=\"check\"}");
      value = some 1200;
    }
      ∷ record { name = codes "up"; labels = none; value = some 150 }
      ∷ []
unfolding parse_metrics split split_from starts_with decimal is_space
metrics_read = refl

words_split : split_words false (codes "browserStartMs") ≡ codes "browser_Start_Ms"
unfolding split_words
words_split = refl

oldest_first :
    map
      (λ p. p.1.id)
      (points time (observation (codes "x") (codes "5") ∷ observation (codes "y") (codes "3") ∷ []))
    ≡ codes "y" ∷ codes "x" ∷ []
unfolding points sort_by insert_by
oldest_first = refl
