-- ===== src/Web/Client/Review.antt =====
-- `getReview` of web/src/api/client.ts: a revision of a monitor beside the one before it.
pub mod Laws
use price_scout.Base.{ℕ, Bool, true, false, not, ◌&&◌, Option, none, some, List, [], ◌∷◌, ◌++◌}
use price_scout.Base.{ltb, ◌==◌, find, keep, head, length, or_else, chain, if◌then◌else◌}
use price_scout.Base.Sorting.{sort_by}
use price_scout.Base.Text.{Text, codes, text_eq, show}
use mathlib.Core.Option
use price_scout.Web.Types.{
  Monitor, MonitorRevision, RevisionSource, compile, repair, RevisionPlan, PlanIdentity,
  ExecutionSummary, ExecutionState, Execution, Artifact, Change, Review,
}
use price_scout.Web.Client.Request.{ClientError, api, Answer, answered, refused, ◌>>=◌}
use price_scout.Web.Client.Normalize.{Dates, later, older, or_empty}
use price_scout.Web.Client.Operations.{Browser, get_monitor, get_execution}

-- `left === right`
abbrev pub same_text : Option Text → Option Text → Bool
same_text none none = true
same_text (some s) (some t) = text_eq s t
same_text _ _ = false

abbrev pub same_number : Option ℕ → Option ℕ → Bool
same_number none none = true
same_number (some m) (some n) = m == n
same_number _ _ = false

abbrev pub title_of : Option MonitorRevision → Option Text
title_of r = chain (chain (chain r (λ r. r.plan)) (λ p. p.identity)) (λ i. i.title)

abbrev pub sku_of : Option MonitorRevision → Option Text
sku_of r = chain (chain (chain r (λ r. r.plan)) (λ p. p.identity)) (λ i. i.sku)

abbrev pub currency_of : Option MonitorRevision → Option Text
currency_of r = chain (chain r (λ r. r.plan)) (λ p. p.expected_currency)

abbrev pub steps_of : Option MonitorRevision → Option ℕ
steps_of r = chain (chain (chain r (λ r. r.plan)) (λ p. p.preparation_steps)) (λ l. some (length l))

abbrev pub count_text : Option ℕ → Text
count_text none = show 0
count_text (some n) = show n

abbrev pub change_unless : Bool → Text → Option Text → Option Text → List Change
change_unless same field before after =
    if same then [] else record { field = field; before = before; after = after } ∷ []

unfoldable pub changes_between : Option MonitorRevision → Option MonitorRevision → List Change
changes_between p r =
    change_unless (same_text (title_of p) (title_of r)) (codes "product title") (title_of p)
      (title_of r)
    ++ (change_unless (same_text (sku_of p) (sku_of r)) (codes "sku") (sku_of p) (sku_of r)
        ++ (change_unless (same_text (currency_of p) (currency_of r)) (codes "currency")
              (currency_of p) (currency_of r)
            ++ change_unless (same_number (steps_of p) (steps_of r)) (codes "preparation actions")
                (some (count_text (steps_of p))) (some (count_text (steps_of r)))))

abbrev pub previous_of : MonitorRevision → List MonitorRevision → Option MonitorRevision
previous_of r l = head (sort_by older (keep (λ x. ltb x.generation r.generation) l))

abbrev is_source : Text → Option RevisionSource → Bool
is_source kind none = false
is_source kind (some compile) = text_eq kind (codes "compile")
is_source kind (some repair) = text_eq kind (codes "repair")

abbrev has_succeeded : ExecutionState → Bool
has_succeeded ExecutionState.succeeded = true
has_succeeded _ = false

abbrev value_of : {A : Type 0} → Answer A → Option A
value_of (answered a) = some a
value_of (refused e) = none

module _ (b : Browser) where
  abbrev finished : ExecutionSummary → Option ℕ
  finished e = b.time (date (e.completed_at))
    where
      date : Option Text → Text
      date none = e.created_at
      date (some t) = t

  abbrev candidate_of : MonitorRevision → List ExecutionSummary → Option ExecutionSummary
  candidate_of r l = head (
      sort_by (λ x y. later (finished y) (finished x))
        (keep (λ e. is_source e.kind r.source && has_succeeded e.state) l))

  -- The execution is asked for if there is one; an error leaves it out.
  abbrev evidence_of : Option ExecutionSummary → Option (List Artifact)
  evidence_of candidate =
      chain (chain candidate (λ e. value_of (get_execution b e.id))) (λ e. e.artifacts)

  abbrev review_of : Monitor → MonitorRevision → Review
  review_of m r =
      let previous = previous_of r (or_empty m.revisions) in
      record {
        monitor = m;
        revision = r;
        evidence = evidence_of (candidate_of r (or_empty m.executions));
        comparison =
            some
              (record { previous = previous; changes = some (changes_between previous (some r)) });
      }

  abbrev review_or_refuse : Monitor → Option MonitorRevision → Answer Review
  review_or_refuse m none = refused (api (codes "Revision was not found on this monitor") 404 none)
  review_or_refuse m (some r) = answered (review_of m r)

  unfoldable pub get_review : Text → Text → Answer Review
  get_review monitor_id revision_id = do
    m ← get_monitor b monitor_id
    review_or_refuse m (find (λ r. text_eq r.id revision_id) (or_empty m.revisions))
