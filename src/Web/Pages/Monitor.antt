-- ===== src/Web/Pages/Monitor.antt =====
-- `MonitorDetailPage` of web/src/pages/MonitorDetailPage.tsx: what the page of a monitor shows, and
-- what its buttons ask for.
pub mod Laws
use price_scout.Base.{
  ℕ, Bool, true, false, not, ◌&&◌, ◌||◌, Option, none, some, List, [], ◌∷◌, ◌++◌, map,
}
use price_scout.Base.{ltb, find, head, chain, or_else, if◌then◌else◌}
use price_scout.Base.Sorting.{sort_by}
use price_scout.Base.Text.{Text, codes, text_eq, show}
use price_scout.Browser.{present}
use price_scout.Web.Types.{
  Monitor, MonitorRevision, MonitorStatus, compiling, awaiting_confirmation, active, needs_review,
  paused, Observation, RevisionSource, repair,
}
use price_scout.Web.Client.Normalize.{older, or_empty, is_named}

abbrev pub is_text : Text → Option Text → Bool
is_text t none = false
is_text t (some s) = text_eq s t

abbrev pub is_candidate : MonitorRevision → Bool
is_candidate r = not (present r.activated_at) || is_text (codes "needs_review") r.validation_state

-- `latestCandidate`: the revision that the panel for a confirmation is drawn for.
unfoldable pub latest_candidate : Monitor → Option MonitorRevision
latest_candidate m = find is_candidate (sort_by older (or_empty m.revisions))

abbrev one_or_none {ℓ} : {A : Type ℓ} → Option A → List A
one_or_none none = []
one_or_none (some a) = a ∷ []

abbrev some_or {ℓ} : {A : Type ℓ} → Option A → A → A
some_or none d = d
some_or (some a) d = a

abbrev pub shown_observations : Monitor → List Observation
shown_observations m = some_or m.observations (one_or_none m.latest_observation)

abbrev pub latest_shown : Monitor → Option Observation
latest_shown m = or_else m.latest_observation (head (shown_observations m))

abbrev pub shown_currency : Monitor → Text
shown_currency m =
    some_or
      (or_else (chain (latest_shown m) (λ o. o.currency)) (chain m.condition (λ c. c.currency)))
      (codes "USD")

abbrev pub target : Monitor → Option ℕ
target m = chain m.condition (λ c. c.price_below_minor)

-- A value that is `undefined` counts as false.
abbrev pub is_true : Option Bool → Bool
is_true none = false
is_true (some b) = b

abbrev pub is_below : Option ℕ → Option ℕ → Bool
is_below (some price) (some limit) = ltb price limit
is_below _ _ = false

unfoldable pub target_met : Monitor → Bool
target_met m =
    is_below (chain (latest_shown m) (λ o. o.price_minor)) (target m)
    && (not (is_true (chain m.condition (λ c. some c.require_in_stock)))
        || is_true (chain (latest_shown m) (λ o. o.in_stock)))

abbrev is_paused : MonitorStatus → Bool
is_paused paused = true
is_paused _ = false

-- The text of the action that the button asks for, and of the message behind it.
abbrev pub toggle : MonitorStatus → Text × Text
toggle status =
    if is_paused status
    then (codes "resume", codes "Monitor resumed.")
    else (codes "pause", codes "Monitor paused.")

abbrev is_unconfirmed : MonitorStatus → Bool
is_unconfirmed compiling = true
is_unconfirmed awaiting_confirmation = true
is_unconfirmed _ = false

abbrev is_active : MonitorStatus → Bool
is_active active = true
is_active _ = false

-- The buttons are not disabled.
abbrev pub can_toggle : Bool → MonitorStatus → Bool
can_toggle is_pending status = not (is_pending || is_unconfirmed status)

abbrev pub can_check : Bool → MonitorStatus → Bool
can_check is_pending status = not (is_pending || not (is_active status))

abbrev asks_for_review : MonitorStatus → Bool
asks_for_review awaiting_confirmation = true
asks_for_review needs_review = true
asks_for_review _ = false

-- The revision that the panel for a confirmation is shown for.
abbrev pub confirmation_panel : Monitor → Option MonitorRevision
confirmation_panel m = if asks_for_review m.status then latest_candidate m else none

abbrev is_repair : Option RevisionSource → Bool
is_repair (some repair) = true
is_repair _ = false

pub record RevisionRow : Type 0 where
  pub generation : ℕ
  pub title : Text
  pub date : Text
  pub status : Option Text
  pub can_review : Bool

abbrev pub revision_status : Monitor → MonitorRevision → Option Text
revision_status m r =
    if is_named m.current_revision_id r.id
    then some (codes "active")
    else if present r.activated_at
    then some (codes "superseded")
    else r.validation_state

abbrev pub revision_row : Monitor → MonitorRevision → RevisionRow
revision_row m r = record {
  generation = r.generation;
  title = if is_repair r.source then codes "Self-healed plan" else codes "Initial compilation";
  date = some_or r.activated_at r.created_at;
  status = revision_status m r;
  can_review = not (present r.activated_at);
}

-- The plan revisions, the newest first.
abbrev pub revision_rows : Monitor → List RevisionRow
revision_rows m = map (revision_row m) (sort_by older (or_empty m.revisions))
