-- ===== src/Web/Client/Normalize/Laws.antt =====
-- What a normalised monitor shows as its latest observation and its current generation.
use price_scout.Base.{ℕ, ◌≡◌, refl, ◌⊎◌, inl, inr, Option, none, some, List, []}
use price_scout.Base.{ltb, find, keep, All, head, or_else, Option-cases}
use price_scout.Base.Sorting.{sort_by, sort_by-Leads, sort_by_key-Leads, Leads}
use price_scout.Base.Text.{Text}
use price_scout.Browser.{present}
use price_scout.Web.Types.{Observation, MonitorRevision}
use price_scout.Web.Client.Normalize.{
  Dates, later, MonitorAnswer, monitor_of, observations_of, revisions_of, or_empty, older, is_named,
  current_generation, observed_before, normalize_monitor,
}

-- A date's time; only used of valid dates.
abbrev pub moment : Option ℕ → ℕ
moment none = 0
moment (some t) = t

later-Falls :
    (a b : Option ℕ) (s t : ℕ) → a ≡ some s → b ≡ some t → later b a ≡ ltb (moment a) (moment b)
later-Falls a b s t e f = rw (e, f) refl

module _ (time : Dates) where
  abbrev pub IsDated : Observation → Type 0
  IsDated o = (t : ℕ) × (time o.observed_at ≡ some t)

  abbrev pub observed : Observation → ℕ
  observed o = moment (time o.observed_at)

  -- The latest observation is the first of those with the latest date, if there are any.
  abbrev pub IsLatest : Option Observation → Option Observation → List Observation → Type 0
  IsLatest stored latest observations =
      ((observations ≡ []) × (latest ≡ stored))
      ⊎ ((o : Observation) × (latest ≡ some o) × Leads observed o observations)

  latest_lem :
      (stored : Option Observation) (l : List Observation)
      → All IsDated l
      → IsLatest stored (or_else (head (sort_by (observed_before time) l)) stored) l
  latest_lem stored l dated =
      elim (sort_by-Leads observed IsDated (observed_before time)
        (λ x y (s, e) (t, f). later-Falls (time x.observed_at) (time y.observed_at) s t e f) l
        dated) [
          | inl (e, sorted) ↦ inl (e, rw sorted refl)
          | inr (o, rest, sorted, _, leads) ↦ inr (o, rw sorted refl, leads)
        ]

-- The generation of the revision that the monitor names, and without one the greatest of those that
-- were activated.
abbrev pub IsCurrent : Option Text → List MonitorRevision → Option ℕ → Type 0
IsCurrent current revisions shown =
    ((r : MonitorRevision) × (find (λ x. is_named current x.id) revisions ≡ some r)
      × (shown ≡ some r.generation))
    ⊎ (((find (λ x. is_named current x.id) revisions ≡ none)
          × (keep (λ x. present x.activated_at) revisions ≡ [])
          × (shown ≡ none))
        ⊎ ((r : MonitorRevision) × (find (λ x. is_named current x.id) revisions ≡ none)
            × (shown ≡ some r.generation)
            × Leads (λ x. x.generation) r (keep (λ x. present x.activated_at) revisions)))

current_generation-IsCurrent :
    (current : Option Text) (l : List MonitorRevision)
    → IsCurrent current l (current_generation current l)
unfolding current_generation
current_generation-IsCurrent current l = elim (Option-cases (find (λ x. is_named current x.id) l)) [
  | inr (r, e) ↦ inl (r, e, rw e refl)
  | inl e ↦
      elim (sort_by_key-Leads (λ x. x.generation) older (λ x y. refl)
        (keep (λ x. present x.activated_at) l)) [
          | inl (f, sorted) ↦ inr (inl (e, f, rw (e, sorted) refl))
          | inr (r, rest, sorted, leads) ↦ inr (inr (r, e, rw (e, sorted) refl, leads))
        ]
]

-- Where the observations have valid dates, a normalised monitor shows as its latest observation the
-- first of those with the latest date, and the one that the answer stores if there are none. Its
-- current generation is that of the revision that it names, or else the greatest of the revisions
-- that were activated.
pub normalize_monitor-shows :
    (time : Dates) (raw : MonitorAnswer)
    → All (IsDated time) (or_empty (observations_of raw))
    → IsLatest time
        (monitor_of raw).latest_observation
        (normalize_monitor time raw).latest_observation
        (or_empty (observations_of raw))
      × IsCurrent
          (monitor_of raw).current_revision_id
          (or_empty (revisions_of raw))
          (normalize_monitor time raw).current_generation
unfolding normalize_monitor
normalize_monitor-shows time raw dated = (
  latest_lem time (monitor_of raw).latest_observation (or_empty (observations_of raw)) dated,
  current_generation-IsCurrent (monitor_of raw).current_revision_id (or_empty (revisions_of raw)),
)
