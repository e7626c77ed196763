-- ===== src/Web/Pages/Components.antt =====
-- web/src/components/StatusBadge.tsx and, of web/src/components/PriceChart.tsx, the observations
-- that the chart draws and their range.
use price_scout.Base.{ℕ, ◌-◌, Bool, Option, none, some, List, [], ◌∷◌}
use price_scout.Base.{any, drop, length, ltb, if◌then◌else◌}
use price_scout.Base.Sorting.{sort_by}
use price_scout.Base.Text.{Text, codes, text_eq}
use price_scout.Web.Types.{Observation}
use price_scout.Web.Client.Normalize.{Dates, later}

pub data Tone : Type 0 where
  success warning info neutral danger : Tone

abbrev among : Text → List Text → Bool
among t l = any (text_eq t) l

abbrev pub known_tone : Text → Tone
known_tone status =
    if among status (
      codes "active"
      ∷ codes "healthy"
      ∷ codes "ready"
      ∷ codes "succeeded"
      ∷ codes "verified"
      ∷ codes "live"
      ∷ [])
    then success
    else if among status (codes "awaiting_confirmation" ∷ codes "needs_review" ∷ [])
    then warning
    else if among status
        (codes "compiling" ∷ codes "queued" ∷ codes "running" ∷ codes "connecting" ∷ [])
    then info
    else if among status (
        codes "offline"
        ∷ codes "unhealthy"
        ∷ codes "not_ready"
        ∷ codes "blocked"
        ∷ codes "failed"
        ∷ [])
    then danger
    else neutral

abbrev pub tone : Option Text → Tone
tone none = neutral
tone (some status) = known_tone status

-- An observation with a price, which is the first part.
abbrev pub Point : Type 0
Point = ℕ × Observation

abbrev point : Option ℕ → Observation → List Point → List Point
point none o l = l
point (some n) o l = (n, o) ∷ l

abbrev pub priced : List Observation → List Point
priced [] = []
priced (o ∷ l) = point o.price_minor o (priced l)

-- `values.slice(-n)`
abbrev pub last_of {ℓ} : {A : Type ℓ} → ℕ → List A → List A
last_of n l = drop (length l - n) l

abbrev pub later_point : Dates → Point → Point → Bool
later_point time a b = later (time a.1.observed_at) (time b.1.observed_at)

-- The last thirty observations with a price, the oldest first.
unfoldable pub points : Dates → List Observation → List Point
points time l = last_of 30 (sort_by (later_point time) (priced l))

abbrev least : ℕ → List Point → ℕ
least m [] = m
least m (p ∷ l) = least (if ltb p.0 m then p.0 else m) l

abbrev greatest : ℕ → List Point → ℕ
greatest m [] = m
greatest m (p ∷ l) = greatest (if ltb m p.0 then p.0 else m) l

-- The least and the greatest price, where there are two points at least.
unfoldable pub range : List Point → Option (ℕ × ℕ)
range [] = none
range (p ∷ []) = none
range (p ∷ q ∷ l) = some (least p.0 (q ∷ l), greatest p.0 (q ∷ l))
