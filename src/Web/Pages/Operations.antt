-- ===== src/Web/Pages/Operations.antt =====
-- `parseMetrics` and the cards of web/src/pages/OperationsPage.tsx.
use price_scout.Base.{ℕ, Bool, false, not, ◌&&◌, ◌||◌, Option, none, some, List, [], ◌∷◌, ◌++◌}
use price_scout.Base.{keep, length, drop, all, ◌==◌, if◌then◌else◌}
use price_scout.Base.Numbers.{Numbers}
use price_scout.Base.Text.{
  Text, codes, text_eq, truthy, split, starts_with, show, is_digit, is_upper, is_lower, is_space,
}
use price_scout.Regex.Members.{flat_map}
use price_scout.Web.Types.{Health, Readiness, healthy, unhealthy, ready, not_ready, ServiceStatus}
use price_scout.Web.Format.{labelize}

-- The longest run of units that pass a test, and what is behind it.
unfoldable pub span : (ℕ → Bool) → Text → Text × Text
span p [] = ([], [])
span p (c ∷ s) = let rest = span p s in if p c then (c ∷ rest.0, rest.1) else ([], c ∷ s)

abbrev pub is_name_start : ℕ → Bool
is_name_start c = is_lower c || is_upper c || c == b'_' || c == b':'

abbrev pub is_name_unit : ℕ → Bool
is_name_unit c = is_name_start c || is_digit c

abbrev pub is_number_unit : ℕ → Bool
is_number_unit c = is_digit c || c == b'.' || c == b'e' || c == b'E' || c == b'+'

module _ (numbers : Numbers) where
  open numbers use {Num, number}

  pub record MetricSample : Type 0 where
    pub name : Text
    pub labels : Option Text
    pub value : Num

  abbrev is_numeral : Text → Bool
  is_numeral [] = false
  is_numeral (c ∷ s) =
      if c == b'-' then truthy s && all is_number_unit s else all is_number_unit (c ∷ s)

  -- `\s+(-?[0-9.eE+]+)$`
  abbrev sample_of : Text → Option Text → Text × Text → List MetricSample
  sample_of name labels ([], numeral) = []
  sample_of name labels (c ∷ space, numeral) =
      if is_numeral numeral
      then record { name = name; labels = labels; value = number numeral } ∷ []
      else []

  -- A label set goes to the first closing brace, and is not empty.
  abbrev closed : Text → Text × Text → List MetricSample
  closed name ([], rest) = []
  closed name (c ∷ inside, []) = []
  closed name (c ∷ inside, brace ∷ rest) =
      sample_of name (some (b'{' ∷ c ∷ inside ++ b'}' ∷ [])) (span is_space rest)

  abbrev behind_name : Text → Text → List MetricSample
  behind_name name [] = []
  behind_name name (c ∷ rest) =
      if c == b'{'
      then closed name (span (λ d. not (d == b'}')) rest)
      else sample_of name none (span is_space (c ∷ rest))

  -- The match of the expression in a line. No unit can belong to two neighbouring parts of it, so
  -- the engine has nothing to try again.
  unfoldable pub parse_line : Text → List MetricSample
  unfolding span
  parse_line [] = []
  parse_line (c ∷ s) =
      let (more, rest) = span is_name_unit s in
      if is_name_start c then behind_name (c ∷ more) rest else []

  unfoldable pub parse_metrics : Option Text → List MetricSample
  unfolding parse_line
  parse_metrics none = []
  parse_metrics (some raw) =
      flat_map parse_line
        (keep (λ line. truthy line && not (starts_with line (codes "#"))) (split 10 raw))

  abbrev pub featured_metric_names : List Text
  featured_metric_names =
      codes "scout_execution_results_total"
      ∷ codes "scout_outbox_published_total"
      ∷ codes "scout_alert_deliveries_total"
      ∷ codes "scout_sse_connections"
      ∷ codes "scout_http_requests_total"
      ∷ []

  abbrev samples_of : List MetricSample → Text → List MetricSample
  samples_of parsed name = keep (λ (m : MetricSample). text_eq m.name name) parsed

  pub record Card : Type 0 where
    pub title : Text
    pub samples : List MetricSample  -- the number on the card is their sum
    pub note : Text

  abbrev label_note : Option Text → Text
  label_note none = codes "Current value"
  label_note (some labels) = labels

  abbrev card : Text → List MetricSample → List Card
  card name [] = []
  card name (m ∷ []) =
      record { title = labelize (some (drop 6 name)); samples = m ∷ []; note = label_note m.labels }
      ∷ []
  card name (m ∷ n ∷ more) =
      record {
        title = labelize (some (drop 6 name));
        samples = m ∷ n ∷ more;
        note = show (length (m ∷ n ∷ more)) ++ codes " labeled series";
      }
      ∷ []

  -- The names all begin with "scout_", which the title leaves out.
  abbrev pub featured : List MetricSample → List Card
  featured parsed = flat_map (λ name. card name (samples_of parsed name)) featured_metric_names

abbrev pub waiting : Bool → Text
waiting is_loading = if is_loading then codes "connecting" else codes "unknown"

abbrev pub health_badge : Option ServiceStatus → Bool → Text
health_badge none is_loading = waiting is_loading
health_badge (some s) is_loading = health_text s.health
  where
    health_text : Health → Text
    health_text healthy = codes "healthy"
    health_text unhealthy = codes "unhealthy"
    health_text Health.unknown = codes "unknown"

abbrev pub ready_badge : Option ServiceStatus → Bool → Text
ready_badge none is_loading = waiting is_loading
ready_badge (some s) is_loading = ready_text s.ready
  where
    ready_text : Readiness → Text
    ready_text ready = codes "ready"
    ready_text not_ready = codes "not_ready"
    ready_text Readiness.unknown = codes "unknown"
