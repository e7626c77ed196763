-- ===== src/Compiler/Live.antt =====
-- `compileLive`, `parseIntent` and `selectSnapshotNodes` of worker/src/compiler.ts. The model's
-- answers have passed the schema that the source gives with each question; of the prompts only
-- what varies is kept.
pub mod Nodes
use price_scout.Base.{
  ℕ, suc, ◌+◌, Bool, true, false, not, ◌||◌, ◌&&◌, Option, none, some, List, [], ◌∷◌,
}
use price_scout.Base.{◌++◌, head, length, ◌==◌, if◌then◌else◌}
use price_scout.Base.Text.{Text, codes, truthy, trim, split, join, text_eq}
use price_scout.Base.Effects.{Result, ok, err, plain, msg}
use price_scout.Contracts
use price_scout.Contracts.{
  Action, Strategy, Step, Observation, Condition, Currency, usd, cad, eur, gbp, aud, ExecutionInput,
  Source,
}
use price_scout.Config.{Config}
use price_scout.Outside.{
  Platform, Outside, Url, Session, Snapshot, Semantic, NodeSelection, IntentRule, parse_intent,
  select_nodes, observe, extract, snapshot,
}
use price_scout.Outside.Act.{Act, call, pure, throw, lift, ◌>>=◌, ◌>>◌}
use price_scout.Safety.Action.{assert_safe_action}
use price_scout.Validation.Title.{fingerprint, dissimilar}
use price_scout.Validation.Price.{parse_price}
use price_scout.Validation.Identity.{currency_code}
use price_scout.Policy.{Inputs, build_live_extractors}
use price_scout.Browser.{present}
use price_scout.Extract.{extract_observation}
use price_scout.Compiler.Verify.{Outcome, replay_steps}
use price_scout.Compiler.Fixture.Plan.{requested_of, currency_of, variant_step}
use price_scout.Compiler.Fixture.{confirm_plan}
use Nodes.{Chosen, choose_nodes, check_selection, optional_strategy}

-- `const [provider, ...modelParts] = MODEL_NAME.split("/")` gives both parts, and the key is set.
abbrev named : List Text → Bool
named [] = false
named (provider ∷ parts) = truthy provider && truthy (join (codes "/") parts)

abbrev pub has_model : Config → Bool
has_model config = named (split b'/' config.model_name) && present config.model_api_key

-- `supportedCurrencySchema.parse(text)`
unfoldable pub parse_currency : Platform → Text → Result Currency
parse_currency p t =
    if text_eq t (codes "USD")
    then ok usd
    else if text_eq t (codes "CAD")
    then ok cad
    else if text_eq t (codes "EUR")
    then ok eur
    else if text_eq t (codes "GBP")
    then ok gbp
    else if text_eq t (codes "AUD")
    then ok aud
    else err (plain (p.currency_error t))

-- `condition?.currency ?? intentCurrency ?? semantic.currency…`
abbrev pub expected_currency : Platform → Option Currency → Option Currency → Text → Result Currency
expected_currency p (some c) intent semantic = ok c
expected_currency p none (some c) semantic = ok c
expected_currency p none none semantic = parse_currency p semantic

abbrev pub upper_trim : Platform → Text → Text
upper_trim p t = p.unicode.upper (trim t)

-- The variants to select, the currency of the intent, and the model calls made for them.
pub record Request : Type 0 where
  pub requested : List (Text × Text)
  pub intent_currency : Option Currency
  pub calls : ℕ

abbrev plan_inputs : List (Text × Text) → Chosen → Option Strategy → Option Strategy → Inputs
plan_inputs requested nodes sku code = record {
  requested_variant = requested;
  title = nodes.title;
  sku = sku;
  price = nodes.price;
  currency = code;
  availability = nodes.availability;
  selected_variant = nodes.selected_variant;
}

unfoldable pub live_plan :
    Platform → Url → List (Text × Text) → List Step → Inputs → Currency → Contracts.Plan
live_plan p target requested steps inputs currency = record {
  canonical_url = target.href;
  identity = record {
    title = codes "pending identity";
    brand = none;
    sku = none;
    fingerprint = fingerprint p (codes "pending identity") none;
    requested_variant = requested;
  };
  preparation_steps = steps;
  extractors = build_live_extractors inputs;
  expected_currency = currency;
}

abbrev pub instruction : Text → Text → Text
instruction attribute value =
    msg "Select the product "
    ++ (attribute
        ++ (msg " option exactly \""
            ++ (value ++ msg "\". Do not add to cart, buy, or leave the product page.")))

module _ (p : Platform) {o : Outside} (config : Config) (run : Session) where
  abbrev pub require_model : Act o (Unit {0})
  require_model =
      if has_model config
      then pure tt
      else throw (plain (msg "MODEL_NAME must be provider/model and MODEL_API_KEY must be set"))

  unfoldable pub parse_request : ExecutionInput → Act o Request
  parse_request input = elim (requested_of input.condition) [
    | (v ∷ vs) ↦ pure (record { requested = v ∷ vs; intent_currency = none; calls = 0 })
    | [] ↦ do
      require_model
      rule ← call (parse_intent input.intent)
      pure (record {
        requested = rule.requested_variant;
        intent_currency = rule.currency;
        calls = 1;
      })
  ]

  -- The loop that asks the driver for one action per variant.
  unfoldable pub observe_steps : List (Text × Text) → Act o (List Step)
  observe_steps [] = pure []
  observe_steps ((attribute, value) ∷ rest) = do
    candidates ← call (observe run (instruction attribute value))
    (elim (head candidates) [
      | none ↦
          throw (plain (msg "No safe action found for " ++ (attribute ++ (codes "=" ++ value))))
      | some action ↦ do
        lift (assert_safe_action p.unicode action)
        steps ← observe_steps rest
        pure (variant_step action ∷ steps)
    ])

  unfoldable pub select_snapshot_nodes : Snapshot → List (Text × Text) → Act o NodeSelection
  select_snapshot_nodes snap requested = do
    require_model
    selection ← call (select_nodes snap requested)
    lift (check_selection snap selection)
    pure selection

  abbrev unless : Bool → Text → Act o (Unit {0})
  unless b message = if b then pure tt else throw (plain message)

  -- The three tests of the snapshot extraction against the driver's semantic one.
  unfoldable pub cross_check : Semantic → Observation → Act o (Unit {0})
  cross_check semantic observation = do
    unless
        (not
          (truthy (trim semantic.title) && dissimilar p.unicode semantic.title observation.title))
        (msg "Snapshot extraction conflicts with Stagehand semantic title extraction")
    unless (text_eq (upper_trim p semantic.currency) (currency_code observation.currency))
        (msg "Snapshot extraction conflicts with Stagehand semantic currency extraction")
    parsed ← lift (parse_price p semantic.current_price_text)
    unless (parsed.0 == observation.price_minor)
        (msg "Snapshot extraction conflicts with Stagehand semantic price extraction")

  -- From the snapshot on.
  unfoldable pub compile_snapshot : ExecutionInput → Url → Request → List Step → Act o Outcome
  compile_snapshot input target request steps = do
    snap ← call (snapshot run)
    selection ← select_snapshot_nodes snap request.requested
    nodes ← lift (choose_nodes snap selection request.requested)
    semantic ← call (extract run)
    currency ← lift (
        expected_currency p (currency_of input.condition) request.intent_currency
          (upper_trim p semantic.currency))
    sku ← lift (optional_strategy snap selection.sku_node_id)
    code ← lift (optional_strategy snap selection.currency_node_id)
    let inputs = plan_inputs request.requested nodes sku code
    let provisional = live_plan p target request.requested steps inputs currency
    observation ← extract_observation p run provisional
    cross_check semantic observation
    confirm_plan p run provisional observation request.requested target
        (request.calls + length request.requested + 2) Source.stagehand

  unfoldable pub compile_live : ExecutionInput → Url → Act o Outcome
  compile_live input target = do
    request ← parse_request input
    steps ← observe_steps request.requested
    replay_steps p run steps target
    compile_snapshot input target request steps
