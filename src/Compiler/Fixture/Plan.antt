-- ===== src/Compiler/Fixture/Plan.antt =====
-- `compileFixture` of worker/src/compiler.ts, up to its page work: the plan for the fixture shop.
use price_scout.Base.{Bool, ◌&&◌, Option, none, some, List, [], ◌∷◌, ◌++◌, all, map}
use price_scout.Base.{if◌then◌else◌}
use price_scout.Base.Text.{Text, codes, truthy, is_space}
use price_scout.Base.Unicode.{Unicode}
use price_scout.Base.Effects.{Result, ok, err, plain, msg, ◌>>=◌, ◌>>◌}
use price_scout.Contracts.{
  Action, Strategy, xpath_text, Step, Purpose, Plan, Condition, Currency, usd, ExecutionInput,
}
use price_scout.Outside.{Platform, Url}
use price_scout.Regex.{Regex, test, exactly, seq, alt, star, unit}
use price_scout.Regex.Phrases.{whole_words}
use price_scout.Safety.Action.{assert_safe_action}
use price_scout.Validation.Title.{fingerprint}
use price_scout.Browser.{is_segment_unit, present}

-- The test is `/^[a-zA-Z0-9_-]+$/.test(value)`.
unfoldable pub xpath_literal_part : Text → Result Text
xpath_literal_part value =
    if truthy value && all is_segment_unit value
    then ok value
    else err (plain (msg "Fixture variant contains unsupported characters"))

abbrev pub requested_of : Option Condition → List (Text × Text)
requested_of none = []
requested_of (some c) = c.requested_variant

-- `condition?.currency`
abbrev pub currency_of : Option Condition → Option Currency
currency_of none = none
currency_of (some c) = c.currency

abbrev spaces : Regex
spaces = star (unit is_space)

abbrev two_terabytes : Regex
two_terabytes =
    alt (seq (exactly (codes "2")) (seq spaces (exactly (codes "tb"))))
      (seq (exactly (codes "2048")) (seq spaces (exactly (codes "gb"))))

abbrev pub variants_of_intent : Text → List (Text × Text)
variants_of_intent intent =
    (
      codes "color",
      if test (whole_words (exactly (codes "silver"))) intent
          then codes "silver"
          else codes "black",
    )
    ∷ (
      codes "capacity",
      if test (whole_words two_terabytes) intent then codes "2tb" else codes "1tb",
    )
    ∷ []

unfoldable pub fixture_variants : Unicode → ExecutionInput → List (Text × Text)
fixture_variants u input = elim (requested_of input.condition) [
  | [] ↦ variants_of_intent (u.lower input.intent)
  | (v ∷ vs) ↦ v ∷ vs
]

unfoldable pub variant_selector : Bool → Text → Text → Text
variant_selector v1 attribute part =
    if v1
    then codes "xpath=//*[@id='legacy-" ++ (attribute ++ (codes "-" ++ (part ++ codes "']")))
    else codes "xpath=//*[@data-variant-group='"
      ++ (attribute ++ (codes "']//*[@data-value='" ++ (part ++ codes "']")))

abbrev select_action : Bool → Text → Text → Text → Action
select_action v1 attribute value part = record {
  selector = variant_selector v1 attribute part;
  description = codes "Select " ++ (value ++ (codes " for " ++ attribute));
  method = some (codes "click");
  arguments = some [];
}

abbrev pub variant_step : Action → Step
variant_step action = record {
  purpose = Purpose.variant;
  instruction = action.description;
  action = action;
}

unfoldable pub fixture_steps : Unicode → Bool → List (Text × Text) → Result (List Step)
fixture_steps u v1 [] = ok []
fixture_steps u v1 ((attribute, value) ∷ rest) = do
  part ← xpath_literal_part value
  let action = select_action v1 attribute value part
  assert_safe_action u action
  steps ← fixture_steps u v1 rest
  ok (variant_step action ∷ steps)

-- `path(v1Selector, v2Selector, attribute)`
abbrev path : Bool → Text → Text → Option Text → Strategy
path v1 first second attribute =
    xpath_text (codes "xpath=" ++ (if v1 then first else second))
      (if present attribute then attribute else none)

abbrev input_value : Bool → Text → Strategy
input_value v1 attribute =
    if v1
    then path v1 (codes "//*[@id='selected-" ++ (attribute ++ codes "']")) [] (some attribute)
    else path v1 [] (codes "//*[@data-selected-variant='" ++ (attribute ++ codes "']"))
        (some attribute)

abbrev pub or_usd : Option Currency → Currency
or_usd none = usd
or_usd (some c) = c

unfoldable pub fixture_plan :
    Platform → Bool → ExecutionInput → Url → List (Text × Text) → List Step → Plan
fixture_plan p v1 input target requested steps = record {
  canonical_url = target.href;
  identity = record {
    title = codes "Atlas Studio Headphones";
    brand = none;
    sku = some (codes "ASH-100");
    fingerprint = fingerprint p (codes "Atlas Studio Headphones") (some (codes "ASH-100"));
    requested_variant = requested;
  };
  preparation_steps = steps;
  extractors = record {
    title =
        path v1 (codes "//*[@id='product-title']") (codes "//*[@data-ui='product-name']") none ∷ [];
    sku =
        some (
          path v1 (codes "//*[@id='product-sku']") (codes "//*[@data-ui='product-sku']") none ∷ []);
    price =
        path v1 (codes "//*[@id='current-price']") (codes "//*[@data-ui='offer-price']") none ∷ [];
    currency = some (
        path v1 (codes "//*[@id='price-currency']") (codes "//*[@data-ui='price-currency']") none
        ∷ []);
    availability =
        path v1 (codes "//*[@id='stock-status']") (codes "//*[@data-ui='inventory-status']") none
        ∷ [];
    selected_variant = map (λ entry. input_value v1 entry.0) requested;
  };
  expected_currency = or_usd (currency_of input.condition);
}
