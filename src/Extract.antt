-- ===== src/Extract.antt =====
-- worker/src/extract.ts: reading an observation from the rendered page by a plan's strategies.
pub mod Product
pub mod Words
pub mod Laws
pub mod Fallback
pub mod Calls
use price_scout.Base.{ℕ, zero, suc, ◌+◌, ◌≤◌, Bool, true, false, not, Option, none, some, List, []}
use price_scout.Base.{◌∷◌, ◌++◌, length, min, ltb, ◌==◌, if◌then◌else◌}
use price_scout.Base.Text.{Text, codes, truthy, trim, join}
use price_scout.Base.Effects.{Failure, ok, err, plain, msg}
use price_scout.Contracts.{
  Strategy, xpath_text, input_value, json_ld, JsonLdField, Currency, Extractors, Plan, Observation,
}
use price_scout.Contracts.Entries.{insert}
use price_scout.Outside.{
  Platform, Outside, Session, Call, Json, Members, inner_text, script_count, script_text,
}
use price_scout.Outside.Act.{St, Act, call, pure, throw, lift, catch, ◌>>=◌, ◌>>◌}
use price_scout.Extract.Product.{find_product, json_ld_field}
use price_scout.Extract.Words.{parse_availability, normalize_currency}
use price_scout.Validation.Price.{parse_price}
use price_scout.Validation.Title.{fingerprint}
use price_scout.Validation.Identity.{currency_code}
use price_scout.Safety.Replay.{message_of}

abbrev or_nothing : Option Text → Text
or_nothing none = []
or_nothing (some t) = t

-- A script that is neither empty nor too long, if it parses and describes a product.
abbrev product_of_json : Option Json → Option Members
product_of_json none = none
product_of_json (some j) = find_product j

-- What one strategy gives: a value that is not blank, or a message if it threw.
pub data Reading : Type 0 where
  value : Text → Reading
  blank : Reading
  threw : Text → Reading

abbrev pub of_text : Text → Reading
of_text t = if truthy (trim t) then value (trim t) else blank

-- The attribute that a strategy reads, if it has one that is not empty.
abbrev pub attribute_of : Strategy → Option Text
attribute_of (xpath_text selector (some a)) = if truthy a then some a else none
attribute_of (input_value selector (some a)) = if truthy a then some a else none
attribute_of _ = none

abbrev pub optional_list : Option (List Strategy) → List Strategy
optional_list none = []
optional_list (some l) = l

abbrev put_reading : Text → Reading → List (Text × Text) → List (Text × Text)
put_reading attribute (value t) selected = insert attribute t selected
put_reading attribute _ selected = selected

-- `currencyRaw ?? parsedPrice.currency ?? plan.expectedCurrency`, as the text to normalise
abbrev pub currency_text : Option Text → Option Currency → Currency → Text
currency_text (some raw) found expected = raw
currency_text none (some c) expected = currency_code c
currency_text none none expected = currency_code expected

module _ {o : Outside} where
  -- What a round of the loop of `readFirst` does with a reading.
  abbrev pub choose_reading : Reading → Act o Text → (Text → Act o Text) → Act o Text
  choose_reading (value t) on_blank on_error = pure t
  choose_reading blank on_blank on_error = on_blank
  choose_reading (threw m) on_blank on_error = on_error m

module _ (p : Platform) where
  unfoldable pub product_of_script : Text → Option Members
  product_of_script raw =
      if not (truthy raw)
      then none
      else if ltb 1000000 (length raw)
      then none
      else product_of_json (p.parse_json raw)

  module _ {o : Outside} (run : Session) where
    -- The loop over the scripts: `left` are still to be read, from `index` on.
    unfoldable pub scan_scripts : ℕ → ℕ → Act o (Option Members)
    scan_scripts zero index = pure none
    scan_scripts (suc left) index = do
      raw ← catch (call (script_text run index)) (λ _. pure (some []))
      (elim (product_of_script (or_nothing raw)) [
        | some product ↦ pure (some product)
        | none ↦ scan_scripts left (index + 1)
      ])

    unfoldable pub read_product_json_ld : Act o (Option Members)
    unfolding scan_scripts
    read_product_json_ld = do count ← call (script_count run); scan_scripts (min count 20) 0

    -- `jsonLd ??= await readProductJsonLd(page)`
    abbrev pub load_from : Option Members → Act o (Option Members)
    load_from (some product) = pure (some product)
    load_from none = do
      found ← read_product_json_ld
      (λ t. (ok found, record t { json_ld = found }))

    unfoldable pub load_json_ld : Act o (Option Members)
    load_json_ld s = load_from s.json_ld s

    unfoldable pub read_strategy : Strategy → Act o Text
    read_strategy (xpath_text selector attribute) = call (inner_text run selector)
    read_strategy (input_value selector attribute) = call (Call.input_value run selector)
    read_strategy (json_ld field) = do
      product ← load_json_ld
      (elim product [
        | none ↦ throw (plain (msg "No Product JSON-LD was found"))
        | some members ↦ lift (json_ld_field members field)
      ])

    unfoldable pub attempt : Strategy → Act o Reading
    attempt strategy =
        catch (do text ← read_strategy strategy; pure (of_text text))
          (λ error. pure (threw (message_of error)))

    -- The loop of `readFirst`; `errors` are the messages so far, in order.
    unfoldable pub read_first_from : Text → List Text → List Strategy → Act o Text
    read_first_from field errors [] =
        throw (
          plain
            (msg "No " ++ (field ++ (msg " extractor succeeded: " ++ join (codes "; ") errors))))
    read_first_from field errors (strategy ∷ rest) = do
      reading ← attempt strategy
      choose_reading reading (read_first_from field errors rest)
          (λ m. read_first_from field (errors ++ m ∷ []) rest)

    -- A list that is missing or empty gives no value.
    unfoldable pub read_first : Text → List Strategy → Act o (Option Text)
    read_first field [] = pure none
    read_first field (strategy ∷ rest) = do
      t ← read_first_from field [] (strategy ∷ rest)
      pure (some t)

    abbrev pub required : Option Text → Act o Text
    required none = throw (plain (msg "Required extraction returned no value"))
    required (some t) = pure t

    -- The loop over the strategies for the selected variant; one that throws is passed over.
    unfoldable pub read_variants : List Strategy → List (Text × Text) → Act o (List (Text × Text))
    read_variants [] selected = pure selected
    read_variants (strategy ∷ rest) selected = elim (attribute_of strategy) [
      | none ↦ read_variants rest selected
      | some attribute ↦ do
        reading ← attempt strategy
        read_variants rest (put_reading attribute reading selected)
    ]

    -- What is computed from the texts that were read.
    unfoldable pub interpret : Plan → Text → Option Text → Act o (ℕ × Currency)
    interpret plan raw_price currency_raw = do
      parsed ← lift (parse_price p raw_price)
      currency ← lift (
          normalize_currency p.unicode (currency_text currency_raw parsed.1 plan.expected_currency))
      pure (parsed.0, currency)

    -- What follows the declaration of `jsonLd`. The three first readings run one after the other.
    unfoldable pub read_observation : Plan → Act o Observation
    read_observation plan = do
      title_read ← read_first (codes "title") plan.extractors.title
      price_read ← read_first (codes "price") plan.extractors.price
      availability_read ← read_first (codes "availability") plan.extractors.availability
      title ← required title_read
      raw_price ← required price_read
      availability ← required availability_read
      sku ← read_first (codes "sku") (optional_list plan.extractors.sku)
      currency_raw ← read_first (codes "currency") (optional_list plan.extractors.currency)
      price ← interpret plan raw_price currency_raw
      selected ← read_variants plan.extractors.selected_variant []
      in_stock ← lift (parse_availability p.unicode availability)
      pure (record {
        title = title;
        sku = sku;
        price_minor = price.0;
        currency = price.1;
        in_stock = in_stock;
        availability_raw = availability;
        selected_variant = selected;
        raw_price = raw_price;
        identity_fingerprint = fingerprint p title sku;
      })

    unfoldable pub extract_observation : Plan → Act o Observation
    extract_observation plan = do (λ s. (ok tt, record s { json_ld = none })); read_observation plan
