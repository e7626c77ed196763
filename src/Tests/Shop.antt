-- ===== src/Tests/Shop.antt =====
-- A platform on ASCII text with exact decimals, and a world that holds one page of the fixture shop
-- and nothing that changes.
use price_scout.Base.{ℕ, suc, ◌++◌, true, false, Option, none, some, List, [], ◌∷◌, if◌then◌else◌}
use price_scout.Base.Text.{Text, codes, contains}
use price_scout.Base.Unicode.{ascii}
use price_scout.Base.Numbers.{exact}
use price_scout.Base.Effects.{Result, ok}
use price_scout.Contracts.{
  Action, Strategy, xpath_text, Plan, Observation, ExecutionInput, Kind, queued, CompilerMode, usd,
  Provider, Purpose,
}
use price_scout.Config.{Config}
use price_scout.Outside.{
  Url, Platform, Outside, Call, Answer, Snapshot, Semantic, NodeSelection, dns_lookup, act,
  page_url, count, inner_text, inner_html, script_count, script_text, screenshot, observe, extract,
  parse_intent, select_nodes, construct, launch, terminate, open_page, remove_cache, domain_policy,
  goto, make_directory, write_file,
}
use price_scout.Outside.Act.{St, RunFlags}

abbrev pub shop_url : Text → Url
shop_url t = record {
  href = t;
  protocol = codes "http:";
  username = [];
  password = [];
  hostname = codes "fixture";
  port = codes "4173";
  origin = codes "http://fixture:4173";
  hash = [];
}

abbrev pub platform : Platform
platform = record {
  unicode = ascii;
  numbers = exact;
  parse_url = λ t. some (shop_url t);
  without_hash = λ u. u;
  is_ip = λ t. false;
  utf8 = λ t. t;
  sha256 = λ t. t;
  parse_json = λ t. none;
  resolve_path = λ t. t;
  currency_error = λ t. t;
}

-- The page's text at a selector.
abbrev pub text_at : Text → Text
text_at t =
    if contains t (codes "offer-price")
    then codes "$5.25"
    else if contains t (codes "inventory")
    then codes "In stock"
    else if contains t (codes "price-currency")
    then codes "USD"
    else if contains t (codes "sku")
    then codes "ASH-100"
    else if contains t (codes "selected-variant")
    then codes "black"
    else codes "Atlas Studio Headphones"

abbrev select_black : Action
select_black = record {
  selector = codes "xpath=//*[@data-variant-group='color']//*[@data-value='black']";
  description = codes "Select black for color";
  method = some (codes "click");
  arguments = some [];
}

abbrev pub click : Action
click = select_black

abbrev snap : Snapshot
snap = record { formatted_tree = codes "tree"; xpath_map = [] }

abbrev meaning : Semantic
meaning = record {
  title = codes "Atlas Studio Headphones";
  current_price_text = codes "$5.25";
  currency = codes "USD";
  availability = codes "In stock";
  sku = none;
}

abbrev selection : NodeSelection
selection = record {
  title_node_id = [];
  current_price_node_id = [];
  availability_node_id = [];
  currency_node_id = none;
  sku_node_id = none;
  variant_node_ids = [];
}

abbrev answer : (c : Call) → Result (Answer c)
answer (dns_lookup host) = ok (codes "10.0.0.7" ∷ [])
answer (act s a) = ok (record { success = true; message = []; actions = a ∷ [] })
answer (page_url s) = ok (codes "http://fixture:4173/product")
answer (count s t) = ok (if contains t (codes "legacy") then 0 else 1)
answer (inner_text s t) = ok (text_at t)
answer (inner_html s t) = ok (codes "<b>")
answer (Call.input_value s t) = ok (codes "black")
answer (script_count s) = ok 0
answer (script_text s i) = ok none
answer (screenshot s) = ok (codes "png")
answer (Call.snapshot s) = ok snap
answer (observe s t) = ok (select_black ∷ [])
answer (extract s) = ok meaning
answer (parse_intent t) = ok (record { requested_variant = []; currency = none })
answer (select_nodes sn l) = ok selection
answer (construct s heal client) = ok tt
answer (launch s) = ok tt
answer (terminate s) = ok tt
answer (open_page s) = ok tt
answer (remove_cache s) = ok tt
answer (domain_policy s t) = ok tt
answer (goto s t) = ok tt
answer (make_directory t) = ok tt
answer (write_file t b) = ok tt

-- The world counts the calls.
abbrev pub shop : Outside
shop = record {
  World = ℕ;
  respond = λ c w. (answer c, suc w);
  aborted = λ w. none;
  clock = λ w. w;
  session_id = λ s w. none;
  self_heal_count = λ s w. 0;
}

abbrev fresh_run : RunFlags
fresh_run = record { initialized = false; closing = false; closed = false }

abbrev pub start : St shop
start = record {
  world = 0;
  calls = [];
  timings = [];
  main_run = fresh_run;
  validator_run = fresh_run;
  json_ld = none;
  has_run = false;
  has_page = false;
}

abbrev pub config : Config
config = record {
  worker_token = codes "token";
  internal_api_url = codes "http://api:8080";
  worker_queue = codes "workers";
  worker_max_in_flight = 4;
  inference_mode = CompilerMode.auto;
  browser_provider = Provider.local;
  model_name = codes "openai/gpt-5-mini";
  model_api_key = none;
  artifact_dir = codes "/data/artifacts";
  fixture_origin = codes "http://fixture:4173";
  allowed_private_hosts = codes "fixture" ∷ [];
}

abbrev at : Text → Option Text → Strategy
at name attribute = xpath_text (codes "xpath=//*[@data-ui='" ++ (name ++ codes "']")) attribute

abbrev black : List (Text × Text)
black = (codes "color", codes "black") ∷ []

abbrev pub plan : Plan
plan = record {
  canonical_url = codes "http://fixture:4173/product";
  identity = record {
    title = codes "Atlas Studio Headphones";
    brand = none;
    sku = some (codes "ASH-100");
    fingerprint = [];
    requested_variant = black;
  };
  preparation_steps =
      record { purpose = Purpose.variant; instruction = []; action = select_black } ∷ [];
  extractors = record {
    title = at (codes "product-name") none ∷ [];
    price = at (codes "offer-price") none ∷ [];
    currency = some (at (codes "price-currency") none ∷ []);
    availability = at (codes "inventory-status") none ∷ [];
    selected_variant = at (codes "selected-variant") (some (codes "color")) ∷ [];
    sku = some (at (codes "product-sku") none ∷ []);
  };
  expected_currency = usd;
}

abbrev pub observed : Observation
observed = record {
  title = codes "Atlas Studio Headphones";
  sku = some (codes "ASH-100");
  price_minor = 525;
  currency = usd;
  in_stock = true;
  availability_raw = codes "In stock";
  selected_variant = black;
  raw_price = codes "$5.25";
  identity_fingerprint = codes "atlas studio headphones" ++ (0 ∷ codes "ash 100");
}

abbrev pub job : Kind → ExecutionInput
job kind = record {
  id = codes "run/1";
  kind = kind;
  state = queued;
  attempt = 1;
  failed_generation = none;
  monitor_id = codes "monitor";
  url = codes "http://fixture:4173/product";
  intent = codes "watch the black headphones";
  condition = some (record {
    max_price_minor = none;
    price_below_minor = none;
    currency = none;
    require_in_stock = false;
    requested_variant = black;
  });
  revision = some (record { id = none; generation = 3; plan = plan });
  compiler_mode = CompilerMode.scripted;
}
