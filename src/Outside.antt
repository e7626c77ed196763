-- ===== src/Outside.antt =====
-- What the worker uses and this repository does not implement: pure services of the platform, and
-- calls of the browser driver, the model, the file system and name resolution. A call
-- changes an abstract world, and its answer may be an error that the caller sees as a throw. The
-- state keeps the calls made so far, last first, so that theorems can speak of their order.
pub mod Act
pub mod Keeps
pub mod Makes
pub mod Emits
pub mod Takes
pub mod Returns
use price_scout.Base.{ℕ, Bool, Option, List, none, some}
use price_scout.Base.Text.{Text}
use price_scout.Base.Unicode.{Unicode}
use price_scout.Base.Numbers.{Numbers}
use price_scout.Base.Effects.{Result, Failure}
use price_scout.Contracts.{Action, Currency}

-- `new URL(text)`
pub record Url : Type 0 where
  pub href : Text
  pub protocol : Text
  pub username : Text
  pub password : Text
  pub hostname : Text
  pub port : Text
  pub origin : Text
  pub hash : Text

mutual
  pub data Json : Type 0 where
    null : Json
    bool : Bool → Json
    num : Text → Json  -- with the text that `String(value)` gives
    str : Text → Json
    arr : Elems → Json
    obj : Members → Json

  pub data Elems : Type 0 where
    nil : Elems
    cons : Json → Elems → Elems

  pub data Members : Type 0 where
    end : Members
    member : Text → Json → Members → Members

pub record Platform : Type 1 where
  pub unicode : Unicode
  pub numbers : Numbers
  pub parse_url : Text → Option Url  -- `none` where the constructor throws
  pub without_hash : Url → Url  -- `url.hash = ""`
  pub is_ip : Text → Bool  -- `isIP(text) !== 0`
  pub utf8 : Text → Text  -- the bytes of `Buffer.from(text, "utf8")`
  pub sha256 : Text → Text  -- the digest of bytes, in hexadecimal
  pub parse_json : Text → Option Json  -- `none` where `JSON.parse` throws
  pub resolve_path : Text → Text  -- `path.resolve(text)`
  pub currency_error : Text → Text  -- the schema library's message for an unknown currency

-- The browser of a job, and the one that validates a repair independently.
pub data Session : Type 0 where
  main validator : Session

pub record ActResult : Type 0 where
  pub success : Bool
  pub message : Text
  pub actions : List Action

pub record Snapshot : Type 0 where
  pub formatted_tree : Text
  pub xpath_map : List (Text × Text)

pub record Semantic : Type 0 where
  pub title : Text
  pub current_price_text : Text
  pub currency : Text
  pub availability : Text
  pub sku : Option Text

pub record NodeSelection : Type 0 where
  pub title_node_id : Text
  pub current_price_node_id : Text
  pub availability_node_id : Text
  pub currency_node_id : Option Text
  pub sku_node_id : Option Text
  pub variant_node_ids : List (Text × Text)

pub record IntentRule : Type 0 where
  pub requested_variant : List (Text × Text)
  pub currency : Option Currency

-- What answers the driver's questions to a model: the configured model, or a client that throws.
pub data Client : Type 0 where
  configured_model deterministic_only : Client

pub data Call : Type 0 where
  construct : Session → Bool → Client → Call  -- `new Stagehand({ selfHeal, model or llmClient })`
  dns_lookup : Text → Call
  launch terminate open_page remove_cache : Session → Call
  domain_policy : Session → Text → Call
  act : Session → Action → Call
  goto : Session → Text → Call
  page_url : Session → Call
  count inner_text inner_html input_value : Session → Text → Call
  script_count : Session → Call
  script_text : Session → ℕ → Call
  screenshot snapshot : Session → Call
  make_directory : Text → Call
  write_file : Text → Text → Call
  observe : Session → Text → Call
  extract : Session → Call
  parse_intent : Text → Call
  select_nodes : Snapshot → List (Text × Text) → Call

-- Images and files are texts of bytes.
abbrev pub Answer : Call → Type 0
Answer (dns_lookup host) = List Text
Answer (act s action) = ActResult
Answer (page_url s) = Text
Answer (count s selector) = ℕ
Answer (inner_text s selector) = Text
Answer (inner_html s selector) = Text
Answer (input_value s selector) = Text
Answer (script_count s) = ℕ
Answer (script_text s index) = Option Text
Answer (screenshot s) = Text
Answer (snapshot s) = Snapshot
Answer (observe s instruction) = List Action
Answer (extract s) = Semantic
Answer (parse_intent intent) = IntentRule
Answer (select_nodes snap requested) = NodeSelection
Answer _ = Unit

pub record Outside : Type 1 where
  pub World : Type 0
  pub respond : (c : Call) → World → Result (Answer c) × World
  pub aborted : World → Option Failure  -- the abort signal, with its reason
  pub clock : World → ℕ  -- `performance.now()`, in microseconds
  pub session_id : Session → World → Option Text
  pub self_heal_count : Session → World → ℕ  -- a metric of the driver, 0 where it is no number
