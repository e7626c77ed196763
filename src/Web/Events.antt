-- ===== src/Web/Events.antt =====
-- web/src/live-events.tsx: the stream of events that the console keeps open. The browser's event
-- sources and timers are numbered as they are made. A source that is closed calls no handler, and
-- a timer that is cleared does not fire.
pub mod Laws
use price_scout.Base.{ℕ, suc, Bool, true, false, not, Option, none, some, List, [], ◌∷◌, ◌++◌}
use price_scout.Base.{◌≡◌, ◌==◌, any, keep, take, or_else, chain, if◌then◌else◌}
use price_scout.Base.Text.{Text, codes, truthy}
use mathlib.Core.Option
use price_scout.Outside.{Json, null, str, arr, obj, Members, end, member}
use price_scout.Extract.Product.{coalesce}
use price_scout.Api.Input.{at}
use price_scout.Web.Types.{SystemEvent}
use price_scout.Web.Queries.{QueryKey, monitors, monitor, execution}

pub record Message : Type 0 where
  pub type : Text
  pub text : Text  -- its property `data`

-- What the browser gives: `JSON.parse`, a value read at the type that the code declares for it, a
-- fresh UUID and the present date.
pub record Decoding : Type 0 where
  pub parse : Text → Option Json
  pub as_text : Json → Text
  pub uuid : Text
  pub now : Text

abbrev pub object_or_none : Option Json → Option Json
object_or_none (some (arr vs)) = some (arr vs)
object_or_none (some (obj ms)) = some (obj ms)
object_or_none _ = none

abbrev pub string_or_none : Option Json → Option Text
string_or_none (some (str s)) = some s
string_or_none _ = none

abbrev pub or_text : Option Text → Text → Text
or_text none right = right
or_text (some t) right = t

module _ (d : Decoding) where
  -- `value ?? undefined`, at its declared type
  abbrev declared : Option Json → Option Text
  declared v = Option.map d.as_text (coalesce v none)

  abbrev pub decoded : Message → Json → SystemEvent
  decoded message parsed =
      let details = object_or_none (at (some parsed) (codes "data")) in
      record {
        id = or_text (declared (at (some parsed) (codes "id"))) d.uuid;
        type = or_text (declared (at (some parsed) (codes "type"))) message.type;
        occurred_at =
            or_text
              (or_else (declared (at (some parsed) (codes "occurredAt")))
                (declared (at (some parsed) (codes "at"))))
              d.now;
        monitor_id =
            or_else (declared (at (some parsed) (codes "monitorId")))
              (string_or_none (at details (codes "monitorId")));
        execution_id =
            or_else (declared (at (some parsed) (codes "executionId")))
              (string_or_none (at details (codes "executionId")));
        message =
            or_else (declared (at (some parsed) (codes "message")))
              (string_or_none (at details (codes "message")));
        details = details;
      }

  -- The `catch` block: the text is no JSON, or `null`, which has no properties.
  abbrev pub undecoded : Message → SystemEvent
  undecoded message = record {
    id = d.uuid;
    type = if truthy message.type then message.type else codes "system.event";
    occurred_at = d.now;
    monitor_id = none;
    execution_id = none;
    message = some message.text;
    details = none;
  }

  abbrev decode_parsed : Message → Option Json → SystemEvent
  decode_parsed message none = undecoded message
  decode_parsed message (some null) = undecoded message
  decode_parsed message (some parsed) = decoded message parsed

  unfoldable pub decode_event : Message → SystemEvent
  decode_event message = decode_parsed message (d.parse message.text)

pub data Connection : Type 0 where
  connecting live offline : Connection

-- `opened` and `pending` are the sources that are open and the timers that are set; `source` and
-- `timer` what the variables hold; `made` and `set` how many there have been.
pub record Provider : Type 0 where
  pub events : List SystemEvent
  pub connection : Connection
  pub invalidated : List QueryKey
  pub is_stopped : Bool
  pub source : Option ℕ
  pub opened : List ℕ
  pub made : ℕ
  pub timer : Option ℕ
  pub pending : List ℕ
  pub set : ℕ

abbrev pub without : Option ℕ → List ℕ → List ℕ
without none l = l
without (some n) l = keep (λ m. not (m == n)) l

abbrev pub connect : Provider → Provider
connect p = if p.is_stopped then p else record p {
  connection = connecting;
  source = some p.made;
  opened = p.made ∷ p.opened;
  made = suc p.made;
}

-- The keys that an event invalidates, the last one first.
abbrev key_of : (Text → QueryKey) → Option Text → List QueryKey
key_of f none = []
key_of f (some id) = if truthy id then f id ∷ [] else []

abbrev pub keys_of : SystemEvent → List QueryKey
keys_of e = key_of execution e.execution_id ++ (key_of monitor e.monitor_id ++ monitors ∷ [])

abbrev pub on_open : Provider → Provider
on_open p = record p { connection = live }

abbrev pub on_message : SystemEvent → Provider → Provider
on_message event p = record p {
  events = take 100 (event ∷ p.events);
  invalidated = keys_of event ++ p.invalidated;
}

abbrev pub on_error : Provider → Provider
on_error p = record p {
  connection = offline;
  opened = without p.source p.opened;
  timer = some p.set;
  pending = p.set ∷ p.pending;
  set = suc p.set;
}

abbrev pub on_timer : ℕ → Provider → Provider
on_timer t p = connect (record p { pending = without (some t) p.pending })

-- The function that the effect returns.
abbrev pub unmount : Provider → Provider
unmount p = record p {
  is_stopped = true;
  opened = without p.source p.opened;
  pending = without p.timer p.pending;
}

abbrev pub unmounted : Provider
unmounted = record {
  events = [];
  connection = connecting;
  invalidated = [];
  is_stopped = false;
  source = none;
  opened = [];
  made = 0;
  timer = none;
  pending = [];
  set = 1;
}

abbrev pub mounted : Provider
mounted = connect unmounted

abbrev pub is_among : ℕ → List ℕ → Bool
is_among n l = any (λ m. m == n) l

-- The provider in a browser with event sources, and the events that it handled, the last one first.
pub data Run : List SystemEvent → Provider → Type 0 where
  mount : Run [] mounted
  opens :
      {l : List SystemEvent} {p : Provider}
      → Run l p
      → (n : ℕ) → is_among n p.opened ≡ true
      → Run l (on_open p)
  receives :
      {l : List SystemEvent} {p : Provider}
      → Run l p
      → (n : ℕ) → is_among n p.opened ≡ true
      → (event : SystemEvent) → Run (event ∷ l) (on_message event p)
  fails :
      {l : List SystemEvent} {p : Provider}
      → Run l p
      → (n : ℕ) → is_among n p.opened ≡ true
      → Run l (on_error p)
  fires :
      {l : List SystemEvent} {p : Provider}
      → Run l p
      → (t : ℕ) → is_among t p.pending ≡ true
      → Run l (on_timer t p)
  leaves :
      {l : List SystemEvent} {p : Provider} → Run l p → p.is_stopped ≡ false → Run l (unmount p)
