-- ===== src/Browser.antt =====
-- worker/src/browser.ts: `BrowserRun`. Its mutable fields are `RunFlags` of the state. Run on its
-- own it awaits one call after the other; Browser/Lifecycle.antt interleaves `init` with `close`.
pub mod Lifecycle
use price_scout.Base.{ℕ, Bool, true, false, not, ◌&&◌, Option, none, some, List, any, ◌==◌}
use price_scout.Base.{if◌then◌else◌, take, ◌||◌}
use price_scout.Base.Text.{Text, truthy, replace_units, is_lower, is_upper, is_digit}
use price_scout.Base.Effects.{ok, err, plain, msg}
use price_scout.Contracts.{Action}
use price_scout.Config.{Config}
use price_scout.Outside.{
  Outside, Session, main, validator, Client, configured_model, deterministic_only, construct,
  launch, terminate, open_page, remove_cache, domain_policy, act,
}
pub use price_scout.Outside.Act.{RunFlags}
use price_scout.Outside.Act.{St, Act, call, pure, throw, catch, ◌>>=◌, ◌>>◌}

-- `Boolean(value)` of an optional text
abbrev pub present : Option Text → Bool
present none = false
present (some t) = truthy t

-- `BrowserRunOptions`; the execution's id only names the cache.
pub record RunOptions : Type 0 where
  pub self_heal : Bool
  pub needs_model : Bool

-- `model ? { model } : { llmClient: new DeterministicOnlyClient() }`
abbrev pub client_of : Bool → Client
client_of true = configured_model
client_of false = deterministic_only

-- The constructor of `BrowserRun`, with the driver that it makes.
unfoldable pub new_run : {o : Outside} → Config → Session → RunOptions → Act o (Unit {0})
new_run config run options =
    if options.needs_model && not (present config.model_api_key)
    then throw (plain (msg "MODEL_API_KEY is required for live compile and repair jobs"))
    else call (construct run options.self_heal (client_of options.needs_model))

-- `safeSegment`: the characters that are kept as they are
abbrev pub is_segment_unit : ℕ → Bool
is_segment_unit c = is_lower c || is_upper c || is_digit c || c == b'_' || c == b'-'

unfoldable pub safe_segment : Text → Text
safe_segment value = take 80 (replace_units (λ c. not (is_segment_unit c)) b'_' value)

-- `result.message || "Cached action failed"`
abbrev failure_text : Text → Text
failure_text message = if truthy message then message else msg "Cached action failed"

-- An empty method is left out.
abbrev pub public_action : Action → Action
public_action a = record a { method = if present a.method then a.method else none }

module _ {o : Outside} where
  abbrev pub flags : Session → St o → RunFlags
  flags main s = s.main_run
  flags validator s = s.validator_run

  abbrev pub set_flags : Session → RunFlags → St o → St o
  set_flags main f s = record s { main_run = f }
  set_flags validator f s = record s { validator_run = f }

  abbrev pub change : Session → (RunFlags → RunFlags) → Act o (Unit {0})
  change run f s = (ok tt, set_flags run (f (flags run s)) s)

  abbrev pub is_closing : Session → Act o Bool
  is_closing run s = (ok (flags run s).closing, s)

  -- `….catch(() => undefined)`
  abbrev pub quietly : Act o (Unit {0}) → Act o (Unit {0})
  quietly m = catch m (λ _. pure tt)

  unfoldable pub initialize : Session → Text → Act o (Unit {0})
  initialize run allowed_host = do
    call (launch run)
    closing ← is_closing run
    if closing
        then quietly (call (terminate run))
          >> throw (plain (msg "Browser run was aborted during initialization"))
        else (if any (λ c. c == b'.') allowed_host
            then call (domain_policy run allowed_host)
            else pure tt)
          >> call (open_page run)

  unfoldable pub init : Session → Text → Act o (Unit {0})
  unfolding initialize
  init run allowed_host = do
    closing ← is_closing run
    if closing
        then throw (plain (msg "Browser run is already closing"))
        else change run (λ f. record f { initialized = true }) >> initialize run allowed_host

  -- `closeOnce`; the promise of `init` has settled when nothing else runs.
  unfoldable pub close_once : Session → Act o (Unit {0})
  close_once run = do
    change run (λ f. record f { closing = true })
    initialized ← (λ s. (ok (flags run s).initialized, s))
    if initialized
        then quietly (call (terminate run)) >> quietly (call (terminate run))
        else pure tt
    quietly (call (remove_cache run))

  -- A second call of `close` returns the first one's promise.
  unfoldable pub close : Session → Act o (Unit {0})
  unfolding close_once
  close run = do
    closed ← (λ s. (ok (flags run s).closed, s))
    if closed then pure tt else close_once run >> change run (λ f. record f { closed = true })

  unfoldable pub replay : Session → Action → Act o (List Action)
  replay run action = do
    result ← call (act run (public_action action))
    if result.success then pure result.actions else throw (plain (failure_text result.message))
