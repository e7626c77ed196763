-- ===== src/Browser/Lifecycle.antt =====
-- `init` and `close` of `BrowserRun` in worker/src/browser.ts, as they run beside each other: each
-- call of the driver ends in a step of its own. A run is initialised once, as its callers do. A
-- launch that fails may still leave a browser behind; the driver's `close` leaves none.
pub mod Laws
use price_scout.Base.{ℕ, zero, suc, Bool, true, false, ◌≢◌}

-- Where `init` is: not called, in the driver's `init`, back from it, in the driver's `close` as
-- the run is closing, in the calls that follow, or settled.
pub data InitPhase : Type 0 where
  idle launching launched abandoning opening settled : InitPhase

-- Where `closeOnce` is: not called, in its first `close` of the driver, waiting for `initPromise`,
-- in its second `close`, in the removal of the cache, or settled.
pub data ClosePhase : Type 0 where
  unclosed first waiting second removing closed : ClosePhase

-- `initialized` holds behind `idle`, `closing` behind `unclosed`; `live` tells whether there is a
-- browser.
pub record Run : Type 0 where
  pub init : InitPhase
  pub close : ClosePhase
  pub live : Bool

abbrev pub fresh : Run
fresh = record { init = idle; close = unclosed; live = false }

abbrev pub at : InitPhase → ClosePhase → Bool → Run
at i c b = record { init = i; close = c; live = b }

pub data Step : Run → Run → Type 0 where
  begin_init : {b : Bool} → Step (at idle unclosed b) (at launching unclosed b)
  launch_done : {c : ClosePhase} {b : Bool} → Step (at launching c b) (at launched c true)
  launch_failed : {c : ClosePhase} {b left : Bool} → Step (at launching c b) (at settled c left)
  go_on : {b : Bool} → Step (at launched unclosed b) (at opening unclosed b)
  abandon : {c : ClosePhase} {b : Bool} → c ≢ unclosed → Step (at launched c b) (at abandoning c b)
  abandoned : {c : ClosePhase} {b : Bool} → Step (at abandoning c b) (at settled c false)
  opened : {c : ClosePhase} {b : Bool} → Step (at opening c b) (at settled c b)
  begin_close_idle : {b : Bool} → Step (at idle unclosed b) (at idle removing b)
  begin_close : {i : InitPhase} {b : Bool} → i ≢ idle → Step (at i unclosed b) (at i first b)
  first_closed : {i : InitPhase} {b : Bool} → Step (at i first b) (at i waiting false)
  init_settled : {b : Bool} → Step (at settled waiting b) (at settled second b)
  second_closed : {i : InitPhase} {b : Bool} → Step (at i second b) (at i removing false)
  removed : {i : InitPhase} {b : Bool} → Step (at i removing b) (at i closed b)

-- So many steps lead from a fresh run to this one.
pub data After : ℕ → Run → Type 0 where
  none_yet : After zero fresh
  then_step : {n : ℕ} {s t : Run} → After n s → Step s t → After (suc n) t
