-- ===== src/Handler/Outward.antt =====
-- What a job does outside the worker, whatever its kind and however it ends.
use price_scout.Base.{Bool, true, false, ◌≡◌, refl, sym, Option, none, some}
use price_scout.Base.{[], if◌then◌else◌, ℕ}
use price_scout.Base.Text.{codes}
use mathlib.Core.Path.{subst}
use price_scout.Base.Unicode.{Unicode}
use price_scout.Base.Effects.{Result, ok, err, ok-injective}
use price_scout.Base.Effects
use price_scout.Contracts.{Action, Kind, compile, check, repair, ExecutionInput}
use price_scout.Config.{Config}
use price_scout.Outside.{
  Platform, Outside, Url, main, Call, act, construct, deterministic_only, parse_intent,
  select_nodes, observe, extract,
}
use price_scout.Outside.Act.{St, lift, ◌>>=◌}
use price_scout.Outside.Makes.{
  Grows, Grows-trans, same, Makes, Makes-pure, Makes-catch, Makes-bind, Makes-still, Makes-lift,
}
use price_scout.Safety.Action.Laws.{IsSafeAction}
use price_scout.Safety.Replay.Calls.{Allows, is_quiet}
use price_scout.Browser.{public_action, client_of}
use price_scout.Compiler.Calls.{asks_model, compile_monitor-Makes}
use price_scout.Handler.{
  evidence_unless, finish_failed, terminal_error, require_revision, report_failure, closing_job,
  execute_job, attempt_job, run_kind, heals, job_options,
}
use price_scout.Handler.Replay.{closing}
use price_scout.Outside.Emits.{Emits, Emits-Makes, Emits-catch}
use price_scout.Handler.Calls.{run_check-Makes, timed-Makes}
use price_scout.Handler.Calls.Browser.{capture-Makes}
use price_scout.Handler.Calls.Sessions.{closing-Grows}
use price_scout.Handler.Calls.Jobs.{Starts, attempt_job-Emits, run_kind-Emits}

-- What a job of a kind may call. An interaction is with an action that passed `assertSafeAction`,
-- and the driver that may replace an action by itself is that of a repair; other calls are free.
abbrev pub IsSafeCall : Unicode → Kind → Call → Type 0
IsSafeCall u kind (act run b) = (a : Action) × IsSafeAction u a × (b ≡ public_action a)
IsSafeCall u kind (construct run self_heal client) =
    self_heal ≡ true → (kind ≡ repair) × (run ≡ main)
IsSafeCall u kind _ = Unit

-- What a job without a model may call: nothing that asks a model, and no driver that may do so when
-- it performs an action: one that replaces stale actions by itself, or that has a model at hand.
abbrev pub IsModelFree : Call → Type 0
IsModelFree (construct run self_heal client) = (self_heal ≡ false) × (client ≡ deterministic_only)
IsModelFree c = asks_model c ≡ false

safe_quiet : (u : Unicode) (kind : Kind) (c : Call) → is_quiet c ≡ true → IsSafeCall u kind c
safe_quiet u kind (act run a) h = cc
safe_quiet u kind (construct run self_heal client) h = absurd cc
safe_quiet u kind _ h = tt

safe-allows : (u : Unicode) (kind : Kind) → Allows u (IsSafeCall u kind)
safe-allows u kind = record { quiet = safe_quiet u kind; safe = λ run a h. (a, h, refl) }

safe_model : (u : Unicode) (kind : Kind) (c : Call) → asks_model c ≡ true → IsSafeCall u kind c
safe_model u kind (act run a) h = cc
safe_model u kind (construct run self_heal client) h = absurd cc
safe_model u kind _ h = tt

heals_repair : (kind : Kind) → heals kind ≡ true → kind ≡ repair
heals_repair compile h = absurd cc
heals_repair check h = absurd cc
heals_repair repair h = refl

safe-Starts : (u : Unicode) (kind : Kind) → Starts (IsSafeCall u kind) kind
safe-Starts u kind = record {
  launches = λ run. tt;
  own = λ scripted h. (heals_repair kind h, refl);
  other = λ h. absurd cc;
}

free_quiet : (c : Call) → is_quiet c ≡ true → IsModelFree c
free_quiet (construct run self_heal client) h = absurd cc
free_quiet (parse_intent t) h = absurd cc
free_quiet (select_nodes snap requested) h = absurd cc
free_quiet (observe run t) h = absurd cc
free_quiet (extract run) h = absurd cc
free_quiet _ h = refl

free-allows : (u : Unicode) → Allows u IsModelFree
free-allows u = record { quiet = free_quiet; safe = λ run a h. refl }

free-Starts : (kind : Kind) → kind ≡ check → Starts IsModelFree kind
free-Starts compile h = absurd cc
free-Starts check h = record { launches = λ run. refl; own = needless; other = (refl, refl) }
  where
    needless :
        (scripted : Bool)
        → ((job_options check scripted).self_heal ≡ false)
          × (client_of (job_options check scripted).needs_model ≡ deterministic_only)
    needless true = (refl, refl)
    needless false = (refl, refl)
free-Starts repair h = absurd cc

module _ (p : Platform) {o : Outside} {P : Call → Type 0} (allows : Allows p.unicode P)
    (config : Config) (input : ExecutionInput) where
  unless-Makes :
      (b : Bool) (x : Option Effects.Failure) → Makes P {o = o} (evidence_unless p config input b x)
  unless-Makes true none =
      Makes-catch _ _
        (timed-Makes (codes "failureEvidence") _
          (capture-Makes p allows main config.artifact_dir input.id))
        (λ e. Makes-pure [])
  unless-Makes true (some e) = Makes-pure []
  unless-Makes false x = Makes-pure []

  pub report-Makes :
      (started : ℕ) (e : Effects.Failure)
      → Makes P {o = o} (report_failure p config input started e)
  unfolding report_failure
  report-Makes started e = record {
    at = λ s. (reporting s).at s;
    still = record { at = λ s. (reporting s).still.at s };
  }
    where
      reporting :
          (s : St o)
          → Makes P {o = o} (
              evidence_unless p config input s.has_page (o.aborted s.world)
              >>= finish_failed p config input started (terminal_error (o.aborted s.world) e))
      reporting s =
          Makes-bind (evidence_unless p config input s.has_page (o.aborted s.world))
            (finish_failed p config input started (terminal_error (o.aborted s.world) e))
            (unless-Makes s.has_page (o.aborted s.world)) (λ l. Makes-still _ (λ t. (refl, refl)))

  closed-Grows : (s : St o) → Grows P s.calls (closing_job p config input s).calls
  closed-Grows s = if-Grows s.has_run
    where
      if-Grows : (b : Bool) → Grows P s.calls (if b then closing main s else s).calls
      if-Grows true = closing-Grows p allows main s
      if-Grows false = same

  module _ (starts : Starts P input.kind)
      (kinds : (started : ℕ) (scripted : Bool) (target : Url)
        → Emits P {o = o} (run_kind p config input started scripted target input.kind)) where
    execute_job-Emits : Emits P {o = o} (execute_job p config input)
    unfolding execute_job
    execute_job-Emits = record {
      at = λ s.
          Grows-trans
            ((Emits-catch (attempt_job p config input (o.clock s.world))
                (report_failure p config input (o.clock s.world))
                (attempt_job-Emits p allows config input starts kinds (o.clock s.world))
                (λ e. Emits-Makes (report-Makes (o.clock s.world) e))).at
              s)
            (closed-Grows _);
    }

-- A job, of any kind and however it ends, tells the browser driver to perform no other actions than
-- those that passed `assertSafeAction`, and makes no driver that may replace a stale action by
-- another one itself, except for the own browser of a repair. What that driver performs in the
-- place of an action that it was told to perform is not part of this statement.
pub execute_job-IsSafe :
    (p : Platform) (o : Outside) (config : Config) (input : ExecutionInput) (s : St o)
    → Grows (IsSafeCall p.unicode input.kind) s.calls (execute_job p config input s).1.calls
execute_job-IsSafe p o config input s =
    let allows = safe-allows p.unicode input.kind in
    let starts = safe-Starts p.unicode input.kind in
    (execute_job-Emits p allows config input starts (λ started scripted target.
        run_kind-Emits p allows config input starts target
          (compile_monitor-Makes p main allows config (safe_model p.unicode input.kind) input
            target)
          started scripted input.kind)).at
      s

-- A check asks no model anything: it makes no call that asks one, and its driver has no model at
-- hand and does not replace actions by itself.
pub check-IsModelFree :
    (p : Platform) (o : Outside) (config : Config) (input : ExecutionInput) (s : St o)
    → input.kind ≡ check
    → Grows IsModelFree s.calls (execute_job p config input s).1.calls
unfolding run_kind
check-IsModelFree p o config input s is_check =
    (execute_job-Emits p (free-allows p.unicode) config input (free-Starts input.kind is_check)
        (λ started scripted target.
          subst (λ k. Emits IsModelFree {o = o} (run_kind p config input started scripted target k))
            (sym is_check)
            (Emits-Makes (
              Makes-bind (lift (require_revision input)) _ (Makes-lift _) (λ revision.
                run_check-Makes p (free-allows p.unicode) config input started revision
                  target))))).at
      s
