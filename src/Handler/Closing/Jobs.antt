-- ===== src/Handler/Closing/Jobs.antt =====
-- However a job ends, it leaves no browser open.
use price_scout.Base.{ℕ, Bool, true, false, ◌≡◌, refl, inl, inr}
use price_scout.Base.{if◌then◌else◌}
use price_scout.Base.Text.{codes}
use price_scout.Contracts.{ExecutionInput, Kind, compile, check, repair, Revision}
use price_scout.Config.{Config}
use price_scout.Outside.{Platform, Outside, Url, Session, main, validator}
use price_scout.Outside.Act.{St, Act, lift, ◌>>=◌}
use price_scout.Outside.Makes.{Makes, Makes-lift, Makes-bind, Makes-still}
use price_scout.Outside.Takes.{Takes, Takes-weaken, Takes-bind, Takes-catch}
use price_scout.Browser.{new_run, init}
use price_scout.Compiler.{compile_monitor}
use price_scout.Compiler.Calls.{compile_monitor-Makes}
use price_scout.Handler.{
  timed, repaired, set_run, set_page, evidence, run_kind, run_repair, attempt_job, report_failure,
  closing_job, execute_job, scripted_job, job_options,
}
use price_scout.Handler.Replay.{throw_if_aborted, closing}
use price_scout.Handler.Calls.{
  aborted-Makes, timed-Makes, new_run-Makes, evidence-Makes, finish-Makes, run_check-Makes,
  run_compile-Makes, outcome-Makes,
}
use price_scout.Handler.Calls.Browser.{validate-Makes}
use price_scout.Handler.Calls.Sessions.{closing-Grows}
use price_scout.Handler.Outward.{report-Makes}
use price_scout.Handler.Closing.States.{
  StartsNone, none-Allows, model-StartsNone, OverAt, BeforeAt, RunAt, At, OverAt-stable,
  BeforeAt-stable, RunAt-stable, Takes-Makes,
}
use price_scout.Handler.Closing.{is_open, Grows-closed, Spares-Allows, close_closes}
use price_scout.Handler.Closing.Opening.{timed-Takes, init_main-Takes, fresh-Takes}

module _ (p : Platform) {o : Outside} where
  module _ (config : Config) (input : ExecutionInput) where
    compiles :
        (target : Url) → Makes StartsNone {o = o} (compile_monitor p config main input target)
    compiles = compile_monitor-Makes p main (none-Allows p.unicode) config model-StartsNone input

    run_repair-Takes :
        (started : ℕ) (scripted : Bool) (revision : Revision) (target : Url)
        → Takes {o = o}
            (At BeforeAt)
            (At OverAt)
            (run_repair p config input started scripted revision target)
    unfolding run_repair
    run_repair-Takes started scripted revision target =
        Takes-bind _ _
          (Takes-Makes BeforeAt BeforeAt-stable (
            outcome-Makes p (none-Allows p.unicode) config input target (compiles target) scripted
              revision))
          (λ s h. h.0)
          (λ outcome.
            Takes-bind _ _
              (timed-Takes BeforeAt OverAt (codes "freshValidation") _
                (fresh-Takes p config outcome.plan target))
              (λ s h. h)
              (λ fresh. Takes-Makes OverAt OverAt-stable (
                Makes-bind (lift _) _ (Makes-lift _) (λ _.
                  Makes-bind (evidence p config input) _
                    (evidence-Makes p (none-Allows p.unicode) config input)
                    (λ l.
                      finish-Makes p (none-Allows p.unicode) config input started l
                        outcome.model_call_count (repaired revision outcome))))))

    kept_over : {A : Type 0} {m : Act o A} → Makes StartsNone m → Takes (At BeforeAt) (At OverAt) m
    kept_over km = Takes-weaken (Takes-Makes BeforeAt BeforeAt-stable km) (λ s h. h.0)

    run_kind-Takes :
        (started : ℕ) (scripted : Bool) (target : Url) (kind : Kind)
        → Takes {o = o}
            (At BeforeAt)
            (At OverAt)
            (run_kind p config input started scripted target kind)
    unfolding run_kind
    run_kind-Takes started scripted target compile =
        kept_over (
          run_compile-Makes p (none-Allows p.unicode) config input target (compiles target) started)
    run_kind-Takes started scripted target check = kept_over (
        Makes-bind (lift _) _ (Makes-lift _) (λ revision.
          run_check-Makes p (none-Allows p.unicode) config input started revision target))
    run_kind-Takes started scripted target repair =
        Takes-bind (lift _) _ (Takes-Makes BeforeAt BeforeAt-stable (Makes-lift _)) (λ s h. h.0)
          (λ revision. run_repair-Takes started scripted revision target)

    set_run-Takes : Takes {o = o} (At BeforeAt) (At RunAt) set_run
    set_run-Takes = record { at = λ s h. with_run s h }
      where
        with_run : (s : St o) → At BeforeAt s → At RunAt (set_run s).1
        with_run s (((c, inl e), other), unclosed) = ((((c, inl e), other), unclosed), refl)
        with_run s (((c, inr (has, e)), other), unclosed) =
            ((((c, inr (refl, e)), other), unclosed), refl)

    before : {A : Type 0} {m : Act o A} → Makes StartsNone m → Takes (At BeforeAt) (At BeforeAt) m
    before = Takes-Makes BeforeAt BeforeAt-stable

    over : (s : St o) → At BeforeAt s → At OverAt s
    over s h = h.0

    -- The job once its browser object is there.
    opened-Takes :
        (started : ℕ) (scripted : Bool) (target : Url)
        → Takes {o = o} (At RunAt) (At OverAt) (
            throw_if_aborted >>= λ _.
            (timed (codes "browserInit") (init main target.hostname) >>= λ _.
            (set_page >>= λ _.
            (throw_if_aborted >>= λ _.
            run_kind p config input started scripted target input.kind))))
    opened-Takes started scripted target =
        Takes-bind throw_if_aborted _ (Takes-Makes RunAt RunAt-stable aborted-Makes) (λ s h. h.0.0)
          (λ _.
            Takes-bind _ _
              (timed-Takes RunAt BeforeAt (codes "browserInit") _
                (init_main-Takes p target.hostname))
              over
              (λ _.
                Takes-bind set_page _ (before (Makes-still set_page (λ s. (refl, refl)))) over (λ _.
                  Takes-bind throw_if_aborted _ (before aborted-Makes) over
                    (λ _. run_kind-Takes started scripted target input.kind))))

    attempt_job-Takes :
        (started : ℕ) → Takes {o = o} (At BeforeAt) (At OverAt) (attempt_job p config input started)
    unfolding attempt_job
    attempt_job-Takes started = Takes-bind throw_if_aborted _ (before aborted-Makes) over (λ _.
        Takes-bind _ _
          (before (
            timed-Makes (codes "urlValidation") _
              (validate-Makes p (none-Allows p.unicode) input.url config.allowed_private_hosts)))
          over
          (λ target. Takes-bind throw_if_aborted _ (before aborted-Makes) over (λ _.
            Takes-bind (lift (scripted_job p config input target)) _ (before (Makes-lift _)) over
              (λ scripted.
                Takes-bind (new_run config main _) _
                  (before
                    (new_run-Makes config main (job_options input.kind scripted) (refl, refl)))
                  over
                  (λ _.
                    Takes-bind set_run _ set_run-Takes (λ s h. h.0.0)
                      (λ _. opened-Takes started scripted target))))))

    closed_or_not :
        (run : Session) (b : Bool) (s : St o)
        → (b ≡ true → is_open run (closing main s).calls ≡ false)
        → (b ≡ false → is_open run s.calls ≡ false)
        → is_open run (if b then closing main s else s).calls ≡ false
    closed_or_not run true s on_true on_false = on_true refl
    closed_or_not run false s on_true on_false = on_false refl

    closing_job_closes :
        (s : St o)
        → At OverAt s
        → (run : Session) → is_open run (closing_job p config input s).calls ≡ false
    closing_job_closes s ((unclosed, inl none_open), other) main =
        closed_or_not main s.has_run s (λ e. close_closes main s (unclosed, inl none_open))
          (λ e. none_open)
    closing_job_closes s ((unclosed, inr (has, opened)), other) main =
        closed_or_not main s.has_run s (λ e. close_closes main s (unclosed, inr opened))
          (λ e. absurd cc)
    closing_job_closes s (own, other) validator =
        closed_or_not validator s.has_run s
          (λ e.
            Grows-closed validator (closing-Grows p (Spares-Allows p.unicode validator) main s)
              other)
          (λ e. other)

    -- A job that starts with no browser open, and with sessions that were not closed before, ends
    -- with no browser open, whatever its kind and however it ends: the last that the driver was
    -- told of the job's browser and of the one that validates a repair is to close, if it was told
    -- to start it at all.
    pub execute_job_leaves_no_browser :
        (s : St o)
        → s.main_run.closed ≡ false
        → s.validator_run.closed ≡ false
        → is_open main s.calls ≡ false
        → is_open validator s.calls ≡ false
        → (run : Session) → is_open run (execute_job p config input s).1.calls ≡ false
    unfolding execute_job
    execute_job_leaves_no_browser s main_unclosed validator_unclosed main_none validator_none =
        closing_job_closes _ (
          (Takes-catch (attempt_job p config input (o.clock s.world))
              (report_failure p config input (o.clock s.world))
              (attempt_job-Takes (o.clock s.world)) (λ t h. h)
              (λ e.
                Takes-Makes OverAt OverAt-stable
                  (report-Makes p (none-Allows p.unicode) config input (o.clock s.world) e))).at
            s (((main_unclosed, inl main_none), validator_none), validator_unclosed))
