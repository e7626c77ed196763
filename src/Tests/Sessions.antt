-- ===== src/Tests/Sessions.antt =====
-- A close that begins when the browser is being launched.
use price_scout.Base.{◌≡◌, ◌≢◌, ◌≤◌, false}
use price_scout.Browser.Lifecycle.{
  settled, unclosed, closed, Run, at, Step, begin_init, begin_close, first_closed, launch_done,
  abandon, abandoned, init_settled, second_closed, removed, After, none_yet, then_step,
}
use price_scout.Browser.Lifecycle.Laws.{close_leaves_no_browser}

late_launch : After 9 (at settled closed false)
late_launch =
    then_step
      (then_step
        (then_step
          (then_step
            (then_step
              (then_step
                (then_step (then_step (then_step none_yet begin_init) (begin_close (λ e. cc)))
                  first_closed)
                launch_done)
              (abandon (λ e. cc)))
            abandoned)
          init_settled)
        second_closed)
      removed

close_leaves_no_browser_example :
    (9 ≤ 9)
    × (closed ≢ unclosed → ((t : Run) → ¬ Step (at settled closed false) t) → closed ≡ closed)
    × (closed ≡ closed → false ≡ false)
close_leaves_no_browser_example = close_leaves_no_browser late_launch
