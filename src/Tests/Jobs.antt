-- ===== src/Tests/Jobs.antt =====
-- Theorems on whole jobs, on the shop.
use price_scout.Base.{◌≡◌, ◌↔◌, refl, true, false, [], ◌∷◌}
use price_scout.Base.Unicode.{ascii}
use price_scout.Base.Effects.{ok}
use price_scout.Contracts.{ExecutionResult, check, compile, repair}
use price_scout.Outside.{main, launch, terminate}
use price_scout.Outside.Makes.{Grows}
use price_scout.Handler.{execute_job}
use price_scout.Handler.Outward.{IsSafeCall, IsModelFree, execute_job-IsSafe, check-IsModelFree}
use price_scout.Handler.Closing.{is_open}
use price_scout.Handler.Closing.Jobs.{execute_job_leaves_no_browser}
use price_scout.Handler.Report.{IsReport}
use price_scout.Handler.Report.Jobs.{execute_job-IsReport}
use price_scout.Handler.Replay.{assert_observations_agree}
use price_scout.Handler.Agreement.{IsSameOffer, assert_observations_agree_iff}
use price_scout.Tests.Shop.{platform, shop, start, config, job, observed}

execute_job-IsSafe_example :
    Grows
      (IsSafeCall ascii repair)
      []
      (execute_job platform {o = shop} config (job repair) start).1.calls
execute_job-IsSafe_example = execute_job-IsSafe platform shop config (job repair) start

check-IsModelFree_example :
    Grows IsModelFree [] (execute_job platform {o = shop} config (job check) start).1.calls
check-IsModelFree_example = check-IsModelFree platform shop config (job check) start refl

execute_job-IsReport_example :
    (r : ExecutionResult) × ((execute_job platform {o = shop} config (job compile) start).0 ≡ ok r)
    × IsReport platform shop config (job compile) start r
execute_job-IsReport_example = execute_job-IsReport platform shop config (job compile) start

execute_job_leaves_no_browser_example :
    is_open main (execute_job platform {o = shop} config (job repair) start).1.calls ≡ false
execute_job_leaves_no_browser_example =
    execute_job_leaves_no_browser platform config (job repair) start refl refl refl refl main

-- A call to close may come before another one to start.
reopened : is_open main (launch main ∷ terminate main ∷ launch main ∷ []) ≡ true
reopened = refl

assert_observations_agree_iff_example :
    (assert_observations_agree observed observed ≡ ok tt) ↔ IsSameOffer observed observed
assert_observations_agree_iff_example = assert_observations_agree_iff observed observed
