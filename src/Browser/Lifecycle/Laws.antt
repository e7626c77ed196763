-- ===== src/Browser/Lifecycle/Laws.antt =====
-- No browser outlives a closed run, and every run that has begun to close gets there.
use price_scout.Base.{ℕ, ◌+◌, ◌≤◌, ◌<◌, Bool, true, false, ◌≡◌, ◌≢◌, refl, ◌⊎◌, inr, arith}
use price_scout.Browser.Lifecycle.{
  InitPhase, idle, launching, launched, abandoning, opening, settled, ClosePhase, unclosed, first,
  waiting, second, removing, closed, Run, at, Step, begin_init, launch_done, launch_failed, go_on,
  abandon, abandoned, opened, begin_close_idle, begin_close, first_closed, init_settled,
  second_closed, removed, After, none_yet, then_step,
}

-- Without `init` there is no browser, the second `close` waits for `init`, and behind it there is
-- no browser and none to come.
abbrev IsSafe : Run → Type 0
IsSafe s =
    (s.init ≡ idle → s.live ≡ false)
    × ((s.close ≡ first) ⊎ (s.close ≡ waiting) → s.init ≢ idle)
    × (s.close ≡ second → s.init ≡ settled)
    × ((s.close ≡ removing) ⊎ (s.close ≡ closed)
        → (s.live ≡ false) × ((s.init ≡ idle) ⊎ (s.init ≡ settled)))

step-IsSafe : {s t : Run} → Step s t → IsSafe s → IsSafe t
step-IsSafe begin_init h = ground arith
step-IsSafe launch_done h = ground arith
step-IsSafe launch_failed h = ground arith
step-IsSafe go_on h = ground arith
step-IsSafe (abandon n) h = ground arith
step-IsSafe abandoned h = ground arith
step-IsSafe opened h = ground arith
step-IsSafe begin_close_idle h = ground arith
step-IsSafe (begin_close n) h = ground arith
step-IsSafe first_closed h = ground arith
step-IsSafe init_settled h = ground arith
step-IsSafe second_closed h = ground arith
step-IsSafe removed h = ground arith

After-IsSafe : {n : ℕ} {s : Run} → After n s → IsSafe s
After-IsSafe none_yet = ground arith
After-IsSafe (then_step a step) = step-IsSafe step (After-IsSafe a)

-- The steps that `init` and `closeOnce` may still take.
abbrev init_left : InitPhase → ℕ
init_left idle = 4
init_left launching = 3
init_left launched = 2
init_left abandoning = 1
init_left opening = 1
init_left settled = 0

abbrev close_left : ClosePhase → ℕ
close_left unclosed = 5
close_left first = 4
close_left waiting = 3
close_left second = 2
close_left removing = 1
close_left closed = 0

abbrev left : Run → ℕ
left s = init_left s.init + close_left s.close

step-less : {s t : Run} → Step s t → left t < left s
step-less begin_init = omega arith
step-less launch_done = omega arith
step-less launch_failed = omega arith
step-less go_on = omega arith
step-less (abandon n) = omega arith
step-less abandoned = omega arith
step-less opened = omega arith
step-less begin_close_idle = omega arith
step-less (begin_close n) = omega arith
step-less first_closed = omega arith
step-less init_settled = omega arith
step-less second_closed = omega arith
step-less removed = omega arith

After-bounded : {n : ℕ} {s : Run} → After n s → n + left s ≤ 9
After-bounded none_yet = omega arith
After-bounded (then_step a step) =
    let less = step-less step in let before = After-bounded a in omega arith

abbrev IsStuck : Run → Type 0
IsStuck s = (t : Run) → ¬ Step s t

stuck_closed :
    (i : InitPhase) (c : ClosePhase) (b : Bool)
    → IsSafe (at i c b)
    → c ≢ unclosed
    → IsStuck (at i c b)
    → c ≡ closed
stuck_closed i unclosed b safe begun stuck = absurd (begun refl)
stuck_closed i first b safe begun stuck = absurd (stuck (at i waiting false) first_closed)
stuck_closed settled waiting b safe begun stuck = absurd (stuck (at settled second b) init_settled)
stuck_closed launching waiting b safe begun stuck =
    absurd (stuck (at launched waiting true) launch_done)
stuck_closed launched waiting b safe begun stuck =
    absurd (stuck (at abandoning waiting b) (abandon (λ e. cc)))
stuck_closed abandoning waiting b safe begun stuck =
    absurd (stuck (at settled waiting false) abandoned)
stuck_closed opening waiting b safe begun stuck = absurd (stuck (at settled waiting b) opened)
stuck_closed idle waiting b safe begun stuck = absurd (safe.1 (inr refl) refl)
stuck_closed i second b safe begun stuck = absurd (stuck (at i removing false) second_closed)
stuck_closed i removing b safe begun stuck = absurd (stuck (at i closed b) removed)
stuck_closed i closed b safe begun stuck = refl

-- However `init` and `close` run beside each other, they take at most nine steps; a run that has
-- begun to close and can take no further step is closed, and a closed run has no browser left.
pub close_leaves_no_browser :
    {n : ℕ} {s : Run}
    → After n s
    → (n ≤ 9)
      × (s.close ≢ unclosed → ((t : Run) → ¬ Step s t) → s.close ≡ closed)
      × (s.close ≡ closed → s.live ≡ false)
close_leaves_no_browser {n} {s} after =
    let safe = After-IsSafe after in
    (
      (let bounded = After-bounded after in omega arith),
      stuck_closed s.init s.close s.live safe,
      λ e. (safe.3 (inr e)).0,
    )
