-- ===== src/Queue/Backoff/Laws.antt =====
-- The delay before a redelivery.
use price_scout.Base.{ℕ, zero, suc, ◌+◌, ◌*◌, ◌-◌, ◌≤◌, ◌<◌, ◌≡◌, refl, min, arith}
use price_scout.Queue.Backoff.{backoff}

-- The delay by cases: doubling up to 32 seconds, and then a minute.
abbrev schedule : ℕ → ℕ
schedule zero = 1000
schedule (suc zero) = 2000
schedule (suc (suc zero)) = 4000
schedule (suc (suc (suc zero))) = 8000
schedule (suc (suc (suc (suc zero)))) = 16000
schedule (suc (suc (suc (suc (suc zero))))) = 32000
schedule (suc (suc (suc (suc (suc (suc n)))))) = 60000

backoff-schedule : (n : ℕ) → backoff n ≡ schedule n
unfolding backoff
backoff-schedule zero = refl
backoff-schedule (suc zero) = refl
backoff-schedule (suc (suc zero)) = refl
backoff-schedule (suc (suc (suc zero))) = refl
backoff-schedule (suc (suc (suc (suc zero)))) = refl
backoff-schedule (suc (suc (suc (suc (suc zero))))) = refl
backoff-schedule (suc (suc (suc (suc (suc (suc n)))))) =
    let capped : min (suc (suc (suc (suc (suc (suc n)))))) 6 ≡ 6 = omega arith in rw capped

schedule_bounds : (n : ℕ) → (1000 ≤ schedule n) × (schedule n ≤ 60000)
schedule_bounds n = ground arith

schedule-step : (n : ℕ) → schedule n ≤ schedule (suc n)
schedule-step n = ground arith

schedule_mono : (n k : ℕ) → schedule n ≤ schedule (k + n)
schedule_mono n zero = let e : 0 + n ≡ n = omega arith in rw e (omega arith)
schedule_mono n (suc k) =
    let step = schedule-step (k + n) in
    let e : suc k + n ≡ suc (k + n) = omega arith in rw e (omega (arith, schedule_mono n k, step))

schedule-doubles : (n : ℕ) → n < 5 → schedule (suc n) ≡ 2 * schedule n
schedule-doubles n h = ground arith

-- The delay of a first delivery is a second. It doubles with each of the first five redeliveries
-- and is a minute from the sixth on, so that it is always between a second and a minute, and never
-- falls with the number of redeliveries.
pub backoff_bounds :
    (n m : ℕ)
    → n ≤ m
    → (backoff 0 ≡ 1000)
      × (n < 5 → backoff (suc n) ≡ 2 * backoff n)
      × (1000 ≤ backoff n)
      × (backoff n ≤ backoff m)
      × (backoff m ≤ 60000)
      × (6 ≤ n → backoff n ≡ 60000)
backoff_bounds n m h =
    let e : m - n + n ≡ m = omega arith in
    rw (backoff-schedule n, backoff-schedule m, backoff-schedule 0, backoff-schedule (suc n))
      (
        refl,
        schedule-doubles n,
        (schedule_bounds n).0,
        rw e at (schedule_mono n (m - n)),
        (schedule_bounds m).1,
        λ late. ground arith,
      )
