-- ===== src/Entry.antt =====
-- worker/src/index.ts: how the worker's process answers signals. The loop that `stop` ends is in
-- Queue/Pull.
use price_scout.Base.{ℕ, ◌+◌, ◌≤◌, ◌≡◌, refl, Bool, true, false, inl, inr, List, [], ◌∷◌, arith}
use price_scout.Base.{Bool-cases, if◌then◌else◌}

pub data Signal : Type 0 where
  sigint sigterm : Signal

-- Which of the two listeners are left, the module's flag, how often `worker.stop` was called, and
-- whether a signal without a listener has ended the process.
pub record Process : Type 0 where
  pub hears_int : Bool
  pub hears_term : Bool
  pub shutting_down : Bool
  pub stops : ℕ
  pub is_killed : Bool

abbrev pub started : Process
started = record {
  hears_int = true;
  hears_term = true;
  shutting_down = false;
  stops = 0;
  is_killed = false;
}

abbrev pub shutdown : Process → Process
shutdown s = if s.shutting_down then s else record s { shutting_down = true; stops = s.stops + 1 }

-- A listener of `process.once` is removed before it is called.
abbrev pub hear : Signal → Process → Process
hear sigint s =
    if s.hears_int then shutdown (record s { hears_int = false }) else record s { is_killed = true }
hear sigterm s =
    if s.hears_term
    then shutdown (record s { hears_term = false })
    else record s { is_killed = true }

abbrev pub receive : Signal → Process → Process
receive signal s = if s.is_killed then s else hear signal s

unfoldable pub receive_all : List Signal → Process → Process
receive_all [] s = s
receive_all (signal ∷ signals) s = receive_all signals (receive signal s)

-- The flag is set exactly when the worker was stopped, which is once.
abbrev IsDrainedOnce : Process → Type 0
IsDrainedOnce s = s.stops ≡ (if s.shutting_down then 1 else 0)

receive-IsDrainedOnce :
    (signal : Signal) (s : Process) → IsDrainedOnce s → IsDrainedOnce (receive signal s)
receive-IsDrainedOnce sigint s h = ground arith
receive-IsDrainedOnce sigterm s h = ground arith

receive_all-IsDrainedOnce :
    (signals : List Signal) (s : Process) → IsDrainedOnce s → IsDrainedOnce (receive_all signals s)
unfolding receive_all
receive_all-IsDrainedOnce [] s h = h
receive_all-IsDrainedOnce (signal ∷ signals) s h =
    receive_all-IsDrainedOnce signals (receive signal s) (receive-IsDrainedOnce signal s h)

-- Whatever signals come, the worker is told to stop at most once.
stops_once : (signals : List Signal) → (receive_all signals started).stops ≤ 1
stops_once signals =
    let drained = receive_all-IsDrainedOnce signals started refl in
    elim (Bool-cases (receive_all signals started).shutting_down) [
      | inl e ↦ ground arith
      | inr e ↦ ground arith
    ]
