-- ===== src/Handler/Closing.antt =====
-- Whether a browser is open by the calls that were made, and what opening and closing one does.
pub mod States
pub mod Opening
pub mod Jobs
use price_scout.Base.{ℕ, Bool, true, false, ◌≡◌, refl, sym, ap, ◌∙◌, ◌⊎◌, inl, inr, List, [], ◌∷◌}
use price_scout.Base.{Bool-cases, if◌then◌else◌}
use price_scout.Base.Text.{Text}
use price_scout.Base.Effects.{Result, ok, err, Failure}
use price_scout.Base.Unicode.{Unicode}
use price_scout.Contracts.{Action}
use price_scout.Outside.{
  Platform, Outside, Session, main, validator, Call, launch, terminate, remove_cache, act,
}
use price_scout.Outside.Act.{RunFlags, St, Act, call, pure, throw, handled}
use price_scout.Outside.Makes.{Grows, same, more, held}
use price_scout.Safety.Replay.Calls.{Allows, is_quiet}
use price_scout.Safety.Action.Laws.{IsSafeAction}
use price_scout.Browser.{close, close_once, quietly, init, flags, set_flags, public_action}
use price_scout.Handler.Calls.Sessions.{initialize-Makes}

abbrev pub same_session : Session → Session → Bool
same_session main main = true
same_session validator validator = true
same_session _ _ = false

abbrev pub after : Session → Call → Bool → Bool
after run (launch r) was = if same_session run r then true else was
after run (terminate r) was = if same_session run r then false else was
after run _ was = was

-- Whether the browser of a session was started, and has not been told to close since. The last call
-- comes first.
abbrev pub is_open : Session → List Call → Bool
is_open run [] = false
is_open run (c ∷ calls) = after run c (is_open run calls)

-- The call opens no browser of the session.
abbrev pub Spares : Session → Call → Type 0
Spares run c = after run c false ≡ false

pub Grows-closed :
    (run : Session) {l m : List Call}
    → Grows (Spares run) l m
    → is_open run l ≡ false
    → is_open run m ≡ false
Grows-closed run same h = h
Grows-closed run (more {c} p g) h = ap (after run c) (Grows-closed run g h) ∙ p

quiet-Spares : (run : Session) (c : Call) → is_quiet c ≡ true → Spares run c
quiet-Spares run (launch r) h = absurd cc
quiet-Spares run (terminate r) h = elim (Bool-cases (same_session run r)) [
  | inl e ↦ rw e refl
  | inr e ↦ rw e refl
]
quiet-Spares run _ h = refl

pub Spares-Allows : (u : Unicode) (run : Session) → Allows u (Spares run)
Spares-Allows u run = record { quiet = quiet-Spares run; safe = λ r a h. refl }

-- The calls of a close.
abbrev closing_calls : Session → RunFlags → List Call → List Call
closing_calls run f l =
    if f.closed
    then l
    else if f.initialized
    then remove_cache run ∷ terminate run ∷ terminate run ∷ l
    else remove_cache run ∷ l

-- A browser that may be open can be closed.
abbrev pub IsClosable : RunFlags → Bool → Type 0
IsClosable f open_now = (f.closed ≡ false) × ((open_now ≡ false) ⊎ (f.initialized ≡ true))

closed_calls :
    (run : Session) (f : RunFlags) (l : List Call)
    → (is_open run l ≡ false) ⊎ (f.initialized ≡ true)
    → is_open run (
        if f.initialized
        then remove_cache run ∷ terminate run ∷ terminate run ∷ l
        else remove_cache run ∷ l)
      ≡ false
closed_calls main f l (inr e) = rw e refl
closed_calls validator f l (inr e) = rw e refl
closed_calls main f l (inl e) = elim (Bool-cases f.initialized) [
  | inl g ↦ rw g refl
  | inr g ↦ rw g e
]
closed_calls validator f l (inl e) = elim (Bool-cases f.initialized) [
  | inl g ↦ rw g refl
  | inr g ↦ rw g e
]

module _ {o : Outside} where
  handled_still : (r : Result (Unit {0})) (s : St o) → handled (λ _. pure tt) r s ≡ (ok tt, s)
  handled_still (ok a) s = refl
  handled_still (err e) s = refl

  close_calls :
      (run : Session) (s : St o) → (close run s).1.calls ≡ closing_calls run (flags run s) s.calls
  unfolding close close_once call
  close_calls main s = elim (Bool-cases s.main_run.closed) [
    | inl e ↦ rw e refl
    | inr e ↦ elim (Bool-cases s.main_run.initialized) [
      | inl f ↦ rw (e, f, handled_still _ _, handled_still _ _, handled_still _ _) refl
      | inr f ↦ rw (e, f, handled_still _ _) refl
    ]
  ]
  close_calls validator s = elim (Bool-cases s.validator_run.closed) [
    | inl e ↦ rw e refl
    | inr e ↦ elim (Bool-cases s.validator_run.initialized) [
      | inl f ↦ rw (e, f, handled_still _ _, handled_still _ _, handled_still _ _) refl
      | inr f ↦ rw (e, f, handled_still _ _) refl
    ]
  ]

  -- Closing the validator's browser leaves the flags of the job's own.
  pub close_keeps_main :
      (s : St o)
      → ((close validator s).1.main_run ≡ s.main_run) × ((close validator s).1.has_run ≡ s.has_run)
  unfolding close close_once call
  close_keeps_main s = elim (Bool-cases s.validator_run.closed) [
    | inl e ↦ rw e (refl, refl)
    | inr e ↦ elim (Bool-cases s.validator_run.initialized) [
      | inl f ↦ rw (e, f, handled_still _ _, handled_still _ _, handled_still _ _) (refl, refl)
      | inr f ↦ rw (e, f, handled_still _ _) (refl, refl)
    ]
  ]

  -- A close leaves no browser of its session.
  pub close_closes :
      (run : Session) (s : St o)
      → IsClosable (flags run s) (is_open run s.calls)
      → is_open run (close run s).1.calls ≡ false
  close_closes run s (unclosed, closable) =
      ap (is_open run) (close_calls run s)
      ∙ rw unclosed (closed_calls run (flags run s) s.calls closable)

any_call : (u : Unicode) → Allows u (λ _. Unit {0})
any_call u = record { quiet = λ c h. tt; safe = λ r a h. tt }

module _ {o : Outside} where
  thrown_or_done :
      (b : Bool) (e : Failure) (m : Act o (Unit {0})) (s : St o) (h : RunFlags × RunFlags × Bool)
      → held (m s).1 ≡ h
      → (((if b then throw e else m) s).1 ≡ s) ⊎ (held ((if b then throw e else m) s).1 ≡ h)
  thrown_or_done true e m s h k = inl refl
  thrown_or_done false e m s h k = inr k

module _ (p : Platform) {o : Outside} where
  -- Opening a browser sets its flag, unless the session is closing.
  pub init_main-held :
      (host : Text) (s : St o)
      → ((init main host s).1 ≡ s)
        ⊎ (held (init main host s).1
            ≡ (record s.main_run { initialized = true }, s.validator_run, s.has_run))
  unfolding init
  init_main-held host s = thrown_or_done s.main_run.closing _ _ s _ (
      (initialize-Makes p (any_call p.unicode) main tt host).still.at
        (set_flags main (record s.main_run { initialized = true }) s))

  pub init_validator-held :
      (host : Text) (s : St o)
      → ((init validator host s).1 ≡ s)
        ⊎ (held (init validator host s).1
            ≡ (s.main_run, record s.validator_run { initialized = true }, s.has_run))
  unfolding init
  init_validator-held host s = thrown_or_done s.validator_run.closing _ _ s _ (
      (initialize-Makes p (any_call p.unicode) validator tt host).still.at
        (set_flags validator (record s.validator_run { initialized = true }) s))
