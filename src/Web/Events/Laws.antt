-- ===== src/Web/Events/Laws.antt =====
-- The stream is open at most once, nothing is left of it when the console leaves, and its log is
-- that of the last hundred events.
use price_scout.Base.{
  ℕ, zero, suc, ◌≡◌, refl, ap, ◌∙◌, sym, inl, inr, true, false, Option, none, some, List, [], ◌∷◌,
  ◌++◌, arith,
}
use price_scout.Base.{◌==◌, ==_iff, take, Bool-cases}
use price_scout.Web.Types.{SystemEvent}
use price_scout.Web.Queries.{QueryKey}
use price_scout.Web.Events.{
  offline, Provider, without, connect, keys_of, on_open, on_message, on_error, on_timer, unmount,
  is_among, Run, mount, opens, receives, fails, fires, leaves,
}

-- A provider that is mounted has one open source, or one timer that will open one, and the variable
-- holds it; behind the unmounting it has neither.
pub data IsTidy (p : Provider) : Type 0 where
  streaming :
      (n : ℕ)
      → p.is_stopped ≡ false
      → p.source ≡ some n
      → p.opened ≡ n ∷ []
      → p.pending ≡ []
      → IsTidy p
  resting :
      (t : ℕ)
      → p.is_stopped ≡ false
      → p.connection ≡ offline
      → p.opened ≡ []
      → p.timer ≡ some t
      → p.pending ≡ t ∷ []
      → IsTidy p
  left : p.is_stopped ≡ true → p.opened ≡ [] → p.pending ≡ [] → IsTidy p

same_lem : (n : ℕ) → (n == n) ≡ true
same_lem n = (==_iff n n).1 refl

without_self : (n : ℕ) → without (some n) (n ∷ []) ≡ []
without_self n = rw (same_lem n) refl

without_nil : (n : Option ℕ) → without n [] ≡ []
without_nil none = refl
without_nil (some n) = refl

among_one : (n m : ℕ) (l : List ℕ) → l ≡ m ∷ [] → is_among n l ≡ true → n ≡ m
among_one n m l e h =
    let same : is_among n (m ∷ []) ≡ true = sym (ap (is_among n) e) ∙ h in ground arith

not_among : (n : ℕ) (l : List ℕ) → l ≡ [] → ¬ (is_among n l ≡ true)
not_among n l e h = let there : false ≡ true = sym (ap (is_among n) e) ∙ h in cc

on_open-IsTidy : (p : Provider) (n : ℕ) → is_among n p.opened ≡ true → IsTidy p → IsTidy (on_open p)
on_open-IsTidy p n h (streaming m s e o q) = streaming m s e o q
on_open-IsTidy p n h (resting t s c o e q) = absurd (not_among n p.opened o h)
on_open-IsTidy p n h (left s o q) = left s o q

on_message-IsTidy : (p : Provider) (e : SystemEvent) → IsTidy p → IsTidy (on_message e p)
on_message-IsTidy p e (streaming m s v o q) = streaming m s v o q
on_message-IsTidy p e (resting t s c o v q) = resting t s c o v q
on_message-IsTidy p e (left s o q) = left s o q

on_error-IsTidy :
    (p : Provider) (n : ℕ) → is_among n p.opened ≡ true → IsTidy p → IsTidy (on_error p)
on_error-IsTidy p n h (streaming m s e o q) =
    resting p.set s refl (rw (e, o) (without_self m)) refl (ap (◌∷◌ p.set) q)
on_error-IsTidy p n h (resting t s c o e q) = absurd (not_among n p.opened o h)
on_error-IsTidy p n h (left s o q) = absurd (not_among n p.opened o h)

on_timer-IsTidy :
    (p : Provider) (t : ℕ) → is_among t p.pending ≡ true → IsTidy p → IsTidy (on_timer t p)
on_timer-IsTidy p t h (streaming m s e o q) = absurd (not_among t p.pending q h)
on_timer-IsTidy p t h (resting u s c o e q) =
    let same = among_one t u p.pending q h in
    rw s (streaming p.made refl refl (ap (◌∷◌ p.made) o) (rw (q, same) (without_self u)))
on_timer-IsTidy p t h (left s o q) = absurd (not_among t p.pending q h)

unmount-IsTidy : (p : Provider) → IsTidy p → IsTidy (unmount p)
unmount-IsTidy p (streaming m s e o q) =
    left refl (rw (e, o) (without_self m)) (rw q (without_nil p.timer))
unmount-IsTidy p (resting t s c o e q) =
    left refl (rw o (without_nil p.source)) (rw (e, q) (without_self t))
unmount-IsTidy p (left s o q) = left refl (rw o (without_nil p.source)) (rw q (without_nil p.timer))

-- However the stream opens, receives, fails and is opened again, a mounted provider has exactly one
-- open source and no timer, or no open source, the state "offline" and exactly one timer that will
-- open the next. Behind the unmounting it has neither a source nor a timer.
pub Run-IsTidy : {l : List SystemEvent} {p : Provider} → Run l p → IsTidy p
Run-IsTidy mount = streaming 0 refl refl refl refl
Run-IsTidy (opens {p} r n h) = on_open-IsTidy p n h (Run-IsTidy r)
Run-IsTidy (receives {p} r n h event) = on_message-IsTidy p event (Run-IsTidy r)
Run-IsTidy (fails {p} r n h) = on_error-IsTidy p n h (Run-IsTidy r)
Run-IsTidy (fires {p} r t h) = on_timer-IsTidy p t h (Run-IsTidy r)
Run-IsTidy (leaves {p} r h) = unmount-IsTidy p (Run-IsTidy r)

take-take : (n : ℕ) (l : List SystemEvent) → take n (take (suc n) l) ≡ take n l
take-take zero l = refl
take-take (suc n) [] = refl
take-take (suc n) (x ∷ l) = ap (◌∷◌ x) (take-take n l)

take_cons :
    (n : ℕ) (e : SystemEvent) (l : List SystemEvent)
    → take (suc n) (e ∷ take (suc n) l) ≡ take (suc n) (e ∷ l)
take_cons n e l = ap (◌∷◌ e) (take-take n l)

-- The keys that a list of events invalidates.
abbrev pub all_keys : List SystemEvent → List QueryKey
all_keys [] = []
all_keys (e ∷ l) = keys_of e ++ all_keys l

-- What a provider shows for a history of events.
abbrev pub Shows : List SystemEvent → Provider → Type 0
Shows l p = (p.events ≡ take 100 l) × (p.invalidated ≡ all_keys l)

connect-Shows : (l : List SystemEvent) (p : Provider) → Shows l p → Shows l (connect p)
connect-Shows l p h = elim (Bool-cases p.is_stopped) [ inl e ↦ rw e h | inr e ↦ rw e h ]

-- Whatever happens to its connections, the provider shows the last hundred of the events that it
-- handled, the newest first, and has invalidated the monitors, and the monitor and the execution
-- that the event names, once for each.
pub Run-Shows : {l : List SystemEvent} {p : Provider} → Run l p → Shows l p
Run-Shows mount = (refl, refl)
Run-Shows (opens r n h) = Run-Shows r
Run-Shows (receives {l} {p} r n h event) =
    let (log, keys) = Run-Shows r in
    (ap (λ x. take 100 (event ∷ x)) log ∙ take_cons 99 event l, ap (◌++◌ (keys_of event)) keys)
Run-Shows (fails r n h) = Run-Shows r
Run-Shows (fires {l} {p} r t h) =
    connect-Shows l (record p { pending = without (some t) p.pending }) (Run-Shows r)
Run-Shows (leaves r h) = Run-Shows r
