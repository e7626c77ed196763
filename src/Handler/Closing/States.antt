-- ===== src/Handler/Closing/States.antt =====
-- What holds of the two browsers at the stages of a job, and that actions without their flags keep it.
use price_scout.Base.{Bool, true, false, ◌≡◌, refl, sym, ◌⊎◌, inl, inr, List}
use price_scout.Base.Unicode.{Unicode}
use mathlib.Core.Path.{subst}
use price_scout.Outside.{
  Outside, main, validator, Call, parse_intent, select_nodes, observe, extract,
}
use price_scout.Outside.Act.{RunFlags, St, Act}
use price_scout.Outside.Makes.{Grows, same, more, Makes, held}
use price_scout.Outside.Takes.{Takes}
use price_scout.Safety.Replay.Calls.{Allows}
use price_scout.Compiler.Calls.{asks_model}
use price_scout.Handler.Closing.{is_open, Spares, Grows-closed, Spares-Allows, IsClosable}

abbrev pub Flags : Type 0
Flags = RunFlags × RunFlags × Bool

-- The call starts no browser.
abbrev pub StartsNone : Call → Type 0
StartsNone c = Spares main c × Spares validator c

pub none-Allows : (u : Unicode) → Allows u StartsNone
none-Allows u = record {
  quiet = λ c h. ((Spares-Allows u main).quiet c h, (Spares-Allows u validator).quiet c h);
  safe = λ r a h. (refl, refl);
}

pub model-StartsNone : (c : Call) → asks_model c ≡ true → StartsNone c
model-StartsNone (parse_intent t) h = (refl, refl)
model-StartsNone (select_nodes snap requested) h = (refl, refl)
model-StartsNone (observe r t) h = (refl, refl)
model-StartsNone (extract r) h = (refl, refl)
model-StartsNone _ h = absurd cc

Grows-Spares-main : {l m : List Call} → Grows StartsNone l m → Grows (Spares main) l m
Grows-Spares-main same = same
Grows-Spares-main (more p g) = more p.0 (Grows-Spares-main g)

Grows-Spares-validator : {l m : List Call} → Grows StartsNone l m → Grows (Spares validator) l m
Grows-Spares-validator same = same
Grows-Spares-validator (more p g) = more p.1 (Grows-Spares-validator g)

-- The job's own browser is not open, or can be closed at the end.
abbrev pub MainAt : Flags → List Call → Type 0
MainAt h l =
    (h.0.closed ≡ false) × ((is_open main l ≡ false) ⊎ ((h.2 ≡ true) × (h.0.initialized ≡ true)))

-- Also, no browser validates a repair; it was not closed before; the job has a browser.
abbrev pub OverAt : Flags → List Call → Type 0
OverAt h l = MainAt h l × (is_open validator l ≡ false)

abbrev pub BeforeAt : Flags → List Call → Type 0
BeforeAt h l = OverAt h l × (h.1.closed ≡ false)

abbrev pub RunAt : Flags → List Call → Type 0
RunAt h l = BeforeAt h l × (h.2 ≡ true)

-- While a repair is validated.
abbrev pub OpenAt : Flags → List Call → Type 0
OpenAt h l = MainAt h l × IsClosable h.1 (is_open validator l)

abbrev pub At : (Flags → List Call → Type 0) → {o : Outside} → St o → Type 0
At R s = R (held s) s.calls

pub MainAt-stable :
    (h : Flags) (l m : List Call) → Grows (Spares main) l m → MainAt h l → MainAt h m
MainAt-stable h l m g (unclosed, inl e) = (unclosed, inl (Grows-closed main g e))
MainAt-stable h l m g (unclosed, inr e) = (unclosed, inr e)

abbrev pub IsStable : (Flags → List Call → Type 0) → Type 0
IsStable R = (h : Flags) (l m : List Call) → Grows StartsNone l m → R h l → R h m

pub OverAt-stable : IsStable OverAt
OverAt-stable h l m g (own, other) = (
  MainAt-stable h l m (Grows-Spares-main g) own,
  Grows-closed validator (Grows-Spares-validator g) other,
)

pub BeforeAt-stable : IsStable BeforeAt
BeforeAt-stable h l m g (over, unclosed) = (OverAt-stable h l m g over, unclosed)

pub RunAt-stable : IsStable RunAt
RunAt-stable h l m g (before, has) = (BeforeAt-stable h l m g before, has)

pub OpenAt-stable : IsStable OpenAt
OpenAt-stable h l m g (own, (unclosed, inl e)) = (
  MainAt-stable h l m (Grows-Spares-main g) own,
  (unclosed, inl (Grows-closed validator (Grows-Spares-validator g) e)),
)
OpenAt-stable h l m g (own, (unclosed, inr e)) =
    (MainAt-stable h l m (Grows-Spares-main g) own, (unclosed, inr e))

pub Takes-Makes :
    {o : Outside} {A : Type 0} (R : Flags → List Call → Type 0) {m : Act o A}
    → IsStable R
    → Makes StartsNone m
    → Takes (At R) (At R) m
Takes-Makes R {m} stable km = record {
  at = λ s h.
      subst (λ k. R k (m s).1.calls) (sym (km.still.at s))
        (stable (held s) s.calls (m s).1.calls (km.at s) h);
}
