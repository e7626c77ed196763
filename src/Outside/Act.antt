-- ===== src/Outside/Act.antt =====
-- Asynchronous code of the worker over the outside world: actions that return or throw, and the
-- blocks `try … catch …` and `try … finally …`.
use price_scout.Base.{Bool, Option, List, ◌∷◌}
use price_scout.Base.{ℕ}
use price_scout.Base.Text.{Text}
use price_scout.Base.Effects.{Result, ok, err, Failure}
use price_scout.Outside.{Outside, Call, Answer, Members}

-- The flags of a `BrowserRun`.
pub record RunFlags : Type 0 where
  pub initialized : Bool
  pub closing : Bool
  pub closed : Bool  -- `closePromise` is set, and settled

module _ (o : Outside) where
  pub record St : Type 0 where
    pub world : o.World
    pub calls : List Call
    pub timings : List (Text × ℕ)
    pub main_run : RunFlags
    pub validator_run : RunFlags
    pub json_ld : Option Members  -- the variable `jsonLd` of `extractObservation`
    pub has_run : Bool  -- the variables `run` and `page` of `executeJob` are set
    pub has_page : Bool

  abbrev pub Act : Type 0 → Type 0
  Act A = St → Result A × St

module _ {o : Outside} where
  -- The answer to a call, with the call put on record.
  unfoldable pub call : (c : Call) → Act o (Answer c)
  call c s = let (r, w) = o.respond c s.world in (r, record s { world = w; calls = c ∷ s.calls })

  module _ {A : Type 0} where
    abbrev pub pure : A → Act o A
    pure a s = (ok a, s)

    abbrev pub throw : Failure → Act o A
    throw e s = (err e, s)

    abbrev pub lift : Result A → Act o A
    lift r s = (r, s)

    -- `try { m } catch (error) { handler }`
    abbrev pub handled : (Failure → Act o A) → Result A → Act o A
    handled handler (ok a) s = (ok a, s)
    handled handler (err e) s = handler e s

    abbrev pub catch : Act o A → (Failure → Act o A) → Act o A
    catch m handler s = let (r, s') = m s in handled handler r s'

    -- `try { m } finally { cleanup }`, where the cleanup does not throw.
    abbrev pub finally : Act o A → (St o → St o) → Act o A
    finally m cleanup s = let (r, s') = m s in (r, cleanup s')

  module _ {A B : Type 0} where
    abbrev pub resume : (A → Act o B) → Result A → Act o B
    resume f (ok a) s = f a s
    resume f (err e) s = (err e, s)

    infixl 5 ◌>>=◌
    abbrev pub ◌>>=◌ : Act o A → (A → Act o B) → Act o B
    ◌>>=◌ m f s = let (r, s') = m s in resume f r s'

  module _ {A B : Type 0} where
    infixl 5 ◌>>◌
    abbrev pub ◌>>◌ : Act o A → Act o B → Act o B
    m >> k = m >>= λ _. k

  -- `Promise.all` of two calls: both are made, whatever the first gives.
  abbrev pub both : Act o (Unit {0}) → Act o (Unit {0}) → Act o (Unit {0})
  both m k s = let (r, t) = m s in let (q, u) = k t in resume (λ _ v. (q, v)) r u
