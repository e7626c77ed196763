-- ===== src/Extract/Fallback.antt =====
-- Which of its strategies `readFirst` of `extractObservation` takes.
use price_scout.Base.{
  ◌≡◌, ◌≢◌, refl, sym, ap, ◌∙◌, ◌↔◌, ◌⊎◌, inl, inr, List, [], ◌∷◌, ◌++◌, if◌then◌else◌,
}
use price_scout.Base.Text.{Text, trim, truthy}
use price_scout.Base.Effects.{Result, ok, err, Failure, ok-injective}
use price_scout.Contracts.{Strategy}
use price_scout.Outside.{Platform, Outside, Session}
use price_scout.Outside.Act.{St, Act}
use price_scout.Safety.Replay.{message_of}
use price_scout.Extract.{
  Reading, value, blank, threw, of_text, attempt, choose_reading, read_first_from, read_strategy,
}

empty_or_not : (t : Text) → (t ≡ []) ⊎ (t ≢ [])
empty_or_not [] = inl refl
empty_or_not (c ∷ t) = inr (λ e. cc)

-- The reading of a text.
of_text_blank : (raw : Text) → trim raw ≡ [] → of_text raw ≡ blank
of_text_blank raw h = rw h refl

of_text_value : (t : Text) → t ≢ [] → (if truthy t then value t else blank) ≡ value t
of_text_value [] h = absurd (h refl)
of_text_value (c ∷ t) h = refl

module _ (p : Platform) {o : Outside} (run : Session) where
  -- The strategy reads a text from the page, which is not blank; this is the text without the space
  -- around it.
  abbrev pub Gives : Strategy → Text → St o → St o → Type 0
  Gives strategy t s u =
      (raw : Text) × (read_strategy p run strategy s ≡ (ok raw, u)) × (trim raw ≡ t) × (t ≢ [])

  -- It reads a blank text, or throws.
  abbrev pub Fails : Strategy → St o → St o → Type 0
  Fails strategy s u =
      ((raw : Text) × (read_strategy p run strategy s ≡ (ok raw, u)) × (trim raw ≡ []))
      ⊎ ((e : Failure) × (read_strategy p run strategy s ≡ (err e, u)))

  -- The first strategy that gives a text gives this one, after those before it failed.
  pub data IsFirst (t : Text) (u : St o) : List Strategy → St o → Type 0 where
    here :
        {strategy : Strategy} {rest : List Strategy} {s : St o}
        → Gives strategy t s u
        → IsFirst t u (strategy ∷ rest) s
    passed :
        {strategy : Strategy} {rest : List Strategy} {s v : St o}
        → Fails strategy s v
        → IsFirst t u rest v
        → IsFirst t u (strategy ∷ rest) s

  attempt-ok :
      (strategy : Strategy) (raw : Text) (s v : St o)
      → read_strategy p run strategy s ≡ (ok raw, v)
      → attempt p run strategy s ≡ (ok (of_text raw), v)
  unfolding attempt
  attempt-ok strategy raw s v h = rw h refl

  attempt-err :
      (strategy : Strategy) (e : Failure) (s v : St o)
      → read_strategy p run strategy s ≡ (err e, v)
      → attempt p run strategy s ≡ (ok (threw (message_of e)), v)
  unfolding attempt
  attempt-err strategy e s v h = rw h refl

  module _ (field t : Text) (u : St o) where
    -- The rest of the loop behind a strategy.
    abbrev behind : List Strategy → List Text → Reading → Act o Text
    behind rest errors r =
        choose_reading r (read_first_from p run field errors rest)
          (λ m. read_first_from p run field (errors ++ m ∷ []) rest)

    step :
        (strategy : Strategy) (rest : List Strategy) (errors : List Text) (r : Reading) (s v : St o)
        → attempt p run strategy s ≡ (ok r, v)
        → read_first_from p run field errors (strategy ∷ rest) s ≡ behind rest errors r v
    unfolding read_first_from
    step strategy rest errors r s v h = rw h refl

    read_blank :
        (strategy : Strategy) (rest : List Strategy) (errors : List Text) (raw : Text) (s v : St o)
        → read_strategy p run strategy s ≡ (ok raw, v)
        → trim raw ≡ []
        → read_first_from p run field errors (strategy ∷ rest) s
          ≡ read_first_from p run field errors rest v
    read_blank strategy rest errors raw s v h none_left =
        step strategy rest errors blank s v
          (attempt-ok strategy raw s v h ∙ ap (λ r. (ok r, v)) (of_text_blank raw none_left))

    read_value :
        (strategy : Strategy) (rest : List Strategy) (errors : List Text) (raw : Text) (s v : St o)
        → read_strategy p run strategy s ≡ (ok raw, v)
        → trim raw ≢ []
        → read_first_from p run field errors (strategy ∷ rest) s ≡ (ok (trim raw), v)
    read_value strategy rest errors raw s v h some_left =
        step strategy rest errors (value (trim raw)) s v
          (attempt-ok strategy raw s v h ∙ ap (λ r. (ok r, v)) (of_text_value (trim raw) some_left))

    read_error :
        (strategy : Strategy) (rest : List Strategy) (errors : List Text) (e : Failure) (s v : St o)
        → read_strategy p run strategy s ≡ (err e, v)
        → read_first_from p run field errors (strategy ∷ rest) s
          ≡ read_first_from p run field (errors ++ message_of e ∷ []) rest v
    read_error strategy rest errors e s v h =
        step strategy rest errors (threw (message_of e)) s v (attempt-err strategy e s v h)

    first_to :
        (l : List Strategy) (errors : List Text) (s : St o)
        → read_first_from p run field errors l s ≡ (ok t, u)
        → IsFirst t u l s
    unfolding read_first_from
    first_to [] errors s h = absurd (cc (ap (λ x. x.0) h))
    first_to (strategy ∷ rest) errors s h =
        split (read_strategy p run strategy s) refl (first_to rest)
      where
        Later : Type 0
        Later =
            (errors : List Text) (v : St o)
            → read_first_from p run field errors rest v ≡ (ok t, u)
            → IsFirst t u rest v

        given :
            (raw : Text) (v : St o)
            → read_strategy p run strategy s ≡ (ok raw, v)
            → (trim raw ≡ []) ⊎ (trim raw ≢ [])
            → Later
            → IsFirst t u (strategy ∷ rest) s
        given raw v read (inl e) ih =
            passed (inl (raw, read, e))
              (ih errors v (sym (read_blank strategy rest errors raw s v read e) ∙ h))
        given raw v read (inr n) ih =
            let same = sym (read_value strategy rest errors raw s v read n) ∙ h in
            let text : trim raw ≡ t = ok-injective (ap (λ x. x.0) same) in
            here (raw, read ∙ ap (λ w. (ok raw, w)) (ap (λ x. x.1) same), text, λ e. n (text ∙ e))

        split :
            (x : Result Text × St o)
            → read_strategy p run strategy s ≡ x
            → Later
            → IsFirst t u (strategy ∷ rest) s
        split (ok raw, v) read ih = given raw v read (empty_or_not (trim raw)) ih
        split (err e, v) read ih = passed (inr (e, read)) (
            ih (errors ++ message_of e ∷ []) v
              (sym (read_error strategy rest errors e s v read) ∙ h))

    first_from :
        (l : List Strategy) (errors : List Text) (s : St o)
        → IsFirst t u l s
        → read_first_from p run field errors l s ≡ (ok t, u)
    first_from [] errors s h = elim h [ ]
    first_from (strategy ∷ rest) errors s (here (raw, read, text, some_left)) =
        read_value strategy rest errors raw s u read (λ e. some_left (sym text ∙ e))
        ∙ ap (λ x. (ok x, u)) text
    first_from (strategy ∷ rest) errors s (passed (inl (raw, read, e)) later) =
        read_blank strategy rest errors raw s _ read e ∙ first_from rest errors _ later
    first_from (strategy ∷ rest) errors s (passed (inr (e, read)) later) =
        read_error strategy rest errors e s _ read
        ∙ first_from rest (errors ++ message_of e ∷ []) _ later

  -- `readFirst` returns a text exactly if it is the trimmed text of the first strategy that reads
  -- one that is not blank, after each strategy before it read a blank one or threw.
  pub read_first_from_iff :
      (field t : Text) (l : List Strategy) (errors : List Text) (s u : St o)
      → (read_first_from p run field errors l s ≡ (ok t, u)) ↔ IsFirst t u l s
  read_first_from_iff field t l errors s u =
      (first_to field t u l errors s, first_from field t u l errors s)
