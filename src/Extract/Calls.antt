-- ===== src/Extract/Calls.antt =====
-- The calls of an extraction are reads of the page.
use price_scout.Base.{ℕ, zero, suc, ◌+◌, min, refl, Option, none, some, List, [], ◌∷◌, ◌++◌}
use price_scout.Base.Text.{Text}
use price_scout.Base.Effects.{ok}
use price_scout.Contracts.{Strategy, xpath_text, input_value, json_ld, Plan}
use price_scout.Outside.{
  Platform, Outside, Session, Call, Members, inner_text, script_count, script_text,
}
use price_scout.Outside.Act.{Act, call, pure, catch, ◌>>=◌}
use price_scout.Outside.Makes.{
  Makes, makes_rules, Makes-still, Makes-pure, Makes-throw, Makes-lift, Makes-catch, Makes-bind,
  Makes-call, Makes-option,
}
use price_scout.Safety.Replay.Calls.{Allows}
use price_scout.Extract.{
  choose_reading, Reading, value, blank, threw, of_text, attribute_of, scan_scripts,
  read_product_json_ld, load_json_ld, load_from, read_observation, read_strategy, attempt,
  read_first_from, read_first, required, read_variants, interpret, extract_observation,
}

module _ {o : Outside} {P : Call → Type 0} where
  Makes-choose :
      (r : Reading) (m : Act o Text) (g : Text → Act o Text)
      → Makes P m
      → ((t : Text) → Makes P (g t))
      → Makes P (choose_reading r m g)
  Makes-choose (value t) m g km kg = Makes-pure t
  Makes-choose blank m g km kg = km
  Makes-choose (threw t) m g km kg = kg t

module _ (p : Platform) {o : Outside} (run : Session) {P : Call → Type 0}
    (allows : Allows p.unicode P) where
  open allows use {quiet}

  scan-Makes : (left index : ℕ) → Makes P {o = o} (scan_scripts p run left index)
  unfolding scan_scripts
  scan-Makes zero index = Makes-pure none
  scan-Makes (suc left) index =
      Makes-bind (catch (call (script_text run index)) (λ _. pure (some []))) _
        (Makes-catch (call (script_text run index)) _
          (Makes-call (script_text run index) (quiet (script_text run index) refl))
          (λ e. Makes-pure _))
        (λ raw.
          Makes-option _ (λ product. pure (some product)) (scan_scripts p run left (index + 1))
            (λ product. Makes-pure (some product)) (scan-Makes left (index + 1)))

  read_json_ld-Makes : Makes P {o = o} (read_product_json_ld p run)
  unfolding read_product_json_ld
  read_json_ld-Makes =
      Makes-bind (call (script_count run)) _
        (Makes-call (script_count run) (quiet (script_count run) refl))
        (λ n. scan-Makes (min n 20) 0)

  load_from-Makes : (x : Option Members) → Makes P {o = o} (load_from p run x)
  load_from-Makes (some product) = Makes-pure (some product)
  load_from-Makes none =
      Makes-bind (read_product_json_ld p run) _ read_json_ld-Makes
        (λ found. Makes-still _ (λ t. (refl, refl)))

  load-Makes : Makes P {o = o} (load_json_ld p run)
  unfolding load_json_ld
  load-Makes = record {
    at = λ s. (load_from-Makes s.json_ld).at s;
    still = record { at = λ s. (load_from-Makes s.json_ld).still.at s };
  }

  strategy-Makes : (s : Strategy) → Makes P {o = o} (read_strategy p run s)
  unfolding read_strategy
  strategy-Makes (xpath_text selector a) =
      Makes-call (inner_text run selector) (quiet (inner_text run selector) refl)
  strategy-Makes (input_value selector a) =
      Makes-call (Call.input_value run selector) (quiet (Call.input_value run selector) refl)
  strategy-Makes (json_ld field) =
      Makes-bind (load_json_ld p run) _ load-Makes
        (λ product. Makes-option product _ _ (λ members. Makes-lift _) (Makes-throw _))

  attempt-Makes : (s : Strategy) → Makes P {o = o} (attempt p run s)
  unfolding attempt
  attempt-Makes s =
      Makes-catch (do text ← read_strategy p run s; pure (of_text text)) _
        (Makes-bind (read_strategy p run s) _ (strategy-Makes s) (λ t. Makes-pure _))
        (λ e. Makes-pure _)

  read_first_from-Makes :
      (field : Text) (errors : List Text) (l : List Strategy)
      → Makes P {o = o} (read_first_from p run field errors l)
  unfolding read_first_from
  read_first_from-Makes field errors [] = Makes-throw _
  read_first_from-Makes field errors (s ∷ rest) =
      Makes-bind (attempt p run s) _ (attempt-Makes s) (λ r.
        Makes-choose r (read_first_from p run field errors rest)
          (λ m. read_first_from p run field (errors ++ m ∷ []) rest)
          (read_first_from-Makes field errors rest)
          (λ m. read_first_from-Makes field (errors ++ m ∷ []) rest))

  read_first-Makes : (field : Text) (l : List Strategy) → Makes P {o = o} (read_first p run field l)
  unfolding read_first
  read_first-Makes field [] = Makes-pure none
  read_first-Makes field (s ∷ l) =
      Makes-bind (read_first_from p run field [] (s ∷ l)) _ (read_first_from-Makes field [] (s ∷ l))
        (λ t. Makes-pure (some t))

  required-Makes : (x : Option Text) → Makes P {o = o} (required p run x)
  required-Makes none = Makes-throw _
  required-Makes (some t) = Makes-pure t

  read_variants-Makes :
      (l : List Strategy) (selected : List (Text × Text))
      → Makes P {o = o} (read_variants p run l selected)
  unfolding read_variants
  read_variants-Makes [] selected = Makes-pure selected
  read_variants-Makes (s ∷ rest) selected =
      Makes-option (attribute_of s) _ (read_variants p run rest selected)
        (λ a. Makes-bind (attempt p run s) _ (attempt-Makes s) (λ r. read_variants-Makes rest _))
        (read_variants-Makes rest selected)

  interpret-Makes :
      (plan : Plan) (raw : Text) (c : Option Text) → Makes P {o = o} (interpret p run plan raw c)
  unfolding interpret
  interpret-Makes plan raw c = search makes_rules depth 12

  read_observation-Makes : (plan : Plan) → Makes P {o = o} (read_observation p run plan)
  unfolding read_observation
  read_observation-Makes plan =
      search (makes_rules, read_first-Makes, required-Makes, read_variants-Makes, interpret-Makes)
        depth 40

  pub extract_observation-Makes : (plan : Plan) → Makes P {o = o} (extract_observation p run plan)
  unfolding extract_observation
  extract_observation-Makes plan =
      Makes-bind (λ s. (ok tt, record s { json_ld = none })) (λ _. read_observation p run plan)
        (Makes-still _ (λ s. (refl, refl))) (λ _. read_observation-Makes plan)
