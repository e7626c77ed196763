-- ===== src/Safety/Replay/Laws.antt =====
-- What `replaySafeAction` lets the browser driver do, and what it has checked when it returns.
use price_scout.Base.{Bool, true, false, ◌≡◌, refl, ap, ◌∙◌, ◌⊎◌, inl, inr, List, [], ◌∷◌}
use price_scout.Base.{if◌then◌else◌}
use price_scout.Base.Text.{Text}
use price_scout.Base.Effects.{ok}
use price_scout.Contracts.{Action}
use price_scout.Outside.{
  Platform, Outside, Url, Session, Call, act, count, inner_text, inner_html, page_url,
}
use price_scout.Outside.Act.{St, Act, call, pure, lift, catch}
use price_scout.Outside.Keeps.{
  Keeps, keeps_rules, Keeps-call, Keeps-pure, Keeps-lift, >>=_post, catch_post, Keeps-catch,
  Keeps-bind,
}
use price_scout.Safety.Action.{assert_safe_action}
use price_scout.Safety.Action.Laws.{IsSafeAction, assert_safe_action_iff}
use price_scout.Safety.Url.{assert_same_origin}
use price_scout.Safety.Url.Laws.{SameOrigin}
use price_scout.Safety.Replay.{
  Target, absent, located, judge, locate, assert_safe_action_target, check_executed, perform,
  inspect, replay_safe_action,
}
use price_scout.Browser.{replay, public_action}

-- The actions that the driver was told to perform, last first.
abbrev pub acted : List Call → List Action
acted [] = []
acted (act s a ∷ calls) = a ∷ acted calls
acted (_ ∷ calls) = acted calls

abbrev pub acts : {o : Outside} → St o → List Action
acts s = acted s.calls

module _ {o : Outside} (run : Session) where
  count-Keeps : (t : Text) → Keeps (acts {o = o}) (call (count run t))
  count-Keeps t = Keeps-call (count run t) (λ s w. refl)

  text-Keeps : (t : Text) → Keeps (acts {o = o}) (call (inner_text run t))
  text-Keeps t = Keeps-call (inner_text run t) (λ s w. refl)

  html-Keeps : (t : Text) → Keeps (acts {o = o}) (call (inner_html run t))
  html-Keeps t = Keeps-call (inner_html run t) (λ s w. refl)

  url-Keeps : Keeps (acts {o = o}) (call (page_url run))
  url-Keeps = Keeps-call (page_url run) (λ s w. refl)

if_state :
    {o : Outside} {A : Type 0} (P : St o → Type 0) (b : Bool) (m n : Act o A) (t : St o)
    → P (m t).1
    → P (n t).1
    → P ((if b then m else n) t).1
if_state P true m n t h k = h
if_state P false m n t h k = k

module _ (p : Platform) {o : Outside} (run : Session) where
  locate-Keeps : (a : Action) → Keeps (acts {o = o}) (locate p run a)
  unfolding locate
  locate-Keeps a = search (keeps_rules, count-Keeps, text-Keeps, html-Keeps) depth 12

  judge-Keeps : (t : Target) → Keeps (acts {o = o}) (judge p run t)
  judge-Keeps absent = Keeps-pure false
  judge-Keeps (located e) = search keeps_rules

  target-Keeps : (a : Action) → Keeps (acts {o = o}) (assert_safe_action_target p run a)
  unfolding assert_safe_action_target
  target-Keeps a =
      Keeps-bind (catch (locate p run a) (λ _. pure absent)) (judge p run)
        (Keeps-catch (locate p run a) (λ _. pure absent) (locate-Keeps a) (λ e. Keeps-pure absent))
        judge-Keeps

  check_executed-Keeps : (l : List Action) → Keeps (acts {o = o}) (check_executed p run l)
  unfolding check_executed
  check_executed-Keeps [] = Keeps-pure tt
  check_executed-Keeps (a ∷ l) =
      Keeps-bind (lift (assert_safe_action p.unicode a)) _ (Keeps-lift _) (λ _.
        Keeps-bind (assert_safe_action_target p run a) (λ _. check_executed p run l)
          (target-Keeps a) (λ _. check_executed-Keeps l))

  inspect-Keeps :
      (l : List Action) (expected : Url) → Keeps (acts {o = o}) (inspect p run l expected)
  unfolding inspect
  inspect-Keeps l expected = Keeps-bind (call (page_url run)) _ (url-Keeps run) (λ current.
      Keeps-bind (lift (assert_same_origin p current expected)) _ (Keeps-lift _)
        (λ _. Keeps-bind (check_executed p run l) _ (check_executed-Keeps l) (λ _. Keeps-pure l)))

  replay-acts : (a : Action) (s : St o) → acts (replay run a s).1 ≡ public_action a ∷ acts s
  unfolding replay call
  replay-acts a s =
      let target = public_action a in
      >>=_post (λ r t. acts t ≡ target ∷ acts s) _ (call (act run target)) s (λ e h. refl)
        (λ result h. if_state (λ t. acts t ≡ target ∷ acts s) result.success _ _ _ refl refl)

  perform-acts :
      (a : Action) (b : Bool) (s : St o) → acts (perform p run a b s).1 ≡ public_action a ∷ acts s
  unfolding perform
  perform-acts a b s =
      catch_post (λ r t. acts t ≡ public_action a ∷ acts s) _ (replay run a) s
        (λ l h. replay-acts a s) (λ e h. replay-acts a s)

  -- A replay reaches the driver at most once, and only with an action that passed the check.
  pub replay_acts :
      (a : Action) (expected : Url) (s : St o)
      → let t = (replay_safe_action p run a expected s).1 in
        (acts t ≡ acts s) ⊎ (IsSafeAction p.unicode a × (acts t ≡ public_action a ∷ acts s))
  unfolding replay_safe_action
  replay_acts a expected s =
      let Goal = λ (t : St o).
        (acts t ≡ acts s) ⊎ (IsSafeAction p.unicode a × (acts t ≡ public_action a ∷ acts s)) in
      >>=_post (λ r. Goal) _ (lift (assert_safe_action p.unicode a)) s (λ e h. inl refl)
        (λ _ passed.
          let quiet = (target-Keeps a).at s in
          let safe = (assert_safe_action_iff p.unicode a).0 passed in
          >>=_post (λ r. Goal) _ (assert_safe_action_target p run a) s (λ e h. inl quiet)
            (λ resolved h.
              let u = (assert_safe_action_target p run a s).1 in
              let told : acts (perform p run a resolved u).1 ≡ public_action a ∷ acts s =
                perform-acts a resolved u ∙ ap (λ l. public_action a ∷ l) quiet in
              inr (
                safe,
                >>=_post (λ r t. acts t ≡ public_action a ∷ acts s) (λ l. inspect p run l expected)
                    (perform p run a resolved) u (λ e h. told)
                    (λ l h. (inspect-Keeps l expected).at (perform p run a resolved u).1 ∙ told),
              )))

  -- The page, asked for its address after the action was performed, is at the expected origin.
  abbrev pub EndsAtOrigin : Action → Url → St o → Type 0
  EndsAtOrigin a expected s =
      (u : St o) × (current : Text) × (acts u ≡ public_action a ∷ acts s)
      × ((call (page_url run) u).0 ≡ ok current)
      × SameOrigin p current expected
