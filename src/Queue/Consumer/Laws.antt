-- ===== src/Queue/Consumer/Laws.antt =====
-- Binding to the durable consumer.
use price_scout.Base.{Bool, true, false, ◌≡◌, refl, Option, none, some, ap, ◌⊎◌, inl, inr}
use price_scout.Base.Text.{codes, text_eq}
use price_scout.Regex.{test}
use mathlib.Core.Path.{subst}
use price_scout.Base.{if◌then◌else◌}
use price_scout.Config.{Config}
use price_scout.Queue.Consumer.{
  ManagerError, Settings, info, update, add, Manager, is_consumer_missing,
  is_consumer_already_exists, settings, refresh, after_info, after_add, after_refresh,
  ensure_durable_consumer,
}

-- What a manager keeps: a request that succeeds leaves the settings that it names.
pub record IsStore (m : Manager) : Type 0 where
  pub held : m.World → Option Settings
  pub updated :
      (s : Settings) (w : m.World)
      → (m.respond (update s) w).0 ≡ none
      → held (m.respond (update s) w).1 ≡ some s
  pub added :
      (s : Settings) (w : m.World)
      → (m.respond (add s) w).0 ≡ none
      → held (m.respond (add s) w).1 ≡ some s

-- The errors that the stream's server documents: 10014 for a consumer that is missing, and 10148
-- and 10013 for one that another replica has added. `String(error)` has the name of the class in
-- front.
abbrev pub not_found : ManagerError
not_found = record { code = codes "404"; text = codes "NatsError: consumer not found" }

abbrev pub exists : ManagerError
exists = record { code = codes "400"; text = codes "NatsError: consumer already exists" }

abbrev pub name_in_use : ManagerError
name_in_use = record { code = codes "400"; text = codes "NatsError: consumer name already in use" }

not_found_seen : is_consumer_missing not_found ≡ true
unfolding is_consumer_missing test text_eq
not_found_seen = refl

exists_seen : is_consumer_already_exists exists ≡ true
unfolding is_consumer_already_exists test
exists_seen = refl

name_in_use_seen : is_consumer_already_exists name_in_use ≡ true
unfolding is_consumer_already_exists test
name_in_use_seen = refl

-- A manager that is reachable and whose consumers are never removed: `info` fails only since the
-- consumer is missing, `add` only since it is there, and an update only where it is missing.
pub record IsReachable (m : Manager) : Type 0 where
  pub missing : (w : m.World) (e : ManagerError) → (m.respond info w).0 ≡ some e → e ≡ not_found
  pub present :
      (s : Settings) (w : m.World)
      → (m.respond info w).0 ≡ none
      → (m.respond (update s) (m.respond info w).1).0 ≡ none
  pub raced :
      (s : Settings) (w : m.World) (e : ManagerError)
      → (m.respond (add s) w).0 ≡ some e
      → ((e ≡ exists) ⊎ (e ≡ name_in_use))
        × ((m.respond (update s) (m.respond (add s) w).1).0 ≡ none)

module _ (m : Manager) (config : Config) where
  abbrev HasSettings : IsStore m → Option ManagerError × m.World → Type 0
  HasSettings store x = x.0 ≡ none → store.held x.1 ≡ some (settings config)

  after_info-HasSettings :
      (store : IsStore m) (x : Option ManagerError × m.World)
      → HasSettings store (after_info m config x)
  unfolding after_info
  after_info-HasSettings store (none, w) h = store.updated (settings config) w h
  after_info-HasSettings store (some e, w) h = absurd cc

  after_add-HasSettings :
      (store : IsStore m) (x : Option ManagerError × m.World)
      → HasSettings store x
      → HasSettings store (after_add m config x)
  unfolding after_add
  after_add-HasSettings store (none, w) given = given
  after_add-HasSettings store (some e, w) given = lost (is_consumer_already_exists e)
    where
      lost : (b : Bool) → HasSettings store (if b then refresh m config w else (some e, w))
      lost true h = store.updated (settings config) w h
      lost false h = absurd cc

  after_refresh-HasSettings :
      (store : IsStore m) (x : Option ManagerError × m.World)
      → HasSettings store x
      → HasSettings store (after_refresh m config x)
  unfolding after_refresh
  after_refresh-HasSettings store (none, w) given = given
  after_refresh-HasSettings store (some e, w) given = missing (is_consumer_missing e)
    where
      missing :
          (b : Bool)
          → HasSettings store
              (if b then after_add m config (m.respond (add (settings config)) w) else (some e, w))
      missing true h =
          after_add-HasSettings store (m.respond (add (settings config)) w)
            (store.added (settings config) w) h
      missing false h = absurd cc

  raced_seen :
      (e : ManagerError) → (e ≡ exists) ⊎ (e ≡ name_in_use) → is_consumer_already_exists e ≡ true
  raced_seen e (inl h) = rw h exists_seen
  raced_seen e (inr h) = rw h name_in_use_seen

  module _ (reachable : IsReachable m) where
    after_add_returns :
        (w : m.World) (x : Option ManagerError × m.World)
        → m.respond (add (settings config)) w ≡ x
        → (after_add m config x).0 ≡ none
    unfolding after_add
    after_add_returns w (none, v) e = refl
    after_add_returns w (some f, v) e =
        let (lost, refreshed) = reachable.raced (settings config) w f (ap (λ x. x.0) e) in
        let same : (m.respond (add (settings config)) w).1 ≡ v = ap (λ x. x.1) e in
        rw (raced_seen f lost) (subst (λ z. (refresh m config z).0 ≡ none) same refreshed)

    after_info_returns :
        (w : m.World) (x : Option ManagerError × m.World)
        → m.respond info w ≡ x
        → (after_refresh m config (after_info m config x)).0 ≡ none
    unfolding after_info after_refresh
    after_info_returns w (none, v) e =
        let same : (m.respond info w).1 ≡ v = ap (λ x. x.1) e in
        let refreshed : (refresh m config v).0 ≡ none =
          subst (λ z. (refresh m config z).0 ≡ none) same
            (reachable.present (settings config) w (ap (λ x. x.0) e)) in
        none_stays (refresh m config v) refreshed
      where
        none_stays :
            (y : Option ManagerError × m.World) → y.0 ≡ none → (after_refresh m config y).0 ≡ none
        none_stays (none, u) h = refl
        none_stays (some f, u) h = absurd cc
    after_info_returns w (some f, v) e =
        let missing : is_consumer_missing f ≡ true =
          rw (reachable.missing w f (ap (λ x. x.0) e)) not_found_seen in
        rw missing (after_add_returns v (m.respond (add (settings config)) v) refl)

-- Where the manager is reachable and fails by the server's documented errors alone, the worker binds to its consumer without an error, whether the
-- consumer is there, is missing, or is added by another replica first, and the consumer then has
-- the worker's settings.
pub ensure_durable_consumer_binds :
    (m : Manager) (config : Config) (store : IsStore m) (reachable : IsReachable m) (w : m.World)
    → ((ensure_durable_consumer m config w).0 ≡ none)
      × (store.held (ensure_durable_consumer m config w).1 ≡ some (settings config))
unfolding ensure_durable_consumer
ensure_durable_consumer_binds m config store reachable w =
    let returns = after_info_returns m config reachable w (m.respond info w) refl in
    (
      returns,
      after_refresh-HasSettings m config store (after_info m config (m.respond info w))
          (after_info-HasSettings m config store (m.respond info w)) returns,
    )
