-- ===== src/Fixture/Laws.antt =====
-- The states that the control interface reaches, and who reaches them.
use price_scout.Base.{
  ℕ, ◌≤◌, ◌≡◌, refl, ap, ◌||◌, ◌⊎◌, inl, inr, Bool, true, false, Option, none, some, List, [], ◌∷◌,
  arith,
}
use price_scout.Base.{Bool-cases, ltb, leb, if◌then◌else◌}
use price_scout.Base.Text.{Text, codes, text_eq, starts_with, eq_of_text_eq}
use price_scout.Outside.{Json, bool, Members}
use price_scout.Extract.Product.{get}
use price_scout.Fixture.{
  FixtureState, initial_state, Method, get_method, post_method, other_method, Target, at, no_url,
  Request, Response, state, Decoder, read_json, deploy, set_price, set_stock, control, get_path,
  post_path, route, handle, serve, is_text, is_v2,
}

-- The version is the number of the deployment, and the price is one that the interface accepts.
pub record IsSound (s : FixtureState) : Type 0 where
  pub deployed : s.deployment ≡ (if is_v2 s.version then 2 else 1)
  pub priced : 1 ≤ s.base_price_minor
  pub bounded : s.base_price_minor ≤ 100000000

deploy-IsSound : (s : FixtureState) → IsSound s → IsSound (deploy s)
deploy-IsSound s h = ground arith

initial-IsSound : IsSound initial_state
initial-IsSound = record { deployed = refl; priced = omega arith; bounded = omega arith }

-- The states that an authorised request may lead to.
pub data Moves (s : FixtureState) : FixtureState → Type 0 where
  deployed : Moves s (deploy s)
  reset : Moves s initial_state
  priced : (n : ℕ) → 1 ≤ n → n ≤ 100000000 → Moves s (record s { base_price_minor = n })
  stocked : (b : Bool) → Moves s (record s { in_stock = b })

-- What a request does to the state: nothing, or with the status 200 and the new state for an answer
-- one of those moves.
abbrev Outcome : FixtureState → Response × FixtureState → Type 0
Outcome s r = (r.1 ≡ s) ⊎ (Moves s r.1 × (r.0 ≡ record { status = 200; body = state r.1 }))

Outcome-if :
    (s : FixtureState) (b : Bool) (x y : Response × FixtureState)
    → Outcome s x
    → Outcome s y
    → Outcome s (if b then x else y)
Outcome-if s true x y h k = h
Outcome-if s false x y h k = k

set_price-Outcome : (n : Option ℕ) (s : FixtureState) → Outcome s (set_price n s)
set_price-Outcome none s = inl refl
set_price-Outcome (some n) s = elim (Bool-cases (leb n 0 || ltb 100000000 n)) [
  | inl bad ↦ rw bad (inl refl)
  | inr good ↦ rw good (inr (priced n (ground arith) (ground arith), refl))
]

set_stock-Outcome : (v : Option Json) (s : FixtureState) → Outcome s (set_stock v s)
set_stock-Outcome (some (bool b)) s = inr (stocked b, refl)
set_stock-Outcome _ s = inl refl

control-Outcome :
    (d : Decoder) (path : Text) (body : Members ⊎ Text) (s : FixtureState)
    → Outcome s (control d path body s)
control-Outcome d path (inr message) s = inl refl
control-Outcome d path (inl body) s =
    Outcome-if s (text_eq path (codes "/__control/deploy")) _ _ (inr (deployed, refl)) (
      Outcome-if s (text_eq path (codes "/__control/reset")) _ _ (inr (reset, refl)) (
        Outcome-if s (text_eq path (codes "/__control/price")) _ _
          (set_price-Outcome (d.number (get (codes "priceMinor") body)) s)
          (Outcome-if s (text_eq path (codes "/__control/stock")) _ _
            (set_stock-Outcome (get (codes "inStock") body) s) (inl refl))))

-- A request that may change the state: a POST below the control path with the control token.
abbrev pub IsAuthorised : Text → Request → Type 0
IsAuthorised control_token q =
    (path : Text) × (q.method ≡ post_method)
    × (q.target ≡ at path)
    × (starts_with path (codes "/__control/") ≡ true)
    × (q.token ≡ some control_token)

is_text_sound : (t : Option Text) (s : Text) → is_text t s ≡ true → t ≡ some s
is_text_sound none s h = absurd cc
is_text_sound (some t) s h = ap some (eq_of_text_eq t s h)

module _ (d : Decoder) (control_token : Text) where
  get_path_keeps : (path : Text) (s : FixtureState) → (get_path d control_token path s).1 ≡ s
  get_path_keeps path s = ground arith

  abbrev Effect : Request → FixtureState → Response × FixtureState → Type 0
  Effect q s r =
      (r.1 ≡ s)
      ⊎ (IsAuthorised control_token q
          × Moves s r.1
          × (r.0 ≡ record { status = 200; body = state r.1 }))

  authorised :
      (q : Request) (path : Text) (s : FixtureState) (r : Response × FixtureState)
      → q.method ≡ post_method
      → q.target ≡ at path
      → starts_with path (codes "/__control/") ≡ true
      → is_text q.token control_token ≡ true
      → Outcome s r
      → Effect q s r
  authorised q path s r method target below token (inl same) = inl same
  authorised q path s r method target below token (inr (moved, answer)) =
      inr ((path, method, target, below, is_text_sound q.token control_token token), moved, answer)

  post_path-Effect :
      (q : Request) (path : Text) (s : FixtureState)
      → q.method ≡ post_method
      → q.target ≡ at path
      → Effect q s (post_path d control_token path q s)
  post_path-Effect q path s method target =
      elim (Bool-cases (starts_with path (codes "/__control/"))) [
        | inr e ↦ rw e (inl refl)
        | inl below ↦ elim (Bool-cases (is_text q.token control_token)) [
          | inr e ↦ rw (below, e) (inl refl)
          | inl token ↦
              rw (below, token)
                (authorised q path s (control d path (read_json d q.chunks) s) method target below
                  token (control-Outcome d path (read_json d q.chunks) s))
        ]
      ]

  route-Effect :
      (q : Request) (method : Method) (target : Target) (s : FixtureState)
      → q.method ≡ method
      → q.target ≡ target
      → Effect q s (route d control_token method target q s)
  route-Effect q method (no_url message) s e f = inl refl
  route-Effect q get_method (at path) s e f = inl (get_path_keeps path s)
  route-Effect q post_method (at path) s e f = post_path-Effect q path s e f
  route-Effect q other_method (at path) s e f = inl refl

  -- Whatever a request is, the state stays as it was, or the request is a POST below the control
  -- path with the control token, the new state is one that a deployment, a reset, a price from 1 to
  -- 100000000 or a stock setting makes of the old one, and it is the answer, with status 200.
  pub handle-Effect :
      (q : Request) (s : FixtureState)
      → ((handle d control_token q s).1 ≡ s)
        ⊎ (IsAuthorised control_token q
            × Moves s (handle d control_token q s).1
            × ((handle d control_token q s).0
                ≡ record { status = 200; body = state (handle d control_token q s).1 }))
  unfolding handle
  handle-Effect q s = route-Effect q q.method q.target s refl refl

  Moves-IsSound : (s t : FixtureState) → Moves s t → IsSound s → IsSound t
  Moves-IsSound s t deployed h = deploy-IsSound s h
  Moves-IsSound s t reset h = initial-IsSound
  Moves-IsSound s t (priced n low high) h = ground arith
  Moves-IsSound s t (stocked b) h = ground arith

  handle-IsSound :
      (q : Request) (s : FixtureState) → IsSound s → IsSound (handle d control_token q s).1
  handle-IsSound q s h = elim (handle-Effect q s) [
    | inl same ↦ rw same h
    | inr (_, moved, _) ↦ Moves-IsSound s _ moved h
  ]

  serve-IsSound_from :
      (qs : List Request) (s : FixtureState) → IsSound s → IsSound (serve d control_token qs s)
  unfolding serve
  serve-IsSound_from [] s h = h
  serve-IsSound_from (q ∷ qs) s h = serve-IsSound_from qs _ (handle-IsSound q s h)

  -- Whatever requests the store has served since it started, its deployment is 1 with the first
  -- version of the page and 2 with the second, and its price is from 1 to 100000000.
  pub serve-IsSound : (qs : List Request) → IsSound (serve d control_token qs initial_state)
  serve-IsSound qs = serve-IsSound_from qs initial_state initial-IsSound
