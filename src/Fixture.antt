-- ===== src/Fixture.antt =====
-- fixture/src/server.ts: the store that the compiler is tried on, with its control interface. The
-- handler reads its state when the body of the request is there, and answers and changes it in one
-- go. Of the pages, the description of the
-- product that the worker reads is in Page.
pub mod Page
pub mod Laws
use price_scout.Base.{
  ℕ, suc, ◌+◌, Bool, true, false, not, ◌&&◌, ◌||◌, Option, none, some, List, [], ◌∷◌, ◌++◌,
}
use price_scout.Base.{◌⊎◌, inl, inr, length, ltb, leb, ◌==◌, if◌then◌else◌}
use price_scout.Base.Text.{Text, codes, text_eq, starts_with}
use price_scout.Outside.{Json, bool, obj, Members, end}
use price_scout.Extract.Product.{get}

pub data Version : Type 0 where
  v1 v2 : Version

pub record FixtureState : Type 0 where
  pub version : Version
  pub base_price_minor : ℕ
  pub in_stock : Bool
  pub deployment : ℕ

abbrev pub initial_state : FixtureState
initial_state = record { version = v1; base_price_minor = 109900; in_stock = true; deployment = 1 }

pub data Method : Type 0 where
  get_method post_method other_method : Method

-- The path of the request's URL, or the message that the parser of the URL throws.
pub data Target : Type 0 where
  at : Text → Target
  no_url : Text → Target

-- `chunks` is the body as it comes in.
pub record Request : Type 0 where
  pub method : Method
  pub target : Target
  pub token : Option Text
  pub chunks : List Text

pub data Body : Type 0 where
  error : Text → Body
  state : FixtureState → Body
  health : FixtureState → Body  -- "ok" with the version and the deployment
  landing product : FixtureState → Body

pub record Response : Type 0 where
  pub status : ℕ
  pub body : Body

-- What the platform gives: `JSON.parse` of bytes, or the message that it throws; and the value of
-- `Number(value)`, `none` unless it is a safe integer that is not negative.
pub record Decoder : Type 0 where
  pub parse : Text → Json ⊎ Text
  pub number : Option Json → Option ℕ

abbrev pub too_large : Text
too_large = codes "request body too large"

-- The loop over the chunks: the body, or an error once they are longer than 16384 bytes together.
unfoldable pub gather : ℕ → Text → List Text → Option Text
gather size body [] = some body
gather size body (c ∷ chunks) =
    let rest = gather (size + length c) (body ++ c) chunks in
    if ltb 16384 (size + length c) then none else rest

abbrev pub as_object : Json ⊎ Text → Members ⊎ Text
as_object (inr message) = inr message
as_object (inl (obj ms)) = inl ms
as_object (inl _) = inr (codes "JSON object required")

abbrev pub parse_body : Decoder → Option Text → Members ⊎ Text
parse_body d none = inr too_large
parse_body d (some body) = as_object (d.parse body)

unfoldable pub read_json : Decoder → List Text → Members ⊎ Text
read_json d [] = inl end
read_json d (c ∷ chunks) = parse_body d (gather 0 [] (c ∷ chunks))

abbrev pub reply : ℕ → Body → FixtureState → Response × FixtureState
reply status body s = (record { status = status; body = body }, s)

-- The new state is kept, and is the answer.
abbrev pub settle : FixtureState → Response × FixtureState
settle s = reply 200 (state s) s

abbrev pub not_found : FixtureState → Response × FixtureState
not_found = reply 404 (error (codes "not found"))

abbrev pub is_v2 : Version → Bool
is_v2 v1 = false
is_v2 v2 = true

abbrev pub deploy : FixtureState → FixtureState
deploy s = if is_v2 s.version then s else record s { version = v2; deployment = s.deployment + 1 }

abbrev pub set_price : Option ℕ → FixtureState → Response × FixtureState
set_price none s = reply 400 (error (codes "priceMinor must be a positive integer")) s
set_price (some n) s =
    if leb n 0 || ltb 100000000 n
    then reply 400 (error (codes "priceMinor must be a positive integer")) s
    else settle (record s { base_price_minor = n })

abbrev pub set_stock : Option Json → FixtureState → Response × FixtureState
set_stock (some (bool b)) s = settle (record s { in_stock = b })
set_stock _ s = reply 400 (error (codes "inStock must be boolean")) s

abbrev pub control : Decoder → Text → Members ⊎ Text → FixtureState → Response × FixtureState
control d path (inr message) s = reply 500 (error message) s
control d path (inl body) s =
    if text_eq path (codes "/__control/deploy")
    then settle (deploy s)
    else if text_eq path (codes "/__control/reset")
    then settle initial_state
    else if text_eq path (codes "/__control/price")
    then set_price (d.number (get (codes "priceMinor") body)) s
    else if text_eq path (codes "/__control/stock")
    then set_stock (get (codes "inStock") body) s
    else not_found s

abbrev pub is_text : Option Text → Text → Bool
is_text none t = false
is_text (some s) t = text_eq s t

module _ (d : Decoder) (control_token : Text) where
  abbrev pub get_path : Text → FixtureState → Response × FixtureState
  get_path path s =
      if text_eq path (codes "/healthz") || text_eq path (codes "/readyz")
      then reply 200 (health s) s
      else if text_eq path (codes "/__control/state")
      then reply 200 (state s) s
      else if text_eq path (codes "/")
      then reply 200 (landing s) s
      else if text_eq path (codes "/products/atlas-headphones")
      then reply 200 (product s) s
      else not_found s

  abbrev pub post_path : Text → Request → FixtureState → Response × FixtureState
  post_path path q s =
      if starts_with path (codes "/__control/")
      then if is_text q.token control_token
        then control d path (read_json d q.chunks) s
        else reply 401 (error (codes "invalid fixture control token")) s
      else not_found s

  abbrev pub route : Method → Target → Request → FixtureState → Response × FixtureState
  route method (no_url message) q s = reply 500 (error message) s
  route get_method (at path) q s = get_path path s
  route post_method (at path) q s = post_path path q s
  route other_method (at path) q s = not_found s

  unfoldable pub handle : Request → FixtureState → Response × FixtureState
  handle q s = route q.method q.target q s

  -- The state behind a list of requests, the first one first.
  unfoldable pub serve : List Request → FixtureState → FixtureState
  serve [] s = s
  serve (q ∷ qs) s = serve qs (handle q s).1
