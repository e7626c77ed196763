-- ===== src/Web/Client/Request.antt =====
-- `ApiError` and `request` of web/src/api/client.ts. The fetch is a parameter; it answers or throws.
use price_scout.Base.{ℕ, Bool, false, not, ◌&&◌, Option, none, some, List, [], ◌∷◌, ◌++◌, map}
use price_scout.Base.{any, is_some, ◌==◌, if◌then◌else◌}
use price_scout.Base.Text.{Text, codes, text_eq, contains, show, to_lower}
use price_scout.Outside.{Json, str}
use price_scout.Api.Input.{at}
use price_scout.Extract.Product.{coalesce, to_text}

-- An `ApiError` with its message, status and details, or any other error.
pub data ClientError : Type 0 where
  api : Text → ℕ → Option Json → ClientError
  other : Text → ClientError

pub data Answer (A : Type 0) : Type 0 where
  answered : A → Answer A
  refused : ClientError → Answer A

module _ {A B : Type 0} where
  infixl 5 ◌>>=◌
  abbrev pub ◌>>=◌ : Answer A → (A → Answer B) → Answer B
  answered a >>= f = f a
  refused e >>= f = refused e

  -- `promise.then(f)`
  abbrev pub and_then : (A → B) → Answer A → Answer B
  and_then f (answered a) = answered (f a)
  and_then f (refused e) = refused e

pub record Request : Type 0 where
  pub path : Text
  pub method : Text
  pub headers : List (Text × Text)
  pub body : Option Json  -- before `JSON.stringify`

-- `json` and `text` are what reading the body as such gives.
pub record Response : Type 0 where
  pub is_ok : Bool
  pub status : ℕ
  pub content_type : Option Text
  pub json : Answer Json
  pub text : Answer Text

abbrev pub plain_get : Text → Request
plain_get path = record { path = path; method = codes "GET"; headers = []; body = none }

-- Names of headers are compared without case.
unfoldable pub has_header : Text → List (Text × Text) → Bool
has_header name = any (λ (h : Text × Text). text_eq (map to_lower h.0) name)

unfoldable pub with_content_type : Request → Request
unfolding has_header
with_content_type q =
    if is_some q.body && not (has_header (codes "content-type") q.headers)
    then record q { headers = q.headers ++ (codes "content-type", codes "application/json") ∷ [] }
    else q

abbrev is_json : Option Text → Bool
is_json none = false
is_json (some t) = contains t (codes "application/json")

unfoldable pub read_body : Response → Answer Json
read_body response =
    if is_json response.content_type then response.json else and_then str response.text

-- `String(value ?? ...)`
abbrev pub error_text : ℕ → Option Json → Text
error_text status none = codes "Request failed (" ++ show status ++ codes ")"
error_text status (some v) = to_text v

-- A value that is `null` counts as absent.
abbrev pub error_message : Json → ℕ → Text
error_message body status =
    let error = at (some body) (codes "error") in
    error_text status (
      coalesce (at (some body) (codes "message"))
        (coalesce (at error (codes "message")) (coalesce error (coalesce (some body) none))))

abbrev pub error_details : Json → Option Json
error_details body =
    coalesce (at (some body) (codes "details"))
      (at (at (some body) (codes "error")) (codes "details"))

abbrev data_or : Option Json → Json → Json
data_or none body = body
data_or (some v) body = v

-- `body.data` where there is one
abbrev pub unwrap : Json → Json
unwrap body = data_or (at (some body) (codes "data")) body

abbrev pub judge : Response → Json → Answer Json
judge response body =
    if response.is_ok
    then answered (unwrap body)
    else refused (api (error_message body response.status) response.status (error_details body))

abbrev drop_slash : ℕ → Text → Text
drop_slash c [] = if c == b'/' then [] else c ∷ []
drop_slash c (d ∷ s) = c ∷ drop_slash d s

-- `VITE_API_BASE_URL`, without a slash at its end
unfoldable pub base_url : Option Text → Text
base_url none = []
base_url (some []) = []
base_url (some (c ∷ s)) = drop_slash c s

unfoldable pub request : Text → (Request → Answer Response) → Request → Answer Json
unfolding with_content_type read_body
request base fetch q = do
  response ← fetch (with_content_type (record q { path = base ++ q.path }))
  body ← read_body response
  judge response body
