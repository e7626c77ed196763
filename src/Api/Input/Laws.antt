-- ===== src/Api/Input/Laws.antt =====
-- What the worker reads of an answer of the control plane (`ControlPlaneClient.input`).
use price_scout.Base.{
  true, false, ◌≡◌, refl, ap, ◌∙◌, Option, none, some, arith, Bool-cases, Option-cases, inl, inr,
}
use price_scout.Base.Text.{Text, codes, text_eq}
use price_scout.Base.Effects.{Result, ok, ◌>>=◌, Result-cases, bind-eq-ok}
use price_scout.Config.{Config}
use price_scout.Contracts.{ExecutionInput}
use price_scout.Outside.{Json, obj, Members, end}
use price_scout.Extract.Product.{get}
use price_scout.Api.Input.{
  at, put, is_truthy, is_terminal, plan_of, revision_of, monitor_at, condition_of, normalized,
  revision_object, InputReply, InputRequest, members_of_answer, input_request, read_json,
  read_answer, input,
}

module _ (key : Text) (value : Option Json) (more : Members) where
  pub get-put : text_eq key key ≡ true → get key more ≡ none → get key (put key value more) ≡ value
  unfolding get
  get-put same missing = elim (Option-cases value) [
    | inl e ↦ rw e missing
    | inr (v, e) ↦ rw e (rw same refl)
  ]

  pub get-put-other : (k : Text) → text_eq key k ≡ false → get k (put key value more) ≡ get k more
  unfolding get
  get-put-other k other = elim (Option-cases value) [
    | inl e ↦ rw e refl
    | inr (v, e) ↦ rw e (rw other refl)
  ]

module _ (raw : Members) (config : Config) where
  revision_read : get (codes "revision") (normalized raw config) ≡ revision_of raw
  unfolding normalized get text_eq
  revision_read =
      get-put (codes "revision") (revision_of raw) _ refl
        (get-put-other (codes "compilerMode") _ end (codes "revision") refl)

  condition_read :
      at (get (codes "monitor") (normalized raw config)) (codes "condition") ≡ condition_of raw
  unfolding normalized get text_eq
  condition_read =
      let last = put (codes "condition") (condition_of raw) end in
      let third = put (codes "intent") (monitor_at raw (codes "intent")) last in
      let second = put (codes "url") (monitor_at raw (codes "url")) third in
      get-put-other (codes "id") (monitor_at raw (codes "id")) second (codes "condition") refl
      ∙ get-put-other (codes "url") (monitor_at raw (codes "url")) third (codes "condition") refl
      ∙ get-put-other (codes "intent") (monitor_at raw (codes "intent")) last (codes "condition")
          refl
      ∙ get-put (codes "condition") (condition_of raw) end refl refl

  plan_read : get (codes "plan") (revision_object raw) ≡ plan_of raw
  unfolding get text_eq
  plan_read =
      let revision = get (codes "revision") raw in
      let last = put (codes "plan") (plan_of raw) end in
      let second = put (codes "generation") (at revision (codes "generation")) last in
      get-put-other (codes "id") (at revision (codes "id")) second (codes "plan") refl
      ∙ get-put-other (codes "generation") (at revision (codes "generation")) last (codes "plan")
          refl
      ∙ get-put (codes "plan") (plan_of raw) end refl refl

  revision_withheld : is_terminal raw ≡ true → revision_of raw ≡ none
  revision_withheld e = grind arith

  condition_withheld : is_terminal raw ≡ true → condition_of raw ≡ none
  condition_withheld e = grind arith

  revision_missing : is_truthy (get (codes "revision") raw) ≡ false → revision_of raw ≡ none
  revision_missing e = grind arith

  revision_given :
      is_terminal raw ≡ false
      → is_truthy (get (codes "revision") raw) ≡ true
      → revision_of raw ≡ some (obj (revision_object raw))
  revision_given e h = grind arith

-- What the worker's schema is given of the revision and the condition of an answer.
pub data Reads (raw n : Members) : Type 0 where
  ended :
      is_terminal raw ≡ true
      → get (codes "revision") n ≡ none
      → at (get (codes "monitor") n) (codes "condition") ≡ none
      → Reads raw n
  unplanned :
      is_terminal raw ≡ false
      → is_truthy (get (codes "revision") raw) ≡ false
      → get (codes "revision") n ≡ none
      → Reads raw n
  planned :
      is_terminal raw ≡ false
      → is_truthy (get (codes "revision") raw) ≡ true
      → at (get (codes "revision") n) (codes "plan") ≡ plan_of raw
      → Reads raw n

normalized-Reads : (raw : Members) (config : Config) → Reads raw (normalized raw config)
normalized-Reads raw config = elim (Bool-cases (is_terminal raw)) [
  | inl e ↦
      ended e (revision_read raw config ∙ revision_withheld raw config e)
        (condition_read raw config ∙ condition_withheld raw config e)
  | inr e ↦ elim (Bool-cases (is_truthy (get (codes "revision") raw))) [
    | inl h ↦ planned e h (
        ap (λ v. at v (codes "plan")) (revision_read raw config ∙ revision_given raw config e h)
        ∙ plan_read raw config)
    | inr h ↦ unplanned e h (revision_read raw config ∙ revision_missing raw config h)
  ]
]

json_of_reply :
    (encode : Text → Text) (schema : Json → Result ExecutionInput) (config : Config)
    (reply : InputReply) (answer : Json)
    → read_json encode schema config reply ≡ ok answer
    → (reply.is_ok ≡ true) × (reply.json ≡ ok answer)
json_of_reply encode schema config reply answer h = elim (Result-cases reply.text) [
  | inl (text, given) ↦ grind arith
  | inr (e, given) ↦ grind arith
]

-- An input that `ControlPlaneClient.input` returns is what the schema reads of the answer to its
-- request, which had a status of success, in its normalised shape. Of an execution that has ended,
-- neither the revision nor the condition is passed on to the schema, whatever the answer holds. Of
-- another one, a revision is passed on exactly if the answer has one, with the plan that the answer
-- gives beside it or else with its own.
pub input_sound :
    (encode : Text → Text) (schema : Json → Result ExecutionInput) (config : Config)
    (fetch : InputRequest → Result InputReply) (id : Text) (given : ExecutionInput)
    → input encode schema config fetch id ≡ ok given
    → (reply : InputReply) × (answer : Json) × (raw : Members) × (fetch
          (input_request encode schema config id)
        ≡ ok reply)
      × (reply.is_ok ≡ true)
      × (reply.json ≡ ok answer)
      × (members_of_answer answer ≡ ok raw)
      × (schema (obj (normalized raw config)) ≡ ok given)
      × Reads raw (normalized raw config)
unfolding input
input_sound encode schema config fetch id given h =
    let (answer, before, read) =
      bind-eq-ok (fetch (input_request encode schema config id) >>= read_json encode schema config)
        (read_answer encode schema config) given h in
    let (reply, sent, json) =
      bind-eq-ok (fetch (input_request encode schema config id)) (read_json encode schema config)
        answer before in
    let (fine, parsed) = json_of_reply encode schema config reply answer json in
    let (raw, members, checked) =
      bind-eq-ok (members_of_answer answer) (λ raw. schema (obj (normalized raw config))) given
        read in
    (reply, answer, raw, sent, fine, parsed, members, checked, normalized-Reads raw config)
