-- ===== src/Tests/Posting.antt =====
-- Theorems on what the worker reads from the control plane and posts to it.
use price_scout.Base.{if◌then◌else◌, [], ◌≡◌, refl, true, some}
use price_scout.Base.Text.{Text, codes, text_eq}
use price_scout.Base.Effects.{Result, ok, err, plain}
use price_scout.Contracts.{ExecutionInput, check, ExecutionResult, Status, repair}
use price_scout.Handler.Decisions.{bare_result}
use price_scout.Api.{Request, Reply, result_body}
use price_scout.Api.Input.{
  at, is_truthy, InputReply, InputRequest, members_of_answer, input_request, input, normalized,
}
use price_scout.Api.Input.Laws.{Reads, input_sound}
use price_scout.Outside.{Json, null, str, obj, Members, end, member}
use price_scout.Extract.Product.{get}
use price_scout.Tests.Shop.{config, job}

abbrev done : ExecutionResult
done = bare_result config (job repair) (some (codes "s1")) Status.succeeded [] 0 []

abbrev accepting : Request → Result Reply
accepting request = ok (record { is_ok = true; status = codes "204"; text = ok [] })

abbrev encoded : Text → Text
encoded t = t

session_shown :
    (result_body done).browser_session_url ≡ some (codes "https://www.browserbase.com/sessions/s1")
unfolding result_body
session_shown = refl

promoted : (result_body done).auto_promote ≡ true
unfolding result_body
promoted = refl

abbrev ended_answer : Members
ended_answer =
    member (codes "execution") (obj (member (codes "state") (str (codes "failed")) end)) (
      member (codes "revision") (obj (member (codes "plan") null end))
        (member (codes "plan") (obj end) end))

abbrev answering : InputRequest → Result InputReply
answering request =
    ok (record { is_ok = true; status = codes "200"; text = ok []; json = ok (obj ended_answer) })

-- A schema that reads a check unless there is a revision.
abbrev reading : Json → Result ExecutionInput
reading answer =
    if is_truthy (at (some answer) (codes "revision"))
    then err (plain (codes "unexpected"))
    else ok (job check)

input_read : input encoded reading config answering (codes "e1") ≡ ok (job check)
unfolding input normalized get text_eq
input_read = refl

input_sound_example :
    (reply : InputReply) × (answer : Json) × (raw : Members) × (answering
        (input_request encoded reading config (codes "e1"))
      ≡ ok reply)
    × (reply.is_ok ≡ true)
    × (reply.json ≡ ok answer)
    × (members_of_answer answer ≡ ok raw)
    × (reading (obj (normalized raw config)) ≡ ok (job check))
    × Reads raw (normalized raw config)
input_sound_example =
    input_sound encoded reading config answering (codes "e1") (job check) input_read
