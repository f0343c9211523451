-- ===== src/Tests/Processing.antt =====
-- Streams of the external processors.
use quota_management.Prelude.{
  String, ◌≡◌, refl, sym, subst, ◌⊎◌, true, Option, none, some, List, [], ◌∷◌, All, sum_by,
  if◌then◌else◌,
}
use quota_management.Prelude.Int.{pos}
use quota_management.Prelude.Text.{Bytes, codes, same_text, split}
use quota_management.Config.{default_config}
use quota_management.Db.World.{ok, World}
use quota_management.Budget.Reserve.{check_and_reserve_budget}
use quota_management.Budget.Reserve.Grant.{Granted}
use quota_management.Budget.Charge.{decrement_budgets}
use quota_management.ExtProc.Json.{Json, number, text, object, no_fields, field}
use quota_management.ExtProc.Tokens.{
  parse_token_usage, parse_sse_token_usage, lines_tokens, line_value, value_tokens,
}
use quota_management.ExtProc.Tokens.Totals.{
  values_of, last_positive, reported_input, added_output, total_output,
  parse_sse_token_usage_totals,
}
use quota_management.ExtProc.Envoy.{
  HeaderValue, request_headers, request_body, response_headers, response_body, Reply,
}
use quota_management.ExtProc.BudgetServer.{
  BudgetRequestState, Session, Outside, start_state, request_id_of, take_response_body, call_of,
  step, process,
}
use quota_management.ExtProc.BudgetServer.Admission.{LetThrough, Refused, request_headers_answered}
use quota_management.ExtProc.BudgetServer.Passthrough.{HandsOn, process-HandsOn}
use quota_management.ExtProc.BudgetServer.Once.{session_of, response_end_once}
use quota_management.ExtProc.BudgetServer.Chunks.{in_parts, joined, response_parts_charged}
use quota_management.ExtProc.RateLimitServer
use quota_management.Tests.{store}
use quota_management.Tests.RateLimits.{rows}
use quota_management.Tests.Charges.{call, charged_result, charged_run}

abbrev chunk_body : Bytes
chunk_body = codes "data: {A}\ndata: [DONE]"

abbrev usage : Json
usage = object (
    field "prompt_tokens" (number (pos 1_000_000))
      (field "completion_tokens" (number (pos 1_000_000)) no_fields))

abbrev start_usage : Json
start_usage = object (
    field "usage"
      (object
        (field "input_tokens" (number (pos 7)) (field "output_tokens" (number (pos 1)) no_fields)))
      no_fields)

-- Three texts and their values.
abbrev unmarshal : Bytes → Option Json
unmarshal cs =
    if same_text cs (codes "{A}")
    then some (object (field "usage" usage no_fields))
    else if same_text cs (codes "{S}")
    then some (object (field "type" (text "message_start") (field "message" start_usage no_fields)))
    else if same_text cs (codes "{D}")
    then some (
        object (
          field "type" (text "message_delta")
            (field "usage" (object (field "output_tokens" (number (pos 20)) no_fields)) no_fields)))
    else none

abbrev outside : Outside
outside = record { unmarshal = unmarshal; evaluate = λ ctx x. some true }

abbrev message_body : Bytes
message_body = codes "data: {S}\n\ndata: {D}\r\ndata: {D}"

message_tokens :
    parse_token_usage unmarshal message_body ≡ record { input_tokens = 7; output_tokens = 41 }
unfolding parse_token_usage parse_sse_token_usage lines_tokens line_value value_tokens
message_tokens = refl

parse_sse_token_usage_totals_example :
    let js = values_of unmarshal (split b'\n' message_body) in
    let tokens = parse_sse_token_usage unmarshal message_body in
    (tokens.input_tokens ≡ last_positive reported_input js)
    × (All (λ j. total_output j ≡ 0) js → tokens.output_tokens ≡ sum_by added_output js)
    × (All (λ j. added_output j ≡ 0) js → tokens.output_tokens ≡ last_positive total_output js)
parse_sse_token_usage_totals_example = parse_sse_token_usage_totals unmarshal message_body

abbrev header : String → String → HeaderValue
header k v = record { key = k; value = v; raw_value = "" }

abbrev headers : List HeaderValue
headers =
    header "X-Request-Id" "r9"
    ∷ header "X-Gateway-Model-Name" "gpt-4o"
    ∷ header "x-gw-team-id" "core"
    ∷ []

abbrev no_session : Session
no_session = record { request_id = ""; state = none; request_states = [] }

request_headers_answered_example :
    let i = request_id_of "drawn" headers in
    let st = start_state default_config store.now i headers [] in
    let check =
      check_and_reserve_budget default_config
        (outside.evaluate st.eval_context)
        st.model_id
        i
        store in
    let answer =
      step default_config outside (request_headers "drawn" headers []) no_session store in
    (reply : Reply) × ((s' : Session) × ((answer.0 ≡ ok (some reply, s'))
        × ((Granted check.0 × LetThrough i reply)
            ⊎ ((Granted check.0 → ⊥) × Refused check.0 reply × (answer.1.tables ≡ store.tables)))))
request_headers_answered_example =
    request_headers_answered default_config outside "drawn" headers [] no_session store

process-HandsOn_example :
    let rs =
      request_headers "drawn" headers []
      ∷ request_body (codes "{}") true
      ∷ response_headers
      ∷ response_body chunk_body true
      ∷ [] in
    HandsOn rs (process default_config outside rs no_session store).0
process-HandsOn_example =
    process-HandsOn default_config outside
      (request_headers "drawn" headers []
        ∷ request_body (codes "{}") true
        ∷ response_headers
        ∷ response_body chunk_body true
        ∷ [])
      no_session store

abbrev state : BudgetRequestState
state = start_state default_config 100 "r1" headers []

chunk_call : call_of outside "r1" (take_response_body chunk_body state) ≡ call
unfolding parse_token_usage parse_sse_token_usage lines_tokens line_value value_tokens
chunk_call = refl

response_end_once_example :
    (process default_config outside
      (response_body chunk_body true ∷ response_body chunk_body true ∷ [])
      (session_of "r1" state [])
      store).1.tables
    ≡ (step default_config outside
        (response_body chunk_body true)
        (session_of "r1" state [])
        store).1.tables
response_end_once_example =
    response_end_once default_config outside chunk_body "r1" state [] store charged_result
      (response_body chunk_body true ∷ [])
      (subst (λ c. (decrement_budgets default_config c none store).0 ≡ ok charged_result)
        (sym chunk_call) charged_run)
      (tt, tt)

abbrev limits_outside : RateLimitServer.Outside
limits_outside = record {
  unmarshal = unmarshal;
  base64_url = λ cs. none;
  base64_std = λ cs. none;
  format = λ j. "";
}

abbrev limits_session : RateLimitServer.Session
limits_session = record { request_id = ""; state = none; request_states = [] }

abbrev limited : World
limited = record store { tables = record store.tables { allocations = rows } }

response_parts_charged_example :
    (process default_config outside
      (in_parts (codes "data: {A}\nda" ∷ []) (codes "ta: [DONE]"))
      (session_of "r1" state [])
      store).1
    ≡ (process default_config outside
        (in_parts [] (joined (codes "data: {A}\nda" ∷ []) (codes "ta: [DONE]")))
        (session_of "r1" state [])
        store).1
response_parts_charged_example =
    response_parts_charged default_config outside (codes "data: {A}\nda" ∷ []) (codes "ta: [DONE]")
      "r1" state [] store
