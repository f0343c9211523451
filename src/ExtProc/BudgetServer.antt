-- ===== src/ExtProc/BudgetServer.antt =====
-- internal/extproc/budget_server.go: `Process`, the phases of a request around the budget service.
pub mod Admission
pub mod Passthrough
pub mod Once
pub mod Chunks
use quota_management.Prelude.{
  ℕ, zero, suc, String, ◌+◌, ◌/◌, ◌≡◌, Bool, true, false, ◌&&◌, ◌||◌, not, Option, none, some, List,
  [], ◌∷◌, ◌++◌, ltb, ◌==◌, str_eq, select, if◌then◌else◌,
}
use quota_management.Prelude.Int.{ℤ, pos, negsuc}
use quota_management.Prelude.Text.{Bytes, codes, to_lower, same_text}
use quota_management.Config.{Config}
use quota_management.Models.Budget.{BudgetDefinition, BudgetPeriod, EntityType}
use quota_management.Db.World.{Result, ok, err, World, M, ◌>>=◌, ◌>>◌, pure, gets, attempt}
use quota_management.Budget.Check.{CheckResult}
use quota_management.Budget.Reserve.{check_and_reserve_budget}
use quota_management.Budget.Charge.{Call, DecrementResult, decrement_budgets}
use quota_management.ExtProc.Json.{Json, text, Fields, no_fields, field}
use quota_management.ExtProc.Tokens.{
  Tokens, parse_token_usage, extract_model_from_response, extract_model, configured_model,
}
use quota_management.ExtProc.Envoy.{
  HeaderValue, Request, request_headers, request_body, response_headers, response_body, unknown,
  HeaderContent, content_text, content_usd, check_failed, budget_exceeded, Reply, continue_headers,
  continue_body, continue_response_headers, continue_response_body, get_header_value, header_key,
  headers_map, immediate_response,
}
use quota_management.ExtProc.Context.{
  EvalContext, build_eval_context, get_request_id, extract_team_id,
}

pub record BudgetInfo : Type 0 where
  pub entity_type : EntityType
  pub name : String
  pub period : BudgetPeriod

pub record BudgetRequestState : Type 0 where
  pub request_id : String
  pub model_id : String
  pub team_id : String
  pub headers_map : List (Bytes × String)
  pub matched_budgets : List BudgetInfo
  pub rate_limited_at : Option ℕ
  pub estimated_cost : ℕ
  pub start_time : ℕ
  pub streaming_buffer : Bytes
  pub eval_context : EvalContext
  pub budget_checked : Bool
  pub request_body : Bytes

-- What `Process` keeps: the id, the state of the request (the variable and the entry of the map
-- are one object), and the ids that the map of the server has an entry for.
pub record Session : Type 0 where
  pub request_id : String
  pub state : Option BudgetRequestState
  pub request_states : List String

-- The code outside the repository: the syntax of JSON, and the evaluation of a CEL expression.
pub record Outside : Type 0 where
  pub unmarshal : Bytes → Option Json
  pub evaluate : EvalContext → String → Option Bool

abbrev pub store : String → List String → List String
store i ids = i ∷ ids

abbrev pub delete : String → List String → List String
delete i ids = select (λ j. not (str_eq j i)) ids

abbrev infos : List BudgetDefinition → List BudgetInfo
infos [] = []
infos (b ∷ bs) = record { entity_type = b.entity_type; name = b.name; period = b.period } ∷ infos bs

abbrev first_name : List BudgetDefinition → String
first_name [] = ""
first_name (b ∷ bs) = b.name

-- `retryAfter`, at least a second, or an hour.
abbrev pub retry_after_of : ℤ → ℕ
retry_after_of (pos zero) = 3600
retry_after_of (pos (suc n)) = suc n
retry_after_of (negsuc n) = 3600

abbrev pub refusal : CheckResult → String → Reply
refusal r path =
    immediate_response 400
      (budget_exceeded (first_name r.matched_budgets) r.remaining_budget
        (retry_after_of r.retry_after / 60))
      (retry_after_of r.retry_after) path

abbrev pub admitted : CheckResult → BudgetRequestState → BudgetRequestState
admitted r st = record st {
  budget_checked = true;
  matched_budgets = infos r.matched_budgets;
  rate_limited_at = r.rate_limited_at;
  estimated_cost = r.estimated_cost;
}

abbrev pub build_budget_headers_response : BudgetRequestState → Reply
build_budget_headers_response st =
    continue_headers (("x-budget-request-id", content_text st.request_id) ∷ []) none

-- The reply, where there is one, and the state after the check.
abbrev pub check_reply :
    Bool → BudgetRequestState → Result CheckResult → Option Reply × BudgetRequestState
check_reply headers_phase st (err e) =
    (some (immediate_response 429 check_failed 0 st.eval_context.path), st)
check_reply headers_phase st (ok r) =
    if not r.allowed
    then (some (refusal r st.eval_context.path), record st { budget_checked = true })
    else (
      (if headers_phase then some (build_budget_headers_response (admitted r st)) else none),
      admitted r st,
    )

unfoldable pub do_budget_check_and_respond :
    Config → Outside → BudgetRequestState → Bool → M (Option Reply × BudgetRequestState)
do_budget_check_and_respond cfg out st headers_phase = do
  result ←
      attempt
        (check_and_reserve_budget cfg (out.evaluate st.eval_context) st.model_id st.request_id)
  pure (check_reply headers_phase st result)

abbrev pub start_state :
    Config → ℕ → String → List HeaderValue → List (Bytes × Fields) → BudgetRequestState
start_state cfg now i hs filters = record {
  request_id = i;
  model_id = configured_model cfg.model_header (headers_map hs []);
  team_id = extract_team_id cfg hs;
  headers_map = headers_map hs [];
  matched_budgets = [];
  rate_limited_at = none;
  estimated_cost = 0;
  start_time = now;
  streaming_buffer = [];
  eval_context = build_eval_context cfg hs filters;
  budget_checked = false;
  request_body = [];
}

abbrev pub request_id_of : String → List HeaderValue → String
request_id_of drawn hs = if str_eq (get_request_id hs) "" then drawn else get_request_id hs

abbrev pub headers_answer : Option Reply × BudgetRequestState → List String → Reply × Session
headers_answer (none, st) ids = (
  build_budget_headers_response st,
  record { request_id = st.request_id; state = some st; request_states = ids },
)
headers_answer (some r, st) ids =
    (r, record { request_id = st.request_id; state = some st; request_states = ids })

unfoldable pub on_request_headers :
    Config
    → Outside
    → String
    → List HeaderValue
    → List (Bytes × Fields)
    → Session
    → M (Reply × Session)
on_request_headers cfg out drawn hs filters s = do
  let i = request_id_of drawn hs
  now ← gets (λ w. w.now)
  answer ← do_budget_check_and_respond cfg out (start_state cfg now i hs filters) false
  pure (headers_answer answer (store i s.request_states))

-- The model is taken from the body at its end, where the headers have given none.
abbrev pub take_request_body :
    Config → Outside → Bytes → Bool → BudgetRequestState → BudgetRequestState
take_request_body cfg out body last st =
    let st' = record st { request_body = st.request_body ++ body } in
    if str_eq st.model_id "" && last
    then record st' {
      model_id = extract_model out.unmarshal st'.request_body st.headers_map cfg.model_header;
    }
    else st'

abbrev pub on_state : (BudgetRequestState → BudgetRequestState) → Session → Session
on_state f s = record s { state = elim s.state [ none ↦ none | some st ↦ some (f st) ] }

abbrev pub take_response_body : Bytes → BudgetRequestState → BudgetRequestState
take_response_body body st = record st { streaming_buffer = st.streaming_buffer ++ body }

abbrev pub cost_headers : Result DecrementResult → List (String × HeaderContent)
cost_headers (err e) = []
cost_headers (ok r) =
    ("x-budget-cost-usd", content_usd (pos r.actual_cost))
    ∷ ("x-budget-remaining-usd", content_usd r.remaining_budget)
    ∷ []

abbrev pub with_model : Outside → BudgetRequestState → BudgetRequestState
with_model out st =
    if str_eq st.model_id ""
    then record st { model_id = extract_model_from_response out.unmarshal st.streaming_buffer }
    else st

abbrev pub call_of : Outside → String → BudgetRequestState → Call
call_of out i st =
    let tokens = parse_token_usage out.unmarshal st.streaming_buffer in
    record {
      request_id = i;
      model_id = (with_model out st).model_id;
      input_tokens = tokens.input_tokens;
      output_tokens = tokens.output_tokens;
    }

-- The end of the response: the actual cost is charged; that this fails is logged alone.
unfoldable pub charge_response :
    Config → Outside → String → BudgetRequestState → M (List (String × HeaderContent))
charge_response cfg out i st = do
  result ← attempt (decrement_budgets cfg (call_of out i st) st.rate_limited_at)
  pure (cost_headers result)

unfoldable pub on_response_end :
    Config → Outside → Bytes → Session → Option BudgetRequestState → M (Reply × Session)
on_response_end cfg out body s none = pure (continue_response_body [] body true, s)
on_response_end cfg out body s (some st) = do
  headers ← charge_response cfg out s.request_id st
  pure (
    continue_response_body headers body true,
    record s {
      state = some (with_model out st);
      request_states = delete s.request_id s.request_states;
    },
  )

abbrev answered : M (Reply × Session) → M (Option Reply × Session)
answered m = do r ← m; pure (some r.0, r.1)

-- One round of the loop. A message of another kind is skipped without an answer.
unfoldable pub step : Config → Outside → Request → Session → M (Option Reply × Session)
step cfg out (request_headers drawn hs filters) s =
    answered (on_request_headers cfg out drawn hs filters s)
step cfg out (request_body body last) s =
    pure (some (continue_body [] body last), on_state (take_request_body cfg out body last) s)
step cfg out response_headers s = pure (some continue_response_headers, s)
step cfg out (response_body body last) s =
    let s' = on_state (take_response_body body) s in
    let done = answered (on_response_end cfg out body s' s'.state) in
    let more : M (Option Reply × Session) = pure (some (continue_response_body [] body last), s') in
    if last then done else more
step cfg out unknown s = pure (none, s)

abbrev pub onto_replies : Option Reply → List Reply → List Reply
onto_replies none rs = rs
onto_replies (some r) rs = r ∷ rs

-- The loop over the messages that arrive until the stream ends, by its end, by an error of it, or
-- by the end of its context.
unfoldable pub process : Config → Outside → List Request → Session → M (List Reply × Session)
process cfg out [] s = pure ([], s)
process cfg out (r ∷ rs) s = do
  one ← step cfg out r s
  rest ← process cfg out rs one.1
  pure (onto_replies one.0 rest.0, rest.1)
