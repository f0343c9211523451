-- ===== src/ExtProc/BudgetServer/Admission.antt =====
-- internal/extproc/budget_server.go: the answer to the request headers.
use quota_management.Prelude.{
  ℕ, String, ◌≡◌, refl, Bool, true, false, not, ◌⊎◌, inl, inr, Option, none, some, List, [], ◌∷◌,
  if_split,
}
use quota_management.Prelude.Text.{Bytes}
use quota_management.Config.{Config}
use quota_management.Db.World.{Result, ok, err, World}
use quota_management.Budget.Check.{CheckResult}
use quota_management.Budget.Reserve.{check_and_reserve_budget}
use quota_management.Budget.Reserve.Grant.{Granted}
use quota_management.Budget.Reserve.Atomic.{check_and_reserve_atomic}
use quota_management.ExtProc.Json.{Fields}
use quota_management.ExtProc.Envoy.{
  HeaderValue, request_headers, content_text, Reply, continue_headers, immediate, ImmediateResponse,
  immediate_response,
}
use quota_management.ExtProc.BudgetServer.{
  BudgetRequestState, Session, Outside, store, check_reply, do_budget_check_and_respond,
  start_state, request_id_of, headers_answer, on_request_headers, step,
}

-- The id goes back to the gateway.
abbrev pub LetThrough : String → Reply → Type 0
LetThrough i reply = reply ≡ continue_headers (("x-budget-request-id", content_text i) ∷ []) none

-- The status of a refusal: 429 where the check has failed, 400 where its result denies the request.
abbrev pub refusal_status : Result CheckResult → ℕ
refusal_status (err e) = 429
refusal_status (ok r) = 400

abbrev pub Refused : Result CheckResult → Reply → Type 0
Refused result reply =
    (r : ImmediateResponse) × (reply ≡ immediate r) × (r.status_code ≡ refusal_status result)

-- What the check gave decides on the answer.
abbrev pub Answers : Result CheckResult → String → Reply → Type 0
Answers result i reply =
    (Granted result × LetThrough i reply) ⊎ ((Granted result → ⊥) × Refused result reply)

check_reply-Answers :
    (st : BudgetRequestState) (result : Result CheckResult) (ids : List String)
    → Answers result st.request_id (headers_answer (check_reply false st result) ids).0
unfolding immediate_response
check_reply-Answers st (err e) ids = inr ((λ g. g), (_, refl, refl))
check_reply-Answers st (ok r) ids =
    if_split
      (λ (a : Option Reply × BudgetRequestState).
        Answers (ok r) st.request_id (headers_answer a ids).0)
      (not r.allowed) (λ h. inr ((λ g. cc (rw g at h)), (_, refl, refl)))
      (λ h. inl (allowed r.allowed h, refl))
  where
    allowed : (b : Bool) → not b ≡ false → b ≡ true
    allowed true h = refl
    allowed false h = cc h

-- The request headers are always answered. Where the check grants the request, the answer lets it
-- through with its id; otherwise it refuses the request, with status 429 where the check has failed
-- and 400 where its result denies the request, and no committed table has changed, whichever
-- statements fail.
pub request_headers_answered :
    (cfg : Config) (out : Outside) (drawn : String) (hs : List HeaderValue)
    (filters : List (Bytes × Fields)) (s : Session) (w : World)
    → let i = request_id_of drawn hs in
      let st = start_state cfg w.now i hs filters in
      let check = check_and_reserve_budget cfg (out.evaluate st.eval_context) st.model_id i w in
      let answer = step cfg out (request_headers drawn hs filters) s w in
      (reply : Reply) × ((s' : Session) × ((answer.0 ≡ ok (some reply, s'))
          × ((Granted check.0 × LetThrough i reply)
              ⊎ ((Granted check.0 → ⊥) × Refused check.0 reply × (answer.1.tables ≡ w.tables)))))
unfolding step on_request_headers do_budget_check_and_respond
request_headers_answered cfg out drawn hs filters s w = (
  answer.0,
  (answer.1, (refl, decided (check_reply-Answers st check.0 (store i s.request_states)))),
)
  where
    i : String
    i = request_id_of drawn hs

    st : BudgetRequestState
    st = start_state cfg w.now i hs filters

    check : Result CheckResult × World
    check = check_and_reserve_budget cfg (out.evaluate st.eval_context) st.model_id i w

    answer : Reply × Session
    answer = headers_answer (check_reply false st check.0) (store i s.request_states)

    decided :
        Answers check.0 i answer.0
        → (Granted check.0 × LetThrough i answer.0)
          ⊎ ((Granted check.0 → ⊥) × Refused check.0 answer.0 × (check.1.tables ≡ w.tables))
    decided (inl (granted, through)) = inl (granted, through)
    decided (inr (denied, refused)) =
        elim (check_and_reserve_atomic cfg (out.evaluate st.eval_context) st.model_id i w) [
          | inl same ↦ inr (denied, refused, same)
          | inr granted ↦ absurd (denied granted)
        ]
