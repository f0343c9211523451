-- ===== src/ExtProc/BudgetServer/Once.antt =====
-- internal/extproc/budget_server.go: what is charged after the end of a response.
use quota_management.Prelude.{
  ℕ, String, ◌≡◌, refl, subst, true, false, Option, none, some, List, [], ◌∷◌, All, find_first, inl,
  inr, Option-cases,
}
use quota_management.Prelude.Text.{Bytes}
use quota_management.Config.{Config}
use quota_management.Db.World.{Result, ok, err, World, Tables, M, ◌>>=◌, continue, pure}
use quota_management.Db.Reservations.{for_request}
use quota_management.Budget.Charge.{Call, DecrementResult, decrement_budgets}
use quota_management.Budget.Charge.Release.{decrement_budgets-Released}
use quota_management.Budget.Charge.Unreserved.{
  Unreserved, find_first-select, decrement_budgets-Unreserved,
}
use quota_management.ExtProc.Envoy.{
  Request, request_headers, request_body, response_headers, response_body, unknown, Reply,
  continue_response_body,
}
use quota_management.ExtProc.BudgetServer.{
  BudgetRequestState, Session, Outside, call_of, take_response_body, on_state, charge_response,
  on_response_end, step, process, onto_replies, cost_headers, with_model, delete,
}

-- A message other than the request headers.
abbrev pub Later : Request → Type 0
Later (request_headers d hs fs) = ⊥
Later (request_body body last) = Unit {0}
Later response_headers = Unit {0}
Later (response_body body last) = Unit {0}
Later unknown = Unit {0}

-- The id of the session stays, and the committed tables.
abbrev Stays {ℓ} : {A : Type ℓ} → String → Tables → Result (A × Session) × World → Type 0
Stays i t (err e, w) = w.tables ≡ t
Stays i t (ok (a, s), w) = (s.request_id ≡ i) × (w.tables ≡ t)

on_response_end-Stays :
    (cfg : Config) (out : Outside) (body : Bytes) (s : Session) (o : Option BudgetRequestState)
    (w : World)
    → Unreserved s.request_id w.tables
    → Stays s.request_id w.tables
        ((on_response_end cfg out body s o >>= λ r. pure (some r.0, r.1)) w)
unfolding on_response_end charge_response
on_response_end-Stays cfg out body s none w h = (refl, refl)
on_response_end-Stays cfg out body s (some st) w h =
    (refl, decrement_budgets-Unreserved cfg (call_of out s.request_id st) st.rate_limited_at w h)

step-Stays :
    (cfg : Config) (out : Outside) (r : Request) (s : Session) (w : World)
    → Later r
    → Unreserved s.request_id w.tables
    → Stays s.request_id w.tables (step cfg out r s w)
unfolding step
step-Stays cfg out (request_headers d hs fs) s w l h = absurd l
step-Stays cfg out (request_body body last) s w l h = (refl, refl)
step-Stays cfg out response_headers s w l h = (refl, refl)
step-Stays cfg out (response_body body true) s w l h =
    on_response_end-Stays cfg out body (on_state (take_response_body body) s)
      (on_state (take_response_body body) s).state w h
step-Stays cfg out (response_body body false) s w l h = (refl, refl)
step-Stays cfg out unknown s w l h = (refl, refl)

abbrev rest_of : Config → Outside → List Request → Option Reply × Session → M (List Reply × Session)
rest_of cfg out rs one = do
  rest ← process cfg out rs one.1
  pure (onto_replies one.0 rest.0, rest.1)

abbrev pub onto : Option Reply → List Reply × Session → M (List Reply × Session)
onto o rest = pure (onto_replies o rest.0, rest.1)

onto-tables :
    (o : Option Reply) (x : Result (List Reply × Session)) (w : World) {t : Tables}
    → w.tables ≡ t
    → (continue x (onto o) w).1.tables ≡ t
onto-tables o (err e) w same = same
onto-tables o (ok a) w same = same

after_step :
    (cfg : Config) (out : Outside) (i : String) (t : Tables) (rs : List Request)
    (x : Result (Option Reply × Session)) (w : World)
    → Stays i t (x, w)
    → ((s : Session) → s.request_id ≡ i → w.tables ≡ t → (process cfg out rs s w).1.tables ≡ t)
    → (continue x (rest_of cfg out rs) w).1.tables ≡ t
after_step cfg out i t rs (err e) w h k = h
after_step cfg out i t rs (ok (o, s)) w h k =
    onto-tables o (process cfg out rs s w).0 (process cfg out rs s w).1 (k s h.0 h.1)

process-Later :
    (cfg : Config) (out : Outside) (i : String) (t : Tables) (rs : List Request) (s : Session)
    (w : World)
    → All Later rs
    → Unreserved i t
    → s.request_id ≡ i
    → w.tables ≡ t
    → (process cfg out rs s w).1.tables ≡ t
unfolding process
process-Later cfg out i t [] s w l h id same = same
process-Later cfg out i t (r ∷ rs) s w l h id same =
    after_step cfg out i t rs (step cfg out r s w).0 (step cfg out r s w).1
      (subst (λ u. Stays i u (step cfg out r s w)) same
        (subst (λ j. Stays j w.tables (step cfg out r s w)) id
          (step-Stays cfg out r s w l.0 (rw (id, same) h))))
      λ s' id' same'. process-Later cfg out i t rs s' (step cfg out r s w).1 l.1 h id' same'

-- A charge that returns a result leaves no reservation of the request.
charged-Unreserved :
    (cfg : Config) (c : Call) (limit : Option ℕ) (w : World) (r : DecrementResult)
    → (decrement_budgets cfg c limit w).0 ≡ ok r
    → Unreserved c.request_id (decrement_budgets cfg c limit w).1.tables
charged-Unreserved cfg c limit w r done =
    elim (Option-cases (find_first (for_request c.request_id) w.tables.reservations)) [
      | inl miss ↦ rw (decrement_budgets-Unreserved cfg c limit w miss) miss
      | inr (res, hit) ↦
          rw (decrement_budgets-Released cfg c limit w res r hit done).0
            (find_first-select (for_request c.request_id) w.tables.reservations)
    ]

-- The session of a request.
abbrev pub session_of : String → BudgetRequestState → List String → Session
session_of i st ids = record { request_id = i; state = some st; request_states = ids }

abbrev ended_answer :
    Outside
    → Bytes
    → String
    → BudgetRequestState
    → List String
    → Result DecrementResult
    → Option Reply × Session
ended_answer out body i st ids r = (
  some (continue_response_body (cost_headers r) body true),
  record { request_id = i; state = some (with_model out st); request_states = delete i ids },
)

-- Once the charge at the end of a response has returned a result, no further message of the request
-- changes a committed table: a response that ends again is not charged again.
pub response_end_once :
    (cfg : Config) (out : Outside) (body : Bytes) (i : String) (st : BudgetRequestState)
    (ids : List String) (w : World) (r : DecrementResult) (later : List Request)
    → (decrement_budgets cfg (call_of out i (take_response_body body st)) st.rate_limited_at w).0
      ≡ ok r
    → All Later later
    → (process cfg out (response_body body true ∷ later) (session_of i st ids) w).1.tables
      ≡ (step cfg out (response_body body true) (session_of i st ids) w).1.tables
unfolding process step on_response_end charge_response
response_end_once cfg out body i st ids w r later done l =
    onto-tables answer.0 (process cfg out later ended charged.1).0
      (process cfg out later ended charged.1).1
      (process-Later cfg out i charged.1.tables later ended charged.1 l
        (charged-Unreserved cfg (call_of out i st') st.rate_limited_at w r done) refl refl)
  where
    st' : BudgetRequestState
    st' = take_response_body body st

    charged : Result DecrementResult × World
    charged = decrement_budgets cfg (call_of out i st') st.rate_limited_at w

    answer : Option Reply × Session
    answer = ended_answer out body i st' ids charged.0

    ended : Session
    ended = answer.1
