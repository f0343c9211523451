-- ===== src/ExtProc/BudgetServer/Passthrough.antt =====
-- internal/extproc/budget_server.go: the bodies that the processor hands on.
use quota_management.Prelude.{
  ℕ, ◌≡◌, refl, true, false, Option, none, some, List, [], ◌∷◌, ◌++◌, length, subst, String, sum_by,
  arith, sym, ◌⊎◌, inl, inr,
}
use quota_management.Prelude.Text.{Bytes}
use quota_management.Config.{Config}
use quota_management.Db.World.{Result, ok, err, World, ◌>>=◌, continue, pure}
use quota_management.ExtProc.Envoy.{
  HeaderValue, Request, request_headers, request_body, response_headers, response_body, unknown,
  Reply, continue_headers, continue_body, continue_response_headers, continue_response_body,
  immediate,
}
use quota_management.ExtProc.Json.{Fields}
use quota_management.Budget.Check.{CheckResult}
use quota_management.ExtProc.BudgetServer.Admission.{LetThrough, Refused, request_headers_answered}
use quota_management.ExtProc.BudgetServer.{
  request_id_of, BudgetRequestState, Session, Outside, charge_response, on_response_end, step,
  process, onto_replies,
}

-- The bytes of the two bodies in a message, and in an answer.
abbrev pub request_bytes : Request → Bytes
request_bytes (request_body body last) = body
request_bytes (request_headers d hs fs) = []
request_bytes response_headers = []
request_bytes (response_body body last) = []
request_bytes unknown = []

abbrev pub response_bytes : Request → Bytes
response_bytes (response_body body last) = body
response_bytes (request_headers d hs fs) = []
response_bytes (request_body body last) = []
response_bytes response_headers = []
response_bytes unknown = []

abbrev pub sent_request_bytes : Reply → Bytes
sent_request_bytes (continue_body hs body last) = body
sent_request_bytes (continue_headers hs m) = []
sent_request_bytes continue_response_headers = []
sent_request_bytes (continue_response_body hs body last) = []
sent_request_bytes (immediate r) = []

abbrev pub sent_response_bytes : Reply → Bytes
sent_response_bytes (continue_response_body hs body last) = body
sent_response_bytes (continue_headers hs m) = []
sent_response_bytes (continue_body hs body last) = []
sent_response_bytes continue_response_headers = []
sent_response_bytes (immediate r) = []

-- The bytes of a list, one after the other.
abbrev pub all_bytes {ℓ} : {A : Type ℓ} → (A → Bytes) → List A → Bytes
all_bytes f [] = []
all_bytes f (x ∷ xs) = f x ++ all_bytes f xs

-- The answers that a message gets.
abbrev pub answers_to : Request → ℕ
answers_to unknown = 0
answers_to (request_headers d hs fs) = 1
answers_to (request_body body last) = 1
answers_to response_headers = 1
answers_to (response_body body last) = 1

-- The loop returns an answer to each known message, and its bodies have the bytes of the messages.
abbrev pub HandsOn : List Request → Result (List Reply × Session) → Type 0
HandsOn rs (err e) = ⊥
HandsOn rs (ok (replies, s)) =
    (length replies ≡ sum_by answers_to rs)
    × (all_bytes sent_request_bytes replies ≡ all_bytes request_bytes rs)
    × (all_bytes sent_response_bytes replies ≡ all_bytes response_bytes rs)

-- An answer stands for the message.
abbrev StandsFor : Request → Option Reply → Type 0
StandsFor r none = (answers_to r ≡ 0) × (request_bytes r ≡ []) × (response_bytes r ≡ [])
StandsFor r (some a) =
    (answers_to r ≡ 1)
    × (sent_request_bytes a ≡ request_bytes r)
    × (sent_response_bytes a ≡ response_bytes r)

abbrev Stepped : Request → Result (Option Reply × Session) → Type 0
Stepped r (err e) = ⊥
Stepped r (ok (a, s)) = StandsFor r a

on_response_end-Stepped :
    (cfg : Config) (out : Outside) (body : Bytes) (s : Session) (o : Option BudgetRequestState)
    (w : World)
    → Stepped
        (response_body body true)
        (continue
          (on_response_end cfg out body s o w).0
          (λ r. pure (some r.0, r.1))
          (on_response_end cfg out body s o w).1).0
unfolding on_response_end charge_response
on_response_end-Stepped cfg out body s none w = (refl, refl, refl)
on_response_end-Stepped cfg out body s (some st) w = (refl, refl, refl)

heads-Stepped :
    (d i : String) (hs : List HeaderValue) (fs : List (Bytes × Fields)) (reply : Reply)
    (check : Result CheckResult)
    → LetThrough i reply ⊎ Refused check reply
    → StandsFor (request_headers d hs fs) (some reply)
heads-Stepped d i hs fs reply check (inl e) = (refl, rw e refl, rw e refl)
heads-Stepped d i hs fs reply check (inr (r, e, status)) = (refl, rw e refl, rw e refl)

step-Stepped :
    (cfg : Config) (out : Outside) (r : Request) (s : Session) (w : World)
    → Stepped r (step cfg out r s w).0
unfolding step
step-Stepped cfg out (request_headers d hs fs) s w =
    let (reply, (s', (e, ways))) = request_headers_answered cfg out d hs fs s w in
    subst (Stepped (request_headers d hs fs)) (sym e) (
      heads-Stepped d (request_id_of d hs) hs fs reply _
        (elim ways [ inl (g, through) ↦ inl through | inr (denied, refused, same) ↦ inr refused ]))
step-Stepped cfg out (request_body body last) s w = (refl, refl, refl)
step-Stepped cfg out response_headers s w = (refl, refl, refl)
step-Stepped cfg out (response_body body true) s w = on_response_end-Stepped cfg out body _ _ w
step-Stepped cfg out (response_body body false) s w = (refl, refl, refl)
step-Stepped cfg out unknown s w = (refl, refl, refl)

-- An answer and those after it.
onto-HandsOn :
    (r : Request) (rs : List Request) (o : Option Reply) (x : Result (List Reply × Session))
    (w : World)
    → StandsFor r o
    → HandsOn rs x
    → HandsOn (r ∷ rs) (continue x (λ rest. pure (onto_replies o rest.0, rest.1)) w).0
onto-HandsOn r rs o (err e) w h k = k
onto-HandsOn r rs none (ok (replies, s)) w (none_due, no_body, no_response) (n, body, response) =
    (omega (arith, none_due, n), rw no_body body, rw no_response response)
onto-HandsOn r rs (some a) (ok (replies, s)) w (one, a_body, a_response) (n, body, response) =
    (omega (arith, one, n), rw (a_body, body) refl, rw (a_response, response) refl)

continue-HandsOn :
    (cfg : Config) (out : Outside) (r : Request) (rs : List Request)
    (x : Result (Option Reply × Session)) (w : World)
    → Stepped r x
    → ((s : Session) → HandsOn rs (process cfg out rs s w).0)
    → HandsOn
        (r ∷ rs)
        (continue x
          (λ one. process cfg out rs one.1 >>= λ rest. pure (onto_replies one.0 rest.0, rest.1))
          w).0
continue-HandsOn cfg out r rs (err e) w h k = h
continue-HandsOn cfg out r rs (ok (o, s)) w h k =
    onto-HandsOn r rs o (process cfg out rs s w).0 (process cfg out rs s w).1 h (k s)

-- The loop always returns. Each message of a known kind has had one answer, and the bytes of the
-- request's body and of the response's body in the answers are those in the messages, in their
-- order, whatever the budget service does.
pub process-HandsOn :
    (cfg : Config) (out : Outside) (rs : List Request) (s : Session) (w : World)
    → HandsOn rs (process cfg out rs s w).0
unfolding process
process-HandsOn cfg out [] s w = (refl, refl, refl)
process-HandsOn cfg out (r ∷ rs) s w =
    continue-HandsOn cfg out r rs (step cfg out r s w).0 (step cfg out r s w).1
      (step-Stepped cfg out r s w) λ s'. process-HandsOn cfg out rs s' (step cfg out r s w).1
