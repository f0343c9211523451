-- ===== src/ExtProc/BudgetServer/Chunks.antt =====
-- internal/extproc/budget_server.go: a response that arrives in parts.
use quota_management.Prelude.{
  String, ◌≡◌, refl, sym, ap, ◌∙◌, true, false, List, [], ◌∷◌, ◌++◌, Option, some,
}
use mathlib.Core.List.{append_assoc}
use quota_management.Prelude.Text.{Bytes}
use quota_management.Config.{Config}
use quota_management.Db.World.{Result, ok, err, World, continue}
use quota_management.Budget.Charge.{decrement_budgets}
use quota_management.ExtProc.Envoy.{Request, response_body, Reply, continue_response_body}
use quota_management.ExtProc.BudgetServer.{
  BudgetRequestState, Session, Outside, take_response_body, call_of, charge_response,
  on_response_end, step, process,
}
use quota_management.ExtProc.BudgetServer.Once.{session_of, onto}

-- The messages of a response that arrives in the given parts, and then the last.
abbrev pub in_parts : List Bytes → Bytes → List Request
in_parts [] last = response_body last true ∷ []
in_parts (b ∷ bs) last = response_body b false ∷ in_parts bs last

abbrev pub joined : List Bytes → Bytes → Bytes
joined [] last = last
joined (b ∷ bs) last = b ++ joined bs last

onto-world :
    (o : Option Reply) (x : Result (List Reply × Session)) (w : World)
    → (continue x (onto o) w).1 ≡ w
onto-world o (err e) w = refl
onto-world o (ok a) w = refl

take_twice :
    (b c : Bytes) (st : BudgetRequestState)
    → take_response_body c (take_response_body b st) ≡ take_response_body (b ++ c) st
take_twice b c st =
    ap (λ buffer. record st { streaming_buffer = buffer }) (append_assoc st.streaming_buffer b c)

abbrev charged : Config → Outside → String → BudgetRequestState → World → World
charged cfg out i st w = (decrement_budgets cfg (call_of out i st) st.rate_limited_at w).1

in_parts-charged :
    (cfg : Config) (out : Outside) (bs : List Bytes) (last : Bytes) (i : String)
    (st : BudgetRequestState) (ids : List String) (w : World)
    → (process cfg out (in_parts bs last) (session_of i st ids) w).1
      ≡ charged cfg out i (take_response_body (joined bs last) st) w
unfolding process step on_response_end charge_response
in_parts-charged cfg out [] last i st ids w = refl
in_parts-charged cfg out (b ∷ bs) last i st ids w =
    onto-world (some (continue_response_body [] b false)) rest.0 rest.1
    ∙ in_parts-charged cfg out bs last i (take_response_body b st) ids w
    ∙ ap (λ st'. charged cfg out i st' w) (take_twice b (joined bs last) st)
  where
    rest : Result (List Reply × Session) × World
    rest = process cfg out (in_parts bs last) (session_of i (take_response_body b st) ids) w

-- How a response is cut into parts makes no difference to the store: what is charged after the last
-- part is what is charged for the same bytes in one part.
pub response_parts_charged :
    (cfg : Config) (out : Outside) (bs : List Bytes) (last : Bytes) (i : String)
    (st : BudgetRequestState) (ids : List String) (w : World)
    → (process cfg out (in_parts bs last) (session_of i st ids) w).1
      ≡ (process cfg out (in_parts [] (joined bs last)) (session_of i st ids) w).1
response_parts_charged cfg out bs last i st ids w =
    in_parts-charged cfg out bs last i st ids w
    ∙ sym (in_parts-charged cfg out [] (joined bs last) i st ids w)
