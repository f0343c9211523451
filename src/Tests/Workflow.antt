-- ===== src/Tests/Workflow.antt =====
-- Access and the approval workflow.
use quota_management.Prelude.{◌≡◌, refl, true, false, none, some, [], ◌∷◌, arith, All}
use quota_management.Models.Budget.{org, pending}
use quota_management.Db.World.{World}
use quota_management.Auth.Identity.{Identity}
use quota_management.Auth.Rbac.{can_view_budget, can_manage_budget, can_approve_or_reject_views}
use quota_management.Api.Approvals.History.{
  Request, approve_request, reject_request, resubmit_request, handle, handle_all, handle-AllMove,
  handle_all-InWorkflow, InWorkflow,
}
use quota_management.Api.Approvals.Workflow.{AllMove}
use quota_management.Tests.{budget, world}

abbrev ann : Identity
ann = record {
  subject = "ann";
  email = "ann@acme.test";
  org_id = "acme";
  team_id = "core";
  is_org = true;
  is_team_admin = false;
  user_id = "ann";
}

can_approve_or_reject_views_example :
    (can_view_budget (some ann) "acme" "core" ≡ true)
    × (can_manage_budget (some ann) "acme" "core" ≡ true)
can_approve_or_reject_views_example = can_approve_or_reject_views (some ann) "acme" "core" refl

abbrev waiting : World
waiting = world (budget 1 org "acme" 10 none pending ∷ []) [] []

handle-AllMove_example :
    AllMove waiting.tables.budgets
      (handle (approve_request (some 1) (some ann)) waiting).1.tables.budgets
handle-AllMove_example = handle-AllMove (approve_request (some 1) (some ann)) waiting (refl, tt)

abbrev rejection : Request
rejection = reject_request (some 1) (some ann) (some "too much")

abbrev resubmission : Request
resubmission = resubmit_request (some 1) (some ann)

handle_all-InWorkflow_example :
    All InWorkflow
      (handle_all
        (rejection ∷ resubmission ∷ rejection ∷ resubmission ∷ rejection ∷ resubmission ∷ [])
        waiting).tables.budgets
handle_all-InWorkflow_example =
    handle_all-InWorkflow
      (rejection ∷ resubmission ∷ rejection ∷ resubmission ∷ rejection ∷ resubmission ∷ []) waiting
      (refl, tt) (omega arith, tt)
