-- ===== src/Api/Approvals.antt =====
-- internal/api/approval_handlers.go: approval, rejection and resubmission of a budget.
pub mod Workflow
pub mod History
use quota_management.Prelude.{
  ℕ, String, ◌+◌, ◌≡◌, Bool, true, false, ◌&&◌, ◌||◌, not, Option, none, some, is_some, leb,
  if◌then◌else◌,
}
use quota_management.Models.Budget.{
  BudgetDefinition, BudgetApproval, ApprovalStatus, pending, approved, rejected, closed,
}
use quota_management.Db.World.{
  Error, not_found, Result, ok, err, World, M, ◌>>=◌, ◌>>◌, pure, attempt,
}
use quota_management.Db.Budgets.{get_budget_by_id}
use quota_management.Db.Approvals.{create_budget_approval, update_budget_approval_status}
use quota_management.Auth.Identity.{Identity}
use quota_management.Auth.Rbac.{can_approve_or_reject, can_resubmit, is_empty}

-- The text of a nullable column.
abbrev pub text_or_empty : Option String → String
text_or_empty none = ""
text_or_empty (some s) = s

abbrev pub is_pending : ApprovalStatus → Bool
is_pending pending = true
is_pending _ = false

abbrev pub is_rejected : ApprovalStatus → Bool
is_rejected rejected = true
is_rejected _ = false

-- The budget that was read, or the response to the error.
abbrev pub with_budget : Result BudgetDefinition → (BudgetDefinition → M ℕ) → M ℕ
with_budget (ok b) f = f b
with_budget (err not_found) f = pure 404
with_budget (err e) f = pure 500

-- The record of an action is written after the change, and its failure is ignored.
abbrev pub recorded : BudgetApproval → Result (Unit {0}) → M ℕ
recorded a (err e) = pure 500
recorded a (ok _) = attempt (create_budget_approval a) >> pure 200

abbrev pub move : ℕ → ApprovalStatus → Bool → BudgetApproval → M ℕ
move i s counts a = do done ← attempt (update_budget_approval_status i s counts); recorded a done

abbrev approval : Identity → ℕ → ℕ → String → String → BudgetApproval
approval who i n action reason = record {
  budget_id = i;
  attempt_number = n;
  action = action;
  actor_user_id = who.subject;
  actor_email = who.email;
  reason = reason;
}

-- The budget has an organisation for its owner, and the caller may decide on it.
abbrev pub may_decide : Identity → BudgetDefinition → Bool
may_decide who b =
    is_some b.owner_org_id
    && can_approve_or_reject (some who) (text_or_empty b.owner_org_id)
        (text_or_empty b.owner_team_id)

abbrev pub approve_found : Identity → ℕ → BudgetDefinition → M ℕ
approve_found who i b =
    if not (may_decide who b)
    then pure 403
    else if not (is_pending b.approval_status)
    then pure 409
    else move i approved false (approval who i (b.rejection_count + 1) "approved" "")

unfoldable pub approve_budget : Option ℕ → Option Identity → M ℕ
approve_budget none who = pure 400
approve_budget (some i) none = pure 401
approve_budget (some i) (some who) =
    if not (who.is_org || who.is_team_admin)
    then pure 403
    else (do found ← attempt (get_budget_by_id i); with_budget found (approve_found who i))

-- The third rejection closes the budget.
abbrev pub status_after_rejection : ℕ → ApprovalStatus
status_after_rejection n = if leb 3 n then closed else rejected

abbrev pub reject_found : Identity → ℕ → String → BudgetDefinition → M ℕ
reject_found who i reason b =
    if not (may_decide who b)
    then pure 403
    else if not (is_pending b.approval_status)
    then pure 409
    else move i (status_after_rejection (b.rejection_count + 1)) true
        (approval who i (b.rejection_count + 1) "rejected" reason)

-- `reason` is the decoded body's; one that cannot be decoded and an empty one have one response.
unfoldable pub reject_budget : Option ℕ → Option Identity → Option String → M ℕ
reject_budget none who reason = pure 400
reject_budget (some i) none reason = pure 401
reject_budget (some i) (some who) reason =
    if not (who.is_org || who.is_team_admin)
    then pure 403
    else if is_empty (text_or_empty reason)
    then pure 400
    else (do
      found ← attempt (get_budget_by_id i)
      with_budget found (reject_found who i (text_or_empty reason)))

abbrev pub resubmit_found : Identity → ℕ → BudgetDefinition → M ℕ
resubmit_found who i b =
    if not (is_rejected b.approval_status)
    then pure 409
    else if leb 3 b.rejection_count
    then pure 409
    else if not (can_resubmit (some who) (text_or_empty b.created_by_user_id))
    then pure 403
    else move i pending false (approval who i (b.rejection_count + 1) "resubmitted" "")

unfoldable pub resubmit_budget : Option ℕ → Option Identity → M ℕ
resubmit_budget none who = pure 400
resubmit_budget (some i) none = pure 401
resubmit_budget (some i) (some who) = do
  found ← attempt (get_budget_by_id i)
  with_budget found (resubmit_found who i)
