-- ===== src/Db/Approvals.antt =====
-- internal/db/approval_repository.go: approval records and the status of a budget.
use quota_management.Prelude.{ℕ, ◌+◌, Bool, ◌∷◌, ◌==◌, if◌then◌else◌}
use quota_management.Models.Budget.{BudgetDefinition, BudgetApproval, ApprovalStatus}
use quota_management.Db.World.{not_found, M, ok, err, ◌>>=◌, lift, pool, exec}
use quota_management.Db.Budgets.{has_id, update_budgets}

unfoldable pub create_budget_approval : BudgetApproval → M (Unit {0})
create_budget_approval a = pool (exec (λ t. record t { approvals = a ∷ t.approvals }))

-- The row of `UpdateBudgetApprovalStatus`.
abbrev pub with_status : ApprovalStatus → Bool → BudgetDefinition → BudgetDefinition
with_status s rejected b = record b {
  approval_status = s;
  rejection_count = if rejected then b.rejection_count + 1 else b.rejection_count;
}

-- The update has the id alone for a condition, not the status that the handler has read.
unfoldable pub update_budget_approval_status : ℕ → ApprovalStatus → Bool → M (Unit {0})
update_budget_approval_status i s rejected = do
  n ← pool (update_budgets (has_id i) (with_status s rejected))
  lift (if n == 0 then err not_found else ok tt)
