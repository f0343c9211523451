-- ===== src/Api/Budgets/Update/Lock.antt =====
-- internal/api/handlers.go: who may switch a budget on again (`canEnableBudget`).
use quota_management.Prelude.{ℕ, ◌≡◌, true, false}
use quota_management.Models.Budget.{BudgetDefinition}
use quota_management.Db.World.{World}
use quota_management.Db.Budgets.{has_id}
use quota_management.Auth.Identity.{Identity}

-- The budget is disabled; and an administrator of an organisation has disabled it.
abbrev pub IsOff : ℕ → BudgetDefinition → Type 0
IsOff i b = has_id i b ≡ true → b.enabled ≡ false

abbrev pub IsLocked : ℕ → BudgetDefinition → Type 0
IsLocked i b = has_id i b ≡ true → (b.enabled ≡ false) × (b.disabled_by_is_org ≡ true)
