-- ===== src/Api/Budgets/Delete.antt =====
-- internal/api/handlers.go: `DeleteBudget` and `ResetBudget`.
pub mod Gone
use quota_management.Prelude.{
  ℕ, ◌≡◌, Bool, true, false, ◌&&◌, not, Option, none, some, List, [], ◌∷◌, if◌then◌else◌,
}
use quota_management.Models.Budget.{BudgetDefinition}
use quota_management.Db.World.{
  Error, not_found, Result, ok, err, World, M, ◌>>=◌, ◌>>◌, pure, attempt,
}
use quota_management.Db.Budgets.{
  get_budget_by_id, get_child_budgets, delete_budget, reset_budget_usage,
}
use quota_management.Db.Cascade.{delete_budget_cascade}
use quota_management.Api.Approvals.{with_budget}

-- The response to the end of an operation: the given status, or that of the error.
abbrev pub responded {ℓ} : {A : Type ℓ} → ℕ → Result A → M ℕ
responded code (ok a) = pure code
responded code (err not_found) = pure 404
responded code (err e) = pure 500

-- With children a budget is deleted only where the request asks for the cascade.
abbrev pub delete_with : Bool → ℕ → List BudgetDefinition → M ℕ
delete_with cascade i [] = do done ← attempt (delete_budget i); responded 204 done
delete_with cascade i (c ∷ cs) =
    if cascade then (do done ← attempt (delete_budget_cascade i); responded 204 done) else pure 409

abbrev pub with_children : Bool → ℕ → Result (List BudgetDefinition) → M ℕ
with_children cascade i (ok cs) = delete_with cascade i cs
with_children cascade i (err e) = pure 500

unfoldable pub delete_budget_request : Option ℕ → Bool → M ℕ
delete_budget_request none cascade = pure 400
delete_budget_request (some i) cascade = do
  found ← attempt (get_budget_by_id i)
  with_budget found
      λ b. do children ← attempt (get_child_budgets i); with_children cascade i children

unfoldable pub reset_budget_request : Option ℕ → M ℕ
reset_budget_request none = pure 400
reset_budget_request (some i) = do
  found ← attempt (get_budget_by_id i)
  with_budget found λ b. do done ← attempt (reset_budget_usage i); responded 200 done
