-- ===== src/Api/Listings.antt =====
-- internal/api/handlers.go: `ListBudgets`, `ListModelCosts` and `GetBudgetUsage`.
pub mod Approvals
pub mod Pages
use quota_management.Prelude.{
  ℕ, String, Bool, true, false, ◌||◌, Option, none, some, List, if◌then◌else◌,
}
use quota_management.Models.Budget.{BudgetDefinition, ModelCost, UsageRecord}
use quota_management.Models.Pagination.{
  PaginationParams, PaginationMeta, parse_pagination, offset, new_pagination_meta,
}
use quota_management.Db.World.{Result, ok, err, M, ◌>>=◌, pure, attempt}
use quota_management.Db.Listings.{
  BudgetListFilter, CostOrder, list_budgets_paginated, list_model_costs_paginated,
  get_usage_by_budget_id_paginated,
}
use quota_management.Auth.Identity.{Identity}
use quota_management.Api.Budgets.{is_regular_user}

-- A page of rows, or the status of an error.
pub data Answer {ℓ} (A : Type ℓ) : Type ℓ where
  shown : List A → PaginationMeta → Answer A
  refused : ℕ → Answer A

abbrev pub respond {ℓ} : {A : Type ℓ} → PaginationParams → Result (List A × ℕ) → M (Answer A)
respond p (ok (rows, total)) = pure (shown rows (new_pagination_meta p total))
respond p (err e) = pure (refused 500)

-- The listing is a function of the offset and the limit.
abbrev pub show_page {ℓ} : {A : Type ℓ} → PaginationParams → (ℕ → ℕ → M (List A × ℕ)) → M (Answer A)
show_page p listing = do r ← attempt (listing (offset p) p.page_size); respond p r

-- Only a regular user's filter has a user.
abbrev pub filter_of : Option Identity → Bool → BudgetListFilter
filter_of none enabled = record {
  org_id = "";
  team_id = "";
  user_id = "";
  is_org = false;
  is_team_admin = false;
  enabled_only = enabled;
}
filter_of (some i) enabled = record {
  org_id = i.org_id;
  team_id = i.team_id;
  user_id = if i.is_org || i.is_team_admin then "" else i.user_id;
  is_org = i.is_org;
  is_team_admin = i.is_team_admin;
  enabled_only = enabled;
}

unfoldable pub list_budgets :
    Option ℕ → Option ℕ → Bool → Option Identity → M (Answer BudgetDefinition)
list_budgets page size enabled who =
    show_page (parse_pagination page size) (list_budgets_paginated (filter_of who enabled))

unfoldable pub list_model_costs :
    Option ℕ → Option ℕ → String → CostOrder → Bool → Option Identity → M (Answer ModelCost)
list_model_costs page size provider order descending none = pure (refused 401)
list_model_costs page size provider order descending (some i) =
    if is_regular_user (some i)
    then pure (refused 403)
    else show_page (parse_pagination page size)
        (list_model_costs_paginated provider order descending)

unfoldable pub get_budget_usage : Option ℕ → Option ℕ → Option ℕ → M (Answer UsageRecord)
get_budget_usage none page size = pure (refused 400)
get_budget_usage (some i) page size =
    show_page (parse_pagination page size) (get_usage_by_budget_id_paginated i)
