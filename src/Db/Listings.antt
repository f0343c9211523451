-- ===== src/Db/Listings.antt =====
-- internal/db/repository.go: the listings by pages. Rows that a listing orders by `created_at` stand
-- in the order of insertion; rows that are equal for an order are in the order of the table.
use quota_management.Prelude.{
  ℕ, String, Bool, true, false, ◌&&◌, ◌||◌, not, Option, none, some, List, length, take, drop,
  reverse, find_first, select, str_eq, ltb, is_some, ◌==◌, if◌then◌else◌,
}
use quota_management.Models.Budget.{
  ApprovalStatus, pending, BudgetApproval, BudgetDefinition, ModelCost, UsageRecord,
}
use quota_management.Db.World.{M, Tables, ◌>>=◌, pure, pool, query}
use quota_management.Db.Order.{order_by}
use quota_management.Db.Budgets.{is_approved, has_id}
use quota_management.Db.Usage.{usage_of}
use quota_management.Auth.Rbac.{is_empty}

-- Two statements: the count, and one page of the ordered rows.
unfoldable pub paginated {ℓ} :
    {A : Type ℓ} → (Tables → List A) → (List A → List A) → ℕ → ℕ → M (List A × ℕ)
paginated rows order offset limit = do
  total ← pool (query (λ t. length (rows t)))
  page ← pool (query (λ t. take limit (drop offset (order (rows t)))))
  pure (page, total)

pub record BudgetListFilter : Type 0 where
  pub org_id : String
  pub team_id : String
  pub user_id : String
  pub is_org : Bool
  pub is_team_admin : Bool
  pub enabled_only : Bool

abbrev pub awaits_approval : ApprovalStatus → Bool
awaits_approval pending = true
awaits_approval _ = false

-- `column = $n`, which a NULL is not.
abbrev pub holds_text : Option String → String → Bool
holds_text none s = false
holds_text (some t) s = str_eq t s

abbrev pub unowned : BudgetDefinition → Bool
unowned b = not (is_some b.owner_org_id) && not (is_some b.owner_team_id)

-- The condition on the owner. Where none of the cases applies, every budget is listed.
abbrev pub owner_listed : BudgetListFilter → BudgetDefinition → Bool
owner_listed f b =
    if is_empty f.org_id
    then false
    else if f.is_org
    then holds_text b.owner_org_id f.org_id || unowned b
    else if not (is_empty f.user_id) && not f.is_team_admin
    then holds_text b.owner_user_id f.user_id
    else if f.is_team_admin && not (is_empty f.team_id)
    then holds_text b.owner_team_id f.team_id || holds_text b.owner_org_id f.org_id
    else if not (is_empty f.team_id)
    then holds_text b.owner_team_id f.team_id || unowned b
    else true

abbrev pub is_listed : BudgetListFilter → BudgetDefinition → Bool
is_listed f b =
    is_approved b.approval_status && (owner_listed f b && (not f.enabled_only || b.enabled))

abbrev pub list_budgets_paginated : BudgetListFilter → ℕ → ℕ → M (List BudgetDefinition × ℕ)
list_budgets_paginated f = paginated (λ t. select (is_listed f) t.budgets) reverse

pub data CostOrder : Type 0 where
  by_date by_input by_output by_both : CostOrder

abbrev directed : Bool → ℕ → ℕ → Bool
directed descending a b = if descending then ltb b a else ltb a b

abbrev pub order_costs : CostOrder → Bool → List ModelCost → List ModelCost
order_costs by_date d cs = reverse cs
order_costs by_input d cs =
    order_by (λ a b. directed d a.input_cost_per_million b.input_cost_per_million) cs
order_costs by_output d cs =
    order_by (λ a b. directed d a.output_cost_per_million b.output_cost_per_million) cs
order_costs by_both d cs =
    order_by
      (λ a b.
        directed d a.input_cost_per_million b.input_cost_per_million
        || ((a.input_cost_per_million == b.input_cost_per_million)
            && directed d a.output_cost_per_million b.output_cost_per_million))
      cs

abbrev pub of_provider : String → ModelCost → Bool
of_provider p c = is_empty p || str_eq c.provider p

abbrev pub list_model_costs_paginated : String → CostOrder → Bool → ℕ → ℕ → M (List ModelCost × ℕ)
list_model_costs_paginated p o d =
    paginated (λ t. select (of_provider p) t.model_costs) (order_costs o d)

-- The table has the newest records first.
abbrev pub get_usage_by_budget_id_paginated : ℕ → ℕ → ℕ → M (List UsageRecord × ℕ)
get_usage_by_budget_id_paginated i = paginated (λ t. select (usage_of i) t.usage_records) (λ us. us)

-- `ListPendingApprovals` of the budgets: oldest first, as in the table.
abbrev pub is_pending_of : String → BudgetDefinition → Bool
is_pending_of org b =
    awaits_approval b.approval_status && (is_empty org || holds_text b.owner_org_id org)

abbrev pub list_pending_approvals : String → ℕ → ℕ → M (List BudgetDefinition × ℕ)
list_pending_approvals org = paginated (λ t. select (is_pending_of org) t.budgets) (λ rows. rows)

unfoldable pub count_pending_approvals : String → M ℕ
count_pending_approvals org = pool (
    query (λ t.
      length (
        select (λ b. awaits_approval b.approval_status && holds_text b.owner_org_id org)
          t.budgets)))

-- `ListAllApprovalHistory`: the records of budgets that are there, newest first as in the table.
abbrev pub owned_by_caller : String → String → BudgetDefinition → Bool
owned_by_caller org team b =
    if not (is_empty team)
    then holds_text b.owner_team_id team
    else is_empty org || holds_text b.owner_org_id org

abbrev pub in_history : String → String → List BudgetDefinition → BudgetApproval → Bool
in_history org team bs a =
    is_some (find_first (λ b. has_id a.budget_id b && owned_by_caller org team b) bs)

abbrev pub list_all_approval_history : String → String → ℕ → ℕ → M (List BudgetApproval × ℕ)
list_all_approval_history org team =
    paginated (λ t. select (in_history org team t.budgets) t.approvals) (λ rows. rows)

-- `ListApprovalHistory` of one budget, by attempts and then by time.
unfoldable pub list_approval_history : ℕ → M (List BudgetApproval)
list_approval_history i = pool (
    query (λ t.
      order_by (λ a b. ltb a.attempt_number b.attempt_number)
        (reverse (select (λ a. a.budget_id == i) t.approvals))))
