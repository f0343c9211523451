-- ===== src/Api/Budgets.antt =====
-- internal/api/handlers.go: the requests on budgets. A handler gives the status of its response.
-- Texts outside the enums of the entity type and the period, and negative lengths, are not modelled.
pub mod Create
pub mod Update
pub mod Delete
use quota_management.Prelude.{
  ℕ, String, ◌≡◌, Bool, true, false, ◌&&◌, not, Option, none, some, ltb, if◌then◌else◌,
}
use quota_management.Prelude.Int.{ℤ, ltb_ℤ}
use quota_management.Models.Budget.{BudgetDefinition, BudgetPeriod, EntityType, custom}
use quota_management.Auth.Identity.{Identity}
use quota_management.Auth.Rbac.{is_empty}

-- The decoded body. An empty entity type or period is `none`, and a parent that is no id is
-- `some none`.
pub record CreateBudgetRequest : Type 0 where
  pub entity_type : Option EntityType
  pub name : String
  pub match_expression : String
  pub budget_amount_usd : ℤ
  pub period : Option BudgetPeriod
  pub custom_period_seconds : Option ℕ
  pub warning_threshold_pct : Option ℕ
  pub parent_id : Option (Option ℕ)
  pub isolated : Option Bool
  pub allow_fallback : Option Bool
  pub enabled : Option Bool
  pub description : Option String
  pub version : Option ℕ
  pub owner_org_id : Option String
  pub owner_team_id : Option String
  pub owner_user_id : Option String

abbrev pub is_regular_user : Option Identity → Bool
is_regular_user none = false
is_regular_user (some i) = not i.is_org && not i.is_team_admin

abbrev pub caller_is_org : Option Identity → Bool
caller_is_org none = false
caller_is_org (some i) = i.is_org

abbrev pub or_else {ℓ} : {A : Type ℓ} → A → Option A → A
or_else a none = a
or_else a (some b) = b

-- `sql.NullString{String: s, Valid: s != ""}`
abbrev pub non_empty : String → Option String
non_empty s = if is_empty s then none else some s

abbrev pub is_custom : BudgetPeriod → Bool
is_custom custom = true
is_custom _ = false

-- A custom period has no length, or one below an hour.
abbrev pub too_short : BudgetPeriod → Option ℕ → Bool
too_short p none = is_custom p
too_short p (some n) = is_custom p && ltb n 3600

-- A child that is not isolated has a larger amount than its parent.
abbrev pub exceeds_parent : Option BudgetDefinition → BudgetDefinition → Bool
exceeds_parent none b = false
exceeds_parent (some p) b = not b.isolated && ltb_ℤ p.budget_amount_usd b.budget_amount_usd
