-- ===== src/Models/Budget.antt =====
-- internal/models/models.go and approval.go: budgets, usage records, reservations, model costs.
use quota_management.Prelude.{ℕ, String, Bool, Option}
use quota_management.Prelude.Int.{ℤ, pos, ◌-ℤ◌}

pub data BudgetPeriod : Type 0 where
  hourly daily weekly monthly custom : BudgetPeriod

-- The column's enum has no other value.
pub data EntityType : Type 0 where
  org team user : EntityType

pub data ApprovalStatus : Type 0 where
  pending approved rejected closed : ApprovalStatus

pub record ModelCost : Type 0 where
  pub model_id : String
  pub provider : String
  pub input_cost_per_million : ℕ
  pub output_cost_per_million : ℕ

pub record BudgetDefinition : Type 0 where
  pub id : ℕ
  pub entity_type : EntityType
  pub name : String
  pub match_expression : String
  pub budget_amount_usd : ℤ
  pub period : BudgetPeriod
  pub custom_period_seconds : Option ℕ
  pub warning_threshold_pct : ℕ
  pub parent_id : Option ℕ
  pub isolated : Bool
  pub allow_fallback : Bool
  pub enabled : Bool
  pub disabled_by_user_id : Option String
  pub disabled_by_email : Option String
  pub disabled_by_is_org : Bool
  pub disabled_at : Option ℕ
  pub current_period_start : ℕ
  pub current_usage_usd : ℕ
  pub pending_usage_usd : ℕ
  pub description : Option String
  pub owner_org_id : Option String
  pub owner_team_id : Option String
  pub owner_user_id : Option String
  pub approval_status : ApprovalStatus
  pub created_by_user_id : Option String
  pub created_by_email : Option String
  pub rejection_count : ℕ
  pub version : ℕ

pub record UsageRecord : Type 0 where
  pub budget_id : ℕ
  pub request_id : String
  pub model_id : String
  pub input_tokens : ℕ
  pub output_tokens : ℕ
  pub cost_usd : ℕ
  pub parent_charged : Bool
  pub created_at : ℕ

pub record RequestReservation : Type 0 where
  pub budget_id : ℕ
  pub request_id : String
  pub estimated_cost_usd : ℕ
  pub expires_at : ℕ
  pub created_at : ℕ

-- One approval action on a budget.
pub record BudgetApproval : Type 0 where
  pub budget_id : ℕ
  pub attempt_number : ℕ
  pub action : String
  pub actor_user_id : String
  pub actor_email : String
  pub reason : String

-- `CalculateRemaining`. It may be negative.
abbrev pub calculate_remaining : BudgetDefinition → ℤ
calculate_remaining b = b.budget_amount_usd -ℤ pos b.current_usage_usd -ℤ pos b.pending_usage_usd
