-- ===== src/Tests.antt =====
-- A small store: an organisation's budget, a team's below it, and a user's below that one.
pub mod Checks
pub mod Charges
pub mod Records
pub mod Workflow
pub mod RateLimits
pub mod Alerts
pub mod Cascade
pub mod Processing
pub mod Budgets
pub mod Allocations
pub mod Prices
pub mod Listings
use quota_management.Prelude.{
  count_where, not, ℕ, String, ◌+◌, ◌*◌, ◌-◌, ◌/◌, ◌≤◌, ◌<◌, ◌≡◌, refl, Bool, true, false, Option,
  none, some, List, [], ◌∷◌, arith, All, inl, inr, ◌⊎◌, ◌↔◌, select,
}
use mathlib.Core.List.{Perm}
use quota_management.Prelude.Int.{pos, ◌-ℤ◌}
use quota_management.Config.{default_config}
use quota_management.Models.Budget.{
  BudgetDefinition, EntityType, org, team, user, ApprovalStatus, pending, approved, daily, monthly,
  ModelCost, RequestReservation,
}
use quota_management.Models.Calendar.{hour, day}
use quota_management.Models.Period.{next_period_start, next_period_start_bounds}
use quota_management.Models.Pagination.{
  PaginationParams, parse_pagination, offset, new_pagination_meta, pagination_covers,
}
use quota_management.Db.World.{World, ok, pool, begin_tx, with_rollback, in_tx, commit}
use quota_management.Db.Unique.{UniqueIds}
use quota_management.Db.Hierarchy.{
  get_budgets_with_parent, with_parents, with_parents_total, with_parents_cycle,
}
use quota_management.Db.Reservations.{
  has_run_out, get_reservation_by_request_id, delete_reservation_in_tx,
  decrement_pending_usage_in_tx,
}
use quota_management.Budget.Sort.{
  sort_budgets_by_hierarchy, sort_budgets_lem, IsSortedFrom, of_type,
}
use quota_management.Budget.Check.{scan_budgets, track_minimum}
use quota_management.Budget.Check.Outcome.{
  HasRoom, Limits, scan_budgets_allows, scan_budgets_blames,
}
use quota_management.Budget.Reserve.{check_and_reserve_budget}
use quota_management.Budget.Reserve.Grant.{Granted}
use quota_management.Budget.Reserve.Atomic.{check_and_reserve_atomic}
use quota_management.Budget.Reserve.Balance.{Balanced, check_and_reserve-Balanced}
use quota_management.Budget.Reserve.Solvency.{Solvent, check_and_reserve-Solvent}
use quota_management.Budget.Charge.{
  Call, DecrementResult, decrement_budgets, settle_charges, charge_each, tally_after,
}
use quota_management.Budget.Pricing.{calculate_cost, get_model_cost, fetch_cost}
use quota_management.Db.ModelCosts.{get_model_cost_by_id}
use quota_management.Db.Usage.{increment_usage_in_tx, create_usage_record_in_tx}
use quota_management.Budget.Charge.Conserve.{total}
use quota_management.Budget.Charge.Settle.{Settles, decrement_budgets-Settles}
use quota_management.Budget.Charge.Total.{total-decrement_budgets}
use quota_management.Budget.Charge.Release.{decrement_budgets-Released}
use quota_management.Budget.Charge.Pending.{Released}
use quota_management.Budget.Maintenance.{cleanup_expired}
use quota_management.Alert.{check_and_update_alerts}
use quota_management.Alert.Once.{Extends, check_and_update_alerts-Extends}
use quota_management.Auth.Identity.{Identity}
use quota_management.Auth.Rbac.{can_view_budget, can_approve_or_reject_views}
use quota_management.Api.Approvals.History.{
  Request, approve_request, reject_request, resubmit_request, handle, handle_all, handle-AllMove,
  handle_all-InWorkflow, InWorkflow,
}
use quota_management.Api.Approvals.Workflow.{AllMove}

abbrev pub usd : ℕ
usd = 10_000_000_000_000_000

abbrev pub budget : ℕ → EntityType → String → ℕ → Option ℕ → ApprovalStatus → BudgetDefinition
budget i e n amount parent status = record {
  id = i;
  entity_type = e;
  name = n;
  match_expression = "true";
  budget_amount_usd = pos (amount * usd);
  period = daily;
  custom_period_seconds = none;
  warning_threshold_pct = 80;
  parent_id = parent;
  isolated = false;
  allow_fallback = false;
  enabled = true;
  disabled_by_user_id = none;
  disabled_by_email = none;
  disabled_by_is_org = false;
  disabled_at = none;
  current_period_start = 0;
  current_usage_usd = 0;
  pending_usage_usd = 0;
  description = none;
  owner_org_id = some "acme";
  owner_team_id = some "core";
  owner_user_id = none;
  approval_status = status;
  created_by_user_id = some "ann";
  created_by_email = none;
  rejection_count = 0;
  version = 1;
}

abbrev pub org_budget : BudgetDefinition
org_budget = budget 1 org "acme" 10 none approved

abbrev pub team_budget : BudgetDefinition
team_budget = budget 2 team "core" 2 (some 1) approved

abbrev pub user_budget : BudgetDefinition
user_budget = budget 3 user "ann" 1 (some 2) approved

abbrev pub reserved_team : BudgetDefinition
reserved_team = record team_budget { pending_usage_usd = 5 }

abbrev pub reservation : RequestReservation
reservation = record {
  budget_id = 2;
  request_id = "r1";
  estimated_cost_usd = 5;
  expires_at = 400;
  created_at = 100;
}

-- $1 and $3 per million tokens.
abbrev pub price : ModelCost
price = record {
  model_id = "gpt-4o";
  provider = "openai";
  input_cost_per_million = 10_000_000_000;
  output_cost_per_million = 30_000_000_000;
}

abbrev pub world : List BudgetDefinition → List RequestReservation → List Bool → World
world bs rs faults = record {
  tables = record {
    model_costs = price ∷ [];
    budgets = bs;
    reservations = rs;
    usage_records = [];
    approvals = [];
    alerts = [];
    allocations = [];
    allocation_approvals = [];
  };
  work = record {
    model_costs = [];
    budgets = [];
    reservations = [];
    usage_records = [];
    approvals = [];
    alerts = [];
    allocations = [];
    allocation_approvals = [];
  };
  aborted = false;
  faults = faults;
  now = 100;
  cost_cache = record { costs = []; costs_expire_at = 0 };
  budget_cache = record { cached = none; budgets_expire_at = 0 };
}

abbrev pub three : List BudgetDefinition
three = org_budget ∷ reserved_team ∷ user_budget ∷ []

abbrev pub store : World
store = world three (reservation ∷ []) []

abbrev pub matches_all : String → Option Bool
matches_all _ = some true
