-- ===== src/Api/Budgets/Update.antt =====
-- internal/api/handlers.go: `UpdateBudget` and `disableNonIsolatedChildren`.
pub mod Lock
pub mod Stored
pub mod Writes
use quota_management.Prelude.{
  ℕ, String, ◌≡◌, Bool, true, false, ◌&&◌, ◌||◌, not, Option, none, some, List, [], ◌∷◌, ltb,
  if◌then◌else◌,
}
use quota_management.Prelude.Int.{ℤ, pos, ltb_ℤ}
use quota_management.Models.Budget.{BudgetDefinition, BudgetPeriod}
use quota_management.Db.World.{
  Error, not_found, optimistic_lock, Result, ok, err, World, M, ◌>>=◌, ◌>>◌, pure, gets, attempt,
}
use quota_management.Db.Budgets.{get_budget_by_id, get_child_budgets, update_budget}
use quota_management.Auth.Identity.{Identity}
use quota_management.Auth.Rbac.{is_empty}
use quota_management.Api.Approvals.{with_budget}
use quota_management.Api.Budgets.{CreateBudgetRequest, or_else, too_short, exceeds_parent}
use quota_management.Api.Budgets.Create.{setting, found_parent}

-- The settings before the access checks. An amount counts where it is positive.
unfoldable pub with_settings : CreateBudgetRequest → BudgetDefinition → BudgetDefinition
with_settings req b = record b {
  match_expression =
      if is_empty req.match_expression then b.match_expression else req.match_expression;
  budget_amount_usd =
      if ltb_ℤ (pos 0) req.budget_amount_usd then req.budget_amount_usd else b.budget_amount_usd;
  period = or_else b.period req.period;
  custom_period_seconds = kept_length b.custom_period_seconds req.custom_period_seconds;
  warning_threshold_pct = or_else b.warning_threshold_pct req.warning_threshold_pct;
  parent_id = new_parent b.parent_id req.parent_id;
}
  where
    kept_length : Option ℕ → Option ℕ → Option ℕ
    kept_length before none = before
    kept_length before (some n) = some n

    new_parent : Option ℕ → Option (Option ℕ) → Option ℕ
    new_parent before none = before
    new_parent before (some asked) = asked

-- A length below an hour is refused for every period, and the period after the changes needs one.
abbrev length_refused : Option ℕ → Bool
length_refused none = false
length_refused (some n) = ltb n 3600

abbrev parent_refused : Option (Option ℕ) → Bool
parent_refused none = false
parent_refused (some none) = true
parent_refused (some (some p)) = false

abbrev pub settings_refused : CreateBudgetRequest → BudgetDefinition → Bool
settings_refused req b =
    length_refused req.custom_period_seconds
    || (too_short b.period b.custom_period_seconds || parent_refused req.parent_id)

abbrev pub can_enable_budget : BudgetDefinition → Identity → Bool
can_enable_budget b i = if b.enabled then true else not (b.disabled_by_is_org && not i.is_org)

abbrev pub may_enable : Option Identity → BudgetDefinition → Bool
may_enable none b = true
may_enable (some i) b = can_enable_budget b i

abbrev pub enabled_row : BudgetDefinition → BudgetDefinition
enabled_row b = record b {
  enabled = true;
  disabled_by_user_id = none;
  disabled_by_email = none;
  disabled_by_is_org = false;
  disabled_at = none;
}

-- A caller without an identity leaves no trace of who has disabled the budget.
abbrev pub disabled_row : Option Identity → ℕ → BudgetDefinition → BudgetDefinition
disabled_row none now b = record b { enabled = false }
disabled_row (some i) now b = record b {
  enabled = false;
  disabled_by_user_id = some i.subject;
  disabled_by_email = some i.email;
  disabled_by_is_org = i.is_org;
  disabled_at = some now;
}

-- The budget with the switch set as the request asks, or `none` where the caller may not enable it.
-- That it is disabled already is not looked at.
unfoldable pub set_enabled :
    Option Identity → Option Bool → ℕ → BudgetDefinition → Option BudgetDefinition
set_enabled who none now b = some b
set_enabled who (some true) now b =
    if b.enabled then some b else if may_enable who b then some (enabled_row b) else none
set_enabled who (some false) now b = some (disabled_row who now b)

abbrev pub disabled_child : Identity → ℕ → BudgetDefinition → BudgetDefinition
disabled_child i now b = record b {
  enabled = false;
  disabled_by_user_id = some i.subject;
  disabled_by_email = some i.email;
  disabled_by_is_org = true;
  disabled_at = some now;
}

-- The loop: a child that is isolated or disabled is skipped, and a failure is logged alone.
unfoldable pub disable_each : Identity → List BudgetDefinition → M (Unit {0})
disable_each i [] w = pure tt w
disable_each i (b ∷ bs) w =
    (let rest = disable_each i bs in
        if b.isolated || not b.enabled
        then rest
        else attempt (update_budget (disabled_child i w.now b)) >> rest)
      w

unfoldable pub disable_non_isolated_children : ℕ → Identity → M (Unit {0})
disable_non_isolated_children i who = do children ← get_child_budgets i; disable_each who children

-- The children are disabled before the budget itself is written, where an administrator of an
-- organisation disables it; an error is logged alone.
abbrev pub cascade : Option Identity → Option Bool → ℕ → M (Unit {0})
cascade (some who) (some false) i =
    if who.is_org then attempt (disable_non_isolated_children i who) >> pure tt else pure tt
cascade _ _ i = pure tt

abbrev new_owner : Option String → Option String → Option String
new_owner none before = before
new_owner (some s) before = if is_empty s then none else some s

-- What the request sets after the switch.
unfoldable pub with_owners : CreateBudgetRequest → BudgetDefinition → BudgetDefinition
with_owners req b = record b {
  description = kept_text b.description req.description;
  version = or_else b.version req.version;
  owner_org_id = new_owner req.owner_org_id b.owner_org_id;
  owner_team_id = new_owner req.owner_team_id b.owner_team_id;
  owner_user_id = new_owner req.owner_user_id b.owner_user_id;
}
  where
    kept_text : Option String → Option String → Option String
    kept_text before none = before
    kept_text before (some s) = some s

abbrev pub with_flags : CreateBudgetRequest → Option Identity → BudgetDefinition → BudgetDefinition
with_flags req who b = record b {
  isolated = setting who b.entity_type req.isolated b.isolated;
  allow_fallback = setting who b.entity_type req.allow_fallback b.allow_fallback;
}

abbrev pub written : Result (Unit {0}) → M ℕ
written (ok _) = pure 200
written (err optimistic_lock) = pure 409
written (err _) = pure 500

abbrev pub parent_at : Option ℕ → M (Option BudgetDefinition)
parent_at none = pure none
parent_at (some p) = do found ← attempt (get_budget_by_id p); pure (found_parent found)

-- The comparison with the parent, which an error of the search leaves out, and the row.
unfoldable pub write_budget : BudgetDefinition → M ℕ
write_budget b = do
  parent ← if b.isolated then pure none else parent_at b.parent_id
  if exceeds_parent parent b then pure 400 else (do done ← attempt (update_budget b); written done)

abbrev pub switched : CreateBudgetRequest → Option Identity → ℕ → Option BudgetDefinition → M ℕ
switched req who i none = pure 403
switched req who i (some b) = cascade who req.enabled i >> write_budget (with_owners req b)

unfoldable pub update_found : CreateBudgetRequest → Option Identity → ℕ → BudgetDefinition → M ℕ
update_found req who i b w =
    (if settings_refused req (with_settings req b)
        then pure 400
        else switched req who i
            (set_enabled who req.enabled w.now (with_flags req who (with_settings req b))))
      w

abbrev with_body : Option CreateBudgetRequest → Option Identity → ℕ → BudgetDefinition → M ℕ
with_body none who i b = pure 400
with_body (some req) who i b = update_found req who i b

-- `UpdateBudget`. No check compares the caller with the owners of the budget.
unfoldable pub update_budget_request : Option ℕ → Option CreateBudgetRequest → Option Identity → M ℕ
update_budget_request none body who = pure 400
update_budget_request (some i) body who = do
  found ← attempt (get_budget_by_id i)
  with_budget found (with_body body who i)
