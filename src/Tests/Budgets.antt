-- ===== src/Tests/Budgets.antt =====
-- internal/api/handlers.go: requests on the budgets of the small store.
use quota_management.Prelude.{◌≡◌, refl, true, false, none, some, [], ◌∷◌}
use quota_management.Prelude.Int.{pos}
use quota_management.Models.Budget.{BudgetDefinition, user, daily}
use quota_management.Db.World.{World, ok, pool, begin_tx, with_rollback, in_tx, commit}
use quota_management.Db.Budgets.{get_budget_by_id, get_child_budgets}
use quota_management.Db.Cascade.{
  delete_budget_cascade, get_all_descendants, descendants, delete_each,
}
use quota_management.Auth.Identity.{Identity}
use quota_management.Api.Budgets.{CreateBudgetRequest}
use quota_management.Api.Budgets.Create.{create_budget_request}
use quota_management.Api.Budgets.Create.Adds.{Draws, create_budget_request-Adds}
use quota_management.Api.Budgets.Create.Rows.{Adds}
use quota_management.Api.Budgets.Update.{update_budget_request}
use quota_management.Api.Budgets.Update.Writes.{Asked, update_budget_request-Writes}
use quota_management.Api.Budgets.Update.Stored.{Writes}
use quota_management.Api.Budgets.Delete.{delete_budget_request}
use quota_management.Api.Budgets.Delete.Gone.{Deletes, delete_budget_request-Deletes}
use quota_management.Tests.{usd, org_budget, team_budget, user_budget, store, world}

-- A regular user, who is no administrator.
abbrev pub bob : Identity
bob = record {
  subject = "bob";
  email = "bob@acme";
  org_id = "acme";
  team_id = "core";
  is_org = false;
  is_team_admin = false;
  user_id = "bob";
}

abbrev ask_child : CreateBudgetRequest
ask_child = record {
  entity_type = some user;
  name = "bob";
  match_expression = "true";
  budget_amount_usd = pos usd;
  period = some daily;
  custom_period_seconds = none;
  warning_threshold_pct = none;
  parent_id = some (some 2);
  isolated = none;
  allow_fallback = none;
  enabled = none;
  description = none;
  version = none;
  owner_org_id = none;
  owner_team_id = none;
  owner_user_id = none;
}

abbrev switch_on : CreateBudgetRequest
switch_on = record ask_child { parent_id = none; enabled = some true; version = some 1 }

abbrev locked : BudgetDefinition
locked = record user_budget { enabled = false; disabled_by_is_org = true }

abbrev locked_store : World
locked_store = world (org_budget ∷ team_budget ∷ locked ∷ []) [] []

create_budget_request-Adds_example :
    Adds
      (λ row.
        (req : CreateBudgetRequest) × ((some ask_child ≡ some req)
          × Draws 4 req (some bob) store row))
      store.tables
      (create_budget_request 4 (some ask_child) (some bob) store)
create_budget_request-Adds_example = create_budget_request-Adds 4 (some ask_child) (some bob) store

update_budget_request-Writes_example :
    Writes
      (Asked 3 switch_on (some bob) store.tables)
      store.tables
      (update_budget_request (some 3) (some switch_on) (some bob) store)
update_budget_request-Writes_example =
    update_budget_request-Writes 3 switch_on (some bob) store refl

delete_budget_request-Deletes_example :
    Deletes true 1 store.tables (delete_budget_request (some 1) true store)
delete_budget_request-Deletes_example = delete_budget_request-Deletes 1 true store

deleted : (delete_budget_request (some 1) true store).0 ≡ ok 204
unfolding delete_budget_request get_budget_by_id pool get_child_budgets delete_budget_cascade
    get_all_descendants descendants begin_tx with_rollback delete_each in_tx commit
deleted = refl

refused : (delete_budget_request (some 1) false store).0 ≡ ok 409
unfolding delete_budget_request get_budget_by_id pool get_child_budgets
refused = refl
