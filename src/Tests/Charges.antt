-- ===== src/Tests/Charges.antt =====
-- Charges and the cleanup of reservations on the small store.
use quota_management.Prelude.{◌*◌, ◌≡◌, refl, none, some, [], ◌∷◌, inl, inr}
use quota_management.Prelude.Int.{pos, ◌-ℤ◌}
use quota_management.Config.{default_config}
use quota_management.Models.Budget.{org, team}
use quota_management.Db.World.{World, ok, pool, begin_tx, with_rollback, in_tx, commit}
use quota_management.Db.Hierarchy.{get_budgets_with_parent, with_parents}
use quota_management.Db.Reservations.{
  get_reservation_by_request_id, delete_reservation_in_tx, decrement_pending_usage_in_tx,
}
use quota_management.Budget.Sort.{sort_budgets_by_hierarchy}
use quota_management.Budget.Check.{track_minimum}
use quota_management.Budget.Charge.{
  Call, DecrementResult, decrement_budgets, settle_charges, charge_each, tally_after,
}
use quota_management.Budget.Pricing.{calculate_cost, get_model_cost, fetch_cost}
use quota_management.Db.ModelCosts.{get_model_cost_by_id}
use quota_management.Db.Usage.{increment_usage_in_tx, create_usage_record_in_tx}
use quota_management.Budget.Charge.Conserve.{total}
use quota_management.Budget.Charge.Settle.{Settles, decrement_budgets-Settles}
use quota_management.Budget.Charge.Total.{total-decrement_budgets}
use quota_management.Budget.Charge.Release.{decrement_budgets-Released}
use quota_management.Budget.Charge.Pending.{Released}
use quota_management.Tests.{usd, org_budget, reserved_team, reservation, store}

abbrev pub call : Call
call = record {
  request_id = "r1";
  model_id = "gpt-4o";
  input_tokens = 1_000_000;
  output_tokens = 1_000_000;
}

decrement_budgets-Settles_example :
    Settles store.tables (decrement_budgets default_config call none store)
decrement_budgets-Settles_example = decrement_budgets-Settles default_config call none store

-- $4: the team's budget takes $2, and the organisation's the rest.
abbrev pub charged_result : DecrementResult
charged_result = record {
  actual_cost = 4 * usd;
  remaining_budget = pos (8 * usd);
  budgets_charged = 2 ∷ 1 ∷ [];
  charges =
      record { budget_id = 2; budget_name = "core"; entity_type = team; charge_amount = 2 * usd }
      ∷ record { budget_id = 1; budget_name = "acme"; entity_type = org; charge_amount = 2 * usd }
      ∷ [];
}

pub charged_run : (decrement_budgets default_config call none store).0 ≡ ok charged_result
unfolding decrement_budgets calculate_cost get_model_cost fetch_cost get_model_cost_by_id pool
    get_reservation_by_request_id get_budgets_with_parent with_parents begin_tx with_rollback
    settle_charges charge_each tally_after track_minimum sort_budgets_by_hierarchy
    increment_usage_in_tx create_usage_record_in_tx in_tx delete_reservation_in_tx
    decrement_pending_usage_in_tx commit ◌-ℤ◌
charged_run = refl

rows_run : with_parents 2 store.tables ≡ some (reserved_team ∷ org_budget ∷ [])
unfolding with_parents
rows_run = refl

total-decrement_budgets_example : total charged_result.charges ≡ charged_result.actual_cost
total-decrement_budgets_example =
    total-decrement_budgets default_config call store reservation (reserved_team ∷ org_budget ∷ [])
      charged_result refl rows_run (refl, (refl, tt)) (inr (inl refl)) charged_run

decrement_budgets-Released_example :
    Released store.tables "r1" reservation
      (decrement_budgets default_config call none store).1.tables
decrement_budgets-Released_example =
    decrement_budgets-Released default_config call none store reservation charged_result refl
      charged_run

-- The reservation runs out at 400.
abbrev later : World
later = record store { now = 500 }
