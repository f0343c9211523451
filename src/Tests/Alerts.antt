-- ===== src/Tests/Alerts.antt =====
-- The conditions of alerts and their dismissal, and the pruning of usage records, at small numbers.
use quota_management.Prelude.{ℕ, ◌≡◌, refl, some, none, true, List, [], ◌∷◌, arith}
use quota_management.Prelude.Int.{pos}
use quota_management.Models.Budget.{UsageRecord}
use quota_management.Db.Usage.{create_usage_record_in_tx}
use quota_management.Db.Usage.Retention.{Retains, create_usage_record_in_tx-Retains}
use quota_management.Alert.{eval_threshold_warning, eval_budget_exhausted, compute_alert_forecast}
use quota_management.Alert.Conditions.{alert_conditions_nest}
use quota_management.Alert.{check_and_update_alerts}
use quota_management.Alert.Once.{Extends, check_and_update_alerts-Extends}
use quota_management.Db.World.{World, ok}
use quota_management.Models.Alert.{BudgetAlert, budget_exhausted, active}
use quota_management.Api.Alerts.{count_alerts, dismiss_all_alerts_request}
use quota_management.Api.Alerts.Dismissal.{seen, Untouched, dismiss_all_clears}
use quota_management.Tests.Budgets.{bob}
use quota_management.Tests.{usd, org_budget, team_budget, world}
use quota_management.Prelude.{◌*◌}

alert_conditions_nest_example :
    (eval_budget_exhausted 12 (pos 10) ≡ true → eval_threshold_warning 12 (pos 10) 80 ≡ true)
    × ((compute_alert_forecast 12 (pos 10) 0 100 12 50 3).exhaustion ≡ true
        → (compute_alert_forecast 12 (pos 10) 0 100 12 50 3).overrun ≡ true)
alert_conditions_nest_example = alert_conditions_nest 12 (pos 10) 80 0 100 12 50 3 (omega arith)

abbrev record_of : ℕ → ℕ → UsageRecord
record_of i cost = record {
  budget_id = i;
  request_id = "r";
  model_id = "gpt-4o";
  input_tokens = 1;
  output_tokens = 1;
  cost_usd = cost;
  parent_charged = true;
  created_at = 0;
}

abbrev four : List UsageRecord
four = record_of 1 10 ∷ record_of 2 20 ∷ record_of 1 30 ∷ record_of 1 40 ∷ []

-- A transaction that sees the four records.
abbrev metered : World
metered = record base { work = record base.work { usage_records = four } }
  where
    base : World
    base = world (org_budget ∷ []) [] []

create_usage_record_in_tx-Retains_example :
    let r = create_usage_record_in_tx (record_of 1 50) metered in
    (r.0 ≡ ok tt)
    × (r.1.tables ≡ metered.tables)
    × (r.1.work ≡ record metered.work { usage_records = r.1.work.usage_records })
    × Retains (record_of 1 50) metered.work.usage_records r.1.work.usage_records
create_usage_record_in_tx-Retains_example =
    create_usage_record_in_tx-Retains (record_of 1 50) metered refl refl refl

-- The team has used all of its amount.
abbrev exhausted : World
exhausted = world (org_budget ∷ record team_budget { current_usage_usd = 2 * usd } ∷ []) [] []

abbrev warned : BudgetAlert
warned = record {
  id = 1;
  budget_id = 2;
  alert_type = budget_exhausted;
  status = active;
  triggered_usage_usd = 2 * usd;
  budget_amount_usd = pos (2 * usd);
  threshold_pct = none;
  dismissed_by_user_id = none;
  dismissed_at = none;
  resolved_at = none;
  period_start = 0;
}

abbrev alerted : World
alerted = record exhausted { tables = record exhausted.tables { alerts = warned ∷ [] } }

dismiss_all_clears_example :
    ((dismiss_all_alerts_request (some bob) alerted).0 ≡ (count_alerts (some bob) alerted).0)
    × ((count_alerts (some bob) (dismiss_all_alerts_request (some bob) alerted).1).0
        ≡ ok (200, some 0))
    × Untouched
        (seen (some bob) alerted.tables.budgets)
        alerted.tables.alerts
        (dismiss_all_alerts_request (some bob) alerted).1.tables.alerts
dismiss_all_clears_example = dismiss_all_clears (some bob) alerted refl

-- The team has an alert before the check.
check_and_update_alerts-Extends_example :
    Extends alerted.tables.alerts (check_and_update_alerts 3 alerted).1.tables
check_and_update_alerts-Extends_example = check_and_update_alerts-Extends 3 alerted (refl, tt)
