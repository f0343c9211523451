-- ===== src/Alert.antt =====
-- internal/alert/service.go: the conditions of the alerts and the check that a timer makes. Ratios
-- are compared by cross-multiplication, so nothing is rounded; the threshold of the forecast is in
-- whole days.
pub mod Once
pub mod Conditions
use quota_management.Prelude.{
  ℕ, zero, suc, ◌+◌, ◌-◌, ◌*◌, ◌≡◌, Bool, true, false, ◌&&◌, Option, none, some, List, [], ◌∷◌, ltb,
  leb, if◌then◌else◌,
}
use quota_management.Prelude.Int.{ℤ, pos, negsuc, ltb_ℤ}
use quota_management.Models.Calendar.{day}
use quota_management.Models.Budget.{BudgetDefinition}
use quota_management.Models.Period.{next_period_start}
use quota_management.Models.Alert.{
  BudgetAlert, AlertType, threshold_warning, budget_exhausted, forecast_overrun,
  forecast_exhaustion, active,
}
use quota_management.Db.World.{World, M, Result, ◌>>=◌, ◌>>◌, pure, attempt}
use quota_management.Db.Alerts.{insert_alert_if_not_exists}
use quota_management.Db.Budgets.{get_enabled_budgets}
use quota_management.Db.Usage.{get_current_period_usage}

unfoldable pub eval_threshold_warning : ℕ → ℤ → ℕ → Bool
eval_threshold_warning usage (pos zero) pct = false
eval_threshold_warning usage (pos (suc n)) pct = leb (pct * suc n) (usage * 100)
eval_threshold_warning usage (negsuc n) pct = false

unfoldable pub eval_budget_exhausted : ℕ → ℤ → Bool
eval_budget_exhausted usage (pos zero) = false
eval_budget_exhausted usage (pos (suc n)) = leb (suc n) usage
eval_budget_exhausted usage (negsuc n) = false

-- Whether the projected spend is over the amount, and whether the budget runs out within the
-- threshold.
pub record Forecast : Type 0 where
  pub overrun : Bool
  pub exhaustion : Bool

abbrev forecast : Bool → Bool → Forecast
forecast over soon = record { overrun = over; exhaustion = soon }

-- The projected spend times the elapsed time.
abbrev projected : ℕ → ℕ → ℕ → ℕ → ℕ
projected usage elapsed total remaining = usage * elapsed + total * remaining

-- The amount that is left lasts for less than the threshold at the rate so far.
abbrev soon_gone : ℕ → ℕ → ℕ → ℕ → ℕ → Bool
soon_gone amount usage elapsed total days =
    if leb amount usage then ltb 0 days else ltb ((amount - usage) * elapsed) (days * (total * day))

-- `computeAlertForecast` and `evalForecastExhaustion`: with no time elapsed or nothing used the
-- projected spend is the usage, and the budget does not run out.
unfoldable pub compute_alert_forecast : ℕ → ℤ → ℕ → ℕ → ℕ → ℕ → ℕ → Forecast
compute_alert_forecast usage amount start end total now days =
    let elapsed = now - start in
    let remaining = end - now in
    let idle : Forecast = record { overrun = ltb_ℤ amount (pos usage); exhaustion = false } in
    let running : Forecast = elim amount [
      | pos a ↦
          let over = ltb (a * elapsed) (projected usage elapsed total remaining) in
          forecast over (over && soon_gone a usage elapsed total days)
      | negsuc a ↦ forecast true (ltb 0 days)
    ] in
    if ltb 0 elapsed && ltb 0 total then running else idle

abbrev pub alert_for : BudgetDefinition → AlertType → Option ℕ → BudgetAlert
alert_for b kind pct = record {
  id = 0;
  budget_id = b.id;
  alert_type = kind;
  status = active;
  triggered_usage_usd = b.current_usage_usd;
  budget_amount_usd = b.budget_amount_usd;
  threshold_pct = pct;
  dismissed_by_user_id = none;
  dismissed_at = none;
  resolved_at = none;
  period_start = b.current_period_start;
}

abbrev pub insert_if : Bool → BudgetAlert → M (Result (Unit {0}))
insert_if fired a = attempt (if fired then insert_alert_if_not_exists a else pure tt)

-- The alerts that have fired; a failure of an insertion is logged.
abbrev pub raise : BudgetDefinition → Forecast → M (Unit {0})
raise b f = do
  insert_if (eval_threshold_warning b.current_usage_usd b.budget_amount_usd b.warning_threshold_pct)
      (alert_for b threshold_warning (some b.warning_threshold_pct))
  insert_if (eval_budget_exhausted b.current_usage_usd b.budget_amount_usd)
      (alert_for b budget_exhausted none)
  insert_if f.overrun (alert_for b forecast_overrun none)
  insert_if f.exhaustion (alert_for b forecast_exhaustion none)
  pure tt

-- `checkBudget`
abbrev pub check_budget_alerts : ℕ → ℕ → BudgetDefinition → M (Unit {0})
check_budget_alerts days now b = do
  total ← get_current_period_usage b.id b.current_period_start
  raise b (
      compute_alert_forecast b.current_usage_usd b.budget_amount_usd b.current_period_start
        (next_period_start b) total now days)

unfoldable pub check_each : ℕ → ℕ → List BudgetDefinition → M (Unit {0})
check_each days now [] w = pure tt w
check_each days now (b ∷ bs) w =
    (do attempt (check_budget_alerts days now b); check_each days now bs) w

unfoldable pub check_and_update_alerts : ℕ → M (Unit {0})
check_and_update_alerts days w = (do bs ← get_enabled_budgets; check_each days w.now bs) w
