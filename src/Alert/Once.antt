-- ===== src/Alert/Once.antt =====
-- The check adds alerts, one at most for a budget, a type and a period, and changes none.
use quota_management.Prelude.{
  ℕ, ◌≡◌, refl, sym, ap, subst, Bool, false, Option, none, some, List, [], ◌∷◌, ◌++◌, find_first,
  is_some, if_split, if_lem, inl, inr,
}
use quota_management.Models.Budget.{BudgetDefinition}
use quota_management.Models.Alert.{
  BudgetAlert, active, threshold_warning, budget_exhausted, forecast_overrun, forecast_exhaustion,
}
use quota_management.Models.Period.{next_period_start}
use quota_management.Db.World.{World, Tables, M, Result, ok, err, continue}
use quota_management.Db.Keeps.{pool-tables, Keeps-query}
use quota_management.Db.Alerts.{
  next_id, same_alert, add_alert, insert_alert, insert_alert_if_not_exists,
}
use quota_management.Db.Budgets.{has_id, get_enabled_budgets}
use quota_management.Db.Usage.{get_current_period_usage}
use quota_management.Alert.{
  Forecast, raise, insert_if, alert_for, eval_threshold_warning, eval_budget_exhausted,
  compute_alert_forecast, check_budget_alerts, check_each, check_and_update_alerts,
}

-- No two alerts have one budget, type and period.
abbrev pub AlertsOnce : List BudgetAlert → Type 0
AlertsOnce [] = Unit
AlertsOnce (a ∷ rest) = (find_first (same_alert a) rest ≡ none) × AlertsOnce rest

-- The alerts of `old` are there, as they were, below new ones, and all are distinct.
abbrev pub Extends : List BudgetAlert → Tables → Type 0
Extends old t = ((new : List BudgetAlert) × (t.alerts ≡ new ++ old)) × AlertsOnce t.alerts

none_of_missing : (o : Option BudgetAlert) → is_some o ≡ false → o ≡ none
none_of_missing none h = refl
none_of_missing (some a) h = absurd (cc h)

add_alert-Extends :
    (old : List BudgetAlert) (a : BudgetAlert) (t : Tables)
    → Extends old t
    → Extends old (add_alert a t)
add_alert-Extends old a t h =
    if_split (Extends old) (is_some (find_first (same_alert a) t.alerts)) (λ _. h)
      λ fresh. (
        (record a { id = next_id t.alerts; status = active } ∷ h.0.0, rw (h.0.1) refl),
        (none_of_missing (find_first (same_alert a) t.alerts) fresh, h.1),
      )

insert_alert-Extends :
    (old : List BudgetAlert) (a : BudgetAlert) (t : Tables) (u : Unit {0}) (t' : Tables)
    → Extends old t
    → insert_alert a t ≡ some (u, t')
    → Extends old t'
insert_alert-Extends old a t u t' h =
    if_split (λ (o : Option (Unit {0} × Tables)). o ≡ some (u, t') → Extends old t')
      (is_some (find_first (has_id a.budget_id) t.budgets))
      (λ _ e.
        let e' : add_alert a t ≡ t' = cc e in subst (Extends old) e' (add_alert-Extends old a t h))
      (λ _ e. absurd (cc e))

module _ (old : List BudgetAlert) where
  abbrev Holds : World → Type 0
  Holds w = Extends old w.tables

  insert_if-Extends :
      (fired : Bool) (a : BudgetAlert) (w : World) → Holds w → Holds (insert_if fired a w).1
  unfolding insert_alert_if_not_exists
  insert_if-Extends fired a w h =
      if_lem (λ (m : M (Unit {0})). Holds (m w).1) fired
        (elim (pool-tables (insert_alert a) w) [
          | inl same ↦ subst (Extends old) (sym same) h
          | inr (u, t, e, done) ↦
              subst (Extends old) (sym done) (insert_alert-Extends old a w.tables u t h e)
        ])
        h

  raise-Extends :
      (b : BudgetDefinition) (f : Forecast) (w : World) → Holds w → Holds (raise b f w).1
  raise-Extends b f w h =
      insert_if-Extends f.exhaustion (alert_for b forecast_exhaustion none) (step₃ w) (
        insert_if-Extends f.overrun (alert_for b forecast_overrun none) (step₂ w) (
          insert_if-Extends (eval_budget_exhausted b.current_usage_usd b.budget_amount_usd)
            (alert_for b budget_exhausted none) (step₁ w)
            (insert_if-Extends
              (eval_threshold_warning b.current_usage_usd b.budget_amount_usd
                b.warning_threshold_pct)
              (alert_for b threshold_warning (some b.warning_threshold_pct)) w h)))
    where
      step₁ : World → World
      step₁ w =
          (insert_if
            (eval_threshold_warning b.current_usage_usd b.budget_amount_usd b.warning_threshold_pct)
            (alert_for b threshold_warning (some b.warning_threshold_pct)) w).1

      step₂ : World → World
      step₂ w =
          (insert_if (eval_budget_exhausted b.current_usage_usd b.budget_amount_usd)
            (alert_for b budget_exhausted none) (step₁ w)).1

      step₃ : World → World
      step₃ w = (insert_if f.overrun (alert_for b forecast_overrun none) (step₂ w)).1

  continue-Extends {ℓ} :
      {A : Type ℓ} (r : Result A) (f : A → M (Unit {0})) (w : World)
      → Holds w
      → ((a : A) → Holds (f a w).1)
      → Holds (continue r f w).1
  continue-Extends (ok a) f w h k = k a
  continue-Extends (err e) f w h k = h

  check_budget-Extends :
      (days now : ℕ) (b : BudgetDefinition) (w : World)
      → Holds w
      → Holds (check_budget_alerts days now b w).1
  unfolding get_current_period_usage
  check_budget-Extends days now b w h =
      continue-Extends (get_current_period_usage b.id b.current_period_start w).0
        (λ total. raise b (
          compute_alert_forecast b.current_usage_usd b.budget_amount_usd b.current_period_start
            (next_period_start b) total now days))
        (get_current_period_usage b.id b.current_period_start w).1 read
        (λ total. raise-Extends b _ (get_current_period_usage b.id b.current_period_start w).1 read)
    where
      read : Holds (get_current_period_usage b.id b.current_period_start w).1
      read = subst (Extends old) (sym (ap (λ s. s.0) (Keeps-query _ w))) h

  check_each-Extends :
      (days now : ℕ) (bs : List BudgetDefinition) (w : World)
      → Holds w
      → Holds (check_each days now bs w).1
  unfolding check_each
  check_each-Extends days now [] w h = h
  check_each-Extends days now (b ∷ bs) w h =
      check_each-Extends days now bs _ (check_budget-Extends days now b w h)

-- Where no two alerts have one budget, type and period, the check keeps every alert as it is, also
-- those that have been dismissed or resolved, adds new ones before them, and still no two have one
-- budget, type and period, whichever statements fail.
pub check_and_update_alerts-Extends :
    (days : ℕ) (w : World)
    → AlertsOnce w.tables.alerts
    → Extends w.tables.alerts (check_and_update_alerts days w).1.tables
unfolding check_and_update_alerts get_enabled_budgets
check_and_update_alerts-Extends days w once =
    continue-Extends w.tables.alerts (get_enabled_budgets w).0 (check_each days w.now)
      (get_enabled_budgets w).1 read
      (λ bs. check_each-Extends w.tables.alerts days w.now bs (get_enabled_budgets w).1 read)
  where
    read : Extends w.tables.alerts (get_enabled_budgets w).1.tables
    read =
        subst (Extends w.tables.alerts) (sym (ap (λ s. s.0) (Keeps-query _ w))) (([], refl), once)
