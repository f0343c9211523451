-- ===== src/Models/Alert.antt =====
-- internal/models/alert.go: alerts. The forecast's figures, which are stored for display, are left
-- out.
use quota_management.Prelude.{ℕ, String, Bool, true, false, Option}
use quota_management.Prelude.Int.{ℤ}

pub data AlertType : Type 0 where
  threshold_warning budget_exhausted forecast_overrun forecast_exhaustion : AlertType

pub data AlertStatus : Type 0 where
  active resolved dismissed : AlertStatus

pub record BudgetAlert : Type 0 where
  pub id : ℕ
  pub budget_id : ℕ
  pub alert_type : AlertType
  pub status : AlertStatus
  pub triggered_usage_usd : ℕ
  pub budget_amount_usd : ℤ
  pub threshold_pct : Option ℕ
  pub dismissed_by_user_id : Option String
  pub dismissed_at : Option ℕ
  pub resolved_at : Option ℕ
  pub period_start : ℕ

abbrev pub same_alert_type : AlertType → AlertType → Bool
same_alert_type threshold_warning threshold_warning = true
same_alert_type budget_exhausted budget_exhausted = true
same_alert_type forecast_overrun forecast_overrun = true
same_alert_type forecast_exhaustion forecast_exhaustion = true
same_alert_type _ _ = false

abbrev pub is_active : AlertStatus → Bool
is_active active = true
is_active _ = false
