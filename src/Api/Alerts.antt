-- ===== src/Api/Alerts.antt =====
-- internal/api/alert_handlers.go: the requests on alerts. A response is a status and, where there is
-- one, a body.
pub mod Dismissal
use quota_management.Prelude.{
  ℕ, String, Bool, true, false, Option, none, some, List, ltb, if◌then◌else◌,
}
use quota_management.Models.Alert.{BudgetAlert, AlertStatus, AlertType, active}
use quota_management.Db.World.{Result, ok, err, not_found, M, ◌>>=◌, pure, attempt}
use quota_management.Db.Alerts.{
  AlertListFilter, list_alerts, count_active_alerts, dismiss_alert, dismiss_all_alerts,
}
use quota_management.Auth.Identity.{Identity}
use quota_management.Auth.Rbac.{is_empty}

-- What the handlers take of the caller.
abbrev pub caller_org_admin : Option Identity → Bool
caller_org_admin none = false
caller_org_admin (some i) = i.is_org

abbrev pub caller_org : Option Identity → String
caller_org none = ""
caller_org (some i) = i.org_id

abbrev pub caller_team : Option Identity → String
caller_team none = ""
caller_team (some i) = i.team_id

abbrev pub caller_user : Option Identity → String
caller_user none = ""
caller_user (some i) = if is_empty i.user_id then i.email else i.user_id

abbrev counted : Result ℕ → M (ℕ × Option ℕ)
counted (ok n) = pure (200, some n)
counted (err e) = pure (500, none)

unfoldable pub count_alerts : Option Identity → M (ℕ × Option ℕ)
count_alerts who = do
  n ← attempt (count_active_alerts (caller_org_admin who) (caller_org who) (caller_team who))
  counted n

unfoldable pub dismiss_all_alerts_request : Option Identity → M (ℕ × Option ℕ)
dismiss_all_alerts_request who = do
  n ← attempt (
      dismiss_all_alerts (caller_org_admin who) (caller_org who) (caller_team who)
        (caller_user who))
  counted n

abbrev dismissed_answer : Result (Unit {0}) → M ℕ
dismissed_answer (ok _) = pure 204
dismissed_answer (err not_found) = pure 404
dismissed_answer (err e) = pure 500

-- Any caller may dismiss any alert.
unfoldable pub dismiss_alert_request : Option ℕ → Option Identity → M ℕ
dismiss_alert_request none who = pure 400
dismiss_alert_request (some i) who = do
  done ← attempt (dismiss_alert i (caller_user who))
  dismissed_answer done

-- The page and its size are those of the request, also where the store takes another size.
pub record AlertPage : Type 0 where
  pub alerts : List BudgetAlert
  pub total_count : ℕ
  pub page : ℕ
  pub page_size : ℕ

abbrev at_least_one : ℕ → Option ℕ → ℕ
at_least_one d none = d
at_least_one d (some n) = if ltb n 1 then d else n

abbrev listed : ℕ → ℕ → Result (List BudgetAlert × ℕ) → M (ℕ × Option AlertPage)
listed p s (ok (rows, total)) =
    pure (200, some (record { alerts = rows; total_count = total; page = p; page_size = s }))
listed p s (err e) = pure (500, none)

abbrev asked_status : Option (Option AlertStatus) → Option AlertStatus
asked_status none = some active
asked_status (some s) = s

-- A status is absent, any, or one; a budget is absent, no id, or one.
unfoldable pub list_alerts_request :
    Option (Option AlertStatus)
    → Option AlertType
    → Option (Option ℕ)
    → Option ℕ
    → Option ℕ
    → Option Identity
    → M (ℕ × Option AlertPage)
list_alerts_request status type budget page size who = by_budget budget
  where
    filter : Option ℕ → AlertListFilter
    filter b = record {
      of_status = asked_status status;
      of_type = type;
      of_budget = b;
      is_org_admin = caller_org_admin who;
      caller_org_id = caller_org who;
      caller_team_id = caller_team who;
      page = at_least_one 1 page;
      page_size = at_least_one 20 size;
    }

    answer : Option ℕ → M (ℕ × Option AlertPage)
    answer b = do
      rows ← attempt (list_alerts (filter b))
      listed (at_least_one 1 page) (at_least_one 20 size) rows

    by_budget : Option (Option ℕ) → M (ℕ × Option AlertPage)
    by_budget none = answer none
    by_budget (some none) = pure (400, none)
    by_budget (some (some b)) = answer (some b)
