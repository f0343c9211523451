-- ===== src/Db/Alerts.antt =====
-- internal/db/alert_repository.go: the statements on budget_alerts.
use quota_management.Prelude.{
  ℕ, suc, leb, ltb, select, ◌-◌, ◌*◌, true, String, Bool, false, ◌&&◌, ◌||◌, Option, none, some,
  List, [], ◌∷◌, find_first, is_some, count_where, update_where, if◌then◌else◌, ◌==◌, str_eq,
}
use quota_management.Models.Alert.{
  BudgetAlert, AlertStatus, AlertType, active, resolved, dismissed, same_alert_type, is_active,
}
use quota_management.Models.Budget.{BudgetDefinition}
use quota_management.Db.World.{Tables, M, ok, err, not_found, Statement, ◌>>=◌, lift, pool, query}
use quota_management.Db.Budgets.{has_id}
use quota_management.Db.Listings.{paginated}

-- The unique key: budget, type and period.
abbrev pub same_alert : BudgetAlert → BudgetAlert → Bool
same_alert a b =
    (b.budget_id == a.budget_id)
    && (same_alert_type a.alert_type b.alert_type && (b.period_start == a.period_start))

-- An id that no row has.
abbrev pub next_id : List BudgetAlert → ℕ
next_id [] = 0
next_id (a ∷ rest) = if leb (next_id rest) a.id then suc a.id else next_id rest

-- `ON CONFLICT … DO NOTHING`
abbrev pub add_alert : BudgetAlert → Tables → Tables
add_alert a t =
    if is_some (find_first (same_alert a) t.alerts)
    then t
    else record t { alerts = record a { id = next_id t.alerts; status = active } ∷ t.alerts }

-- The budget has to exist.
abbrev pub insert_alert : BudgetAlert → Statement (Unit {0})
insert_alert a t =
    if is_some (find_first (has_id a.budget_id) t.budgets) then some (tt, add_alert a t) else none

unfoldable pub insert_alert_if_not_exists : BudgetAlert → M (Unit {0})
insert_alert_if_not_exists a = pool (insert_alert a)

abbrev pub update_alerts : (BudgetAlert → Bool) → (BudgetAlert → BudgetAlert) → Statement ℕ
update_alerts p f t = some (count_where p t.alerts, record t { alerts = update_where p f t.alerts })

abbrev pub dismiss : ℕ → String → BudgetAlert → BudgetAlert
dismiss now user a = record a {
  status = dismissed;
  dismissed_by_user_id = some user;
  dismissed_at = some now;
}

abbrev resolve : ℕ → BudgetAlert → BudgetAlert
resolve now a = record a { status = resolved; resolved_at = some now }

unfoldable pub dismiss_alert : ℕ → String → M (Unit {0})
dismiss_alert i user w =
    (do
      n ← pool (update_alerts (λ a. (a.id == i) && is_active a.status) (dismiss w.now user))
      lift (if n == 0 then err not_found else ok tt))
      w

abbrev pub is_text : Option String → String → Bool
is_text none s = false
is_text (some t) s = str_eq t s

-- The caller's team owns the budget.
abbrev pub owned : String → String → BudgetDefinition → Bool
owned org team b = is_text b.owner_org_id org && is_text b.owner_team_id team

abbrev pub visible : Bool → String → String → List BudgetDefinition → BudgetAlert → Bool
visible is_org org team bs a =
    is_org || is_some (find_first (λ b. has_id a.budget_id b && owned org team b) bs)

unfoldable pub dismiss_all_alerts : Bool → String → String → String → M ℕ
dismiss_all_alerts is_org org team user w =
    pool
      (λ t.
        update_alerts (λ a. is_active a.status && visible is_org org team t.budgets a)
          (dismiss w.now user) t)
      w

unfoldable pub count_active_alerts : Bool → String → String → M ℕ
count_active_alerts is_org org team = pool (
    query
      λ t. count_where (λ a. is_active a.status && visible is_org org team t.budgets a) t.alerts)

abbrev any_id : List ℕ → ℕ → Bool
any_id [] i = false
any_id (j ∷ js) i = (i == j) || any_id js i

unfoldable resolve_alerts_for_budgets : List ℕ → M (Unit {0})
resolve_alerts_for_budgets [] w = (ok tt, w)
resolve_alerts_for_budgets (i ∷ is) w =
    (pool (update_alerts (λ a. any_id (i ∷ is) a.budget_id && is_active a.status) (resolve w.now))
        >>= λ _. lift (ok tt))
      w

unfoldable resolve_alert : ℕ → M (Unit {0})
resolve_alert i w =
    (do
      n ← pool (update_alerts (λ a. (a.id == i) && is_active a.status) (resolve w.now))
      lift (if n == 0 then err not_found else ok tt))
      w

-- The filter of `ListAlerts`: `none` for any status, any type and any budget.
pub record AlertListFilter : Type 0 where
  pub of_status : Option AlertStatus
  pub of_type : Option AlertType
  pub of_budget : Option ℕ
  pub is_org_admin : Bool
  pub caller_org_id : String
  pub caller_team_id : String
  pub page : ℕ
  pub page_size : ℕ

abbrev same_status : AlertStatus → AlertStatus → Bool
same_status active active = true
same_status resolved resolved = true
same_status dismissed dismissed = true
same_status _ _ = false

abbrev has_status : Option AlertStatus → BudgetAlert → Bool
has_status none a = true
has_status (some s) a = same_status a.status s

abbrev has_type : Option AlertType → BudgetAlert → Bool
has_type none a = true
has_type (some k) a = same_alert_type a.alert_type k

abbrev has_budget : Option ℕ → BudgetAlert → Bool
has_budget none a = true
has_budget (some i) a = a.budget_id == i

abbrev pub alert_listed : AlertListFilter → List BudgetDefinition → BudgetAlert → Bool
alert_listed f bs a =
    is_some (find_first (has_id a.budget_id) bs)
    && (has_status f.of_status a
        && (has_type f.of_type a
            && (has_budget f.of_budget a
                && visible f.is_org_admin f.caller_org_id f.caller_team_id bs a)))

abbrev pub alert_page : ℕ → ℕ
alert_page n = if ltb n 1 then 1 else n

abbrev pub alert_page_size : ℕ → ℕ
alert_page_size n = if ltb n 1 || ltb 100 n then 20 else n

-- The table has the newest alerts first.
unfoldable pub list_alerts : AlertListFilter → M (List BudgetAlert × ℕ)
list_alerts f =
    let size : ℕ = alert_page_size f.page_size in
    paginated (λ t. select (alert_listed f t.budgets) t.alerts) (λ rows. rows)
      ((alert_page f.page - 1) * size) size
