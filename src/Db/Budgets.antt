-- ===== src/Db/Budgets.antt =====
-- internal/db/repository.go: the statements on budget_definitions.
use quota_management.Prelude.{
  ℕ, String, ◌+◌, Bool, true, false, ◌&&◌, ◌||◌, not, Option, none, some, List, [], ◌∷◌, ◌++◌,
  find_first, select, update_where, count_where, is_some, leb, ◌==◌, if◌then◌else◌, str_eq,
}
use quota_management.Models.Budget.{
  BudgetDefinition, BudgetPeriod, EntityType, org, team, user, hourly, daily, weekly, monthly,
  custom, ApprovalStatus, approved,
}
use quota_management.Models.Calendar.{hour, day, week, add_interval_month}
use quota_management.Db.World.{
  not_found, optimistic_lock, Tables, M, ok, err, Statement, ◌>>=◌, lift, pure, pool, in_tx, query,
}
use quota_management.Db.ModelCosts.{or_not_found}
use quota_management.Db.Order.{order_by, by_entity_and_name}

abbrev pub has_id : ℕ → BudgetDefinition → Bool
has_id i b = b.id == i

abbrev pub same_entity : EntityType → EntityType → Bool
same_entity org org = true
same_entity team team = true
same_entity user user = true
same_entity _ _ = false

abbrev pub is_approved : ApprovalStatus → Bool
is_approved approved = true
is_approved _ = false

abbrev pub is_enforced : BudgetDefinition → Bool
is_enforced b = b.enabled && is_approved b.approval_status

-- `ListBudgets` and `GetAllBudgets`
pub list_budgets : M (List BudgetDefinition)
list_budgets = pool (query (λ t. order_by by_entity_and_name t.budgets))

unfoldable pub get_budget_by_id : ℕ → M BudgetDefinition
get_budget_by_id i = do
  row ← pool (query (λ t. find_first (has_id i) t.budgets))
  lift (or_not_found row)

unfoldable pub get_budget_by_entity : EntityType → String → M BudgetDefinition
get_budget_by_entity e n = do
  row ←
      pool (query (λ t. find_first (λ b. same_entity b.entity_type e && str_eq b.name n) t.budgets))
  lift (or_not_found row)

-- The query compares MD5 digests; two texts with one digest are taken to be equal.
unfoldable pub get_budget_by_match_expression : EntityType → String → M BudgetDefinition
get_budget_by_match_expression e x = do
  row ← pool (
      query (λ t.
        find_first (λ b. same_entity b.entity_type e && str_eq b.match_expression x) t.budgets))
  lift (or_not_found row)

-- `GetEnabledBudgets`: the budgets that are enforced.
unfoldable pub enabled_budgets : Tables → List BudgetDefinition
enabled_budgets t = order_by by_entity_and_name (select is_enforced t.budgets)

unfoldable pub get_enabled_budgets : M (List BudgetDefinition)
get_enabled_budgets = pool (query enabled_budgets)

-- The same rows inside the transaction, under `FOR UPDATE`.
unfoldable pub get_enabled_budgets_for_update : M (List BudgetDefinition)
get_enabled_budgets_for_update = in_tx (query enabled_budgets)

-- The row of `CreateBudget`, under the id that the caller drew. The pair of entity type and name is
-- unique, and a parent has to exist.
abbrev pub known_parent : List BudgetDefinition → Option ℕ → Bool
known_parent bs none = true
known_parent bs (some p) = is_some (find_first (has_id p) bs)

abbrev pub complete_budget : ℕ → BudgetDefinition → BudgetDefinition
complete_budget now b = record b {
  version = 1;
  current_period_start = if b.current_period_start == 0 then now else b.current_period_start;
  warning_threshold_pct = if b.warning_threshold_pct == 0 then 80 else b.warning_threshold_pct;
}

abbrev pub name_taken : BudgetDefinition → List BudgetDefinition → Bool
name_taken c bs =
    is_some (find_first (λ d. same_entity d.entity_type c.entity_type && str_eq d.name c.name) bs)

abbrev pub insert_budget : BudgetDefinition → Statement (Unit {0})
insert_budget c t =
    if name_taken c t.budgets
      || is_some (find_first (has_id c.id) t.budgets)
      || not (known_parent t.budgets c.parent_id)
    then none
    else some (tt, record t { budgets = t.budgets ++ (c ∷ []) })

unfoldable pub create_budget : BudgetDefinition → M (Unit {0})
create_budget b w = pool (insert_budget (complete_budget w.now b)) w

-- The columns that `UpdateBudget` sets, with the next version.
abbrev pub updated_columns : BudgetDefinition → BudgetDefinition → BudgetDefinition
updated_columns b row = record row {
  match_expression = b.match_expression;
  budget_amount_usd = b.budget_amount_usd;
  period = b.period;
  custom_period_seconds = b.custom_period_seconds;
  warning_threshold_pct = b.warning_threshold_pct;
  parent_id = b.parent_id;
  isolated = b.isolated;
  allow_fallback = b.allow_fallback;
  enabled = b.enabled;
  disabled_by_user_id = b.disabled_by_user_id;
  disabled_by_email = b.disabled_by_email;
  disabled_by_is_org = b.disabled_by_is_org;
  disabled_at = b.disabled_at;
  description = b.description;
  owner_org_id = b.owner_org_id;
  owner_team_id = b.owner_team_id;
  owner_user_id = b.owner_user_id;
  version = row.version + 1;
}

-- `UPDATE` on the rows that a test selects: how many, and the tables after it.
abbrev pub update_budgets :
    (BudgetDefinition → Bool) → (BudgetDefinition → BudgetDefinition) → Statement ℕ
update_budgets p f t =
    some (count_where p t.budgets, record t { budgets = update_where p f t.budgets })

-- A version that has moved on affects no row. A parent has to exist.
unfoldable pub update_budget : BudgetDefinition → M (Unit {0})
update_budget b = do
  n ← pool λ t.
      if known_parent t.budgets b.parent_id
      then update_budgets (λ r. has_id b.id r && (r.version == b.version)) (updated_columns b) t
      else none
  lift (if n == 0 then err optimistic_lock else ok tt)

abbrev pub is_child_of : ℕ → BudgetDefinition → Bool
is_child_of i b = elim b.parent_id [ none ↦ false | some p ↦ p == i ]

-- The reservations, usage records, approvals and alerts of a deleted row go with it.
abbrev pub without_budget : ℕ → Tables → Tables
without_budget i t = record t {
  budgets = select (λ b. not (has_id i b)) t.budgets;
  reservations = select (λ r. not (r.budget_id == i)) t.reservations;
  usage_records = select (λ u. not (u.budget_id == i)) t.usage_records;
  approvals = select (λ a. not (a.budget_id == i)) t.approvals;
  alerts = select (λ a. not (a.budget_id == i)) t.alerts;
}

-- `DELETE … WHERE id = i`. A row that another row has for its parent is not deleted.
abbrev pub delete_row : ℕ → Statement ℕ
delete_row i t =
    if count_where (λ b. is_child_of i b && not (has_id i b)) t.budgets == 0
    then some (count_where (has_id i) t.budgets, without_budget i t)
    else none

unfoldable pub delete_budget : ℕ → M (Unit {0})
delete_budget i = do n ← pool (delete_row i); lift (if n == 0 then err not_found else ok tt)

-- `GetChildBudgets`
unfoldable pub get_child_budgets : ℕ → M (List BudgetDefinition)
get_child_budgets i = pool (query (λ t. select (is_child_of i) t.budgets))

pub increment_budget_usage : ℕ → ℕ → ℕ → M (Unit {0})
increment_budget_usage i cost expected = do
  n ← pool (
      update_budgets (λ b. has_id i b && (b.version == expected))
        (λ b. record b { current_usage_usd = b.current_usage_usd + cost; version = b.version + 1 }))
  lift (if n == 0 then err optimistic_lock else ok tt)

abbrev pub reset_row : ℕ → BudgetDefinition → BudgetDefinition
reset_row now b = record b {
  current_usage_usd = 0;
  pending_usage_usd = 0;
  current_period_start = now;
  version = b.version + 1;
}

unfoldable pub reset_budget_usage : ℕ → M (Unit {0})
reset_budget_usage i w =
    (do
      n ← pool (update_budgets (has_id i) (reset_row w.now))
      lift (if n == 0 then err not_found else ok tt))
      w

abbrev pub same_period : BudgetPeriod → BudgetPeriod → Bool
same_period hourly hourly = true
same_period daily daily = true
same_period weekly weekly = true
same_period monthly monthly = true
same_period custom custom = true
same_period _ _ = false

-- When the database lets a period end; a custom period without a length never does.
abbrev pub period_over : ℕ → BudgetPeriod → BudgetDefinition → Bool
period_over now hourly b = leb (b.current_period_start + hour) now
period_over now daily b = leb (b.current_period_start + day) now
period_over now weekly b = leb (b.current_period_start + week) now
period_over now monthly b = leb (add_interval_month b.current_period_start) now
period_over now custom b = elim b.custom_period_seconds [
  | none ↦ false
  | some n ↦ leb (b.current_period_start + n) now
]

abbrev pub is_expired : ℕ → BudgetPeriod → BudgetDefinition → Bool
is_expired now p b = same_period b.period p && period_over now p b

-- One query of `ResetExpiredBudgets`.
abbrev reset_query : ℕ → BudgetPeriod → Statement ℕ
reset_query now p = update_budgets (is_expired now p) (reset_row now)

reset_queries : List BudgetPeriod → ℕ → M ℕ
reset_queries [] total w = pure total w
reset_queries (p ∷ ps) total w = (do n ← pool (reset_query w.now p); reset_queries ps (total + n)) w

-- The five queries run one after the other; the first that fails ends it.
pub reset_expired_budgets : M ℕ
unfolding reset_queries
reset_expired_budgets = reset_queries (hourly ∷ daily ∷ weekly ∷ monthly ∷ custom ∷ []) 0
