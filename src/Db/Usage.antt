-- ===== src/Db/Usage.antt =====
-- internal/db/repository.go: the statements on usage_records, and the usage of a budget.
pub mod Retention
use quota_management.Prelude.{
  ℕ, zero, suc, ◌+◌, Bool, ◌&&◌, List, [], ◌∷◌, take, select, update_where, sum_by, leb, ◌==◌,
  if◌then◌else◌,
}
use quota_management.Models.Budget.{UsageRecord}
use quota_management.Db.World.{Tables, M, ◌>>◌, pool, in_tx, query, exec}
use quota_management.Db.Budgets.{has_id}

abbrev pub usage_of : ℕ → UsageRecord → Bool
usage_of i u = u.budget_id == i

abbrev pub insert_usage : UsageRecord → Tables → Tables
insert_usage u t = record t { usage_records = u ∷ t.usage_records }

-- Keeps the newest `n` rows of budget `i`, and every row of the others.
abbrev pub keep_newest : ℕ → ℕ → List UsageRecord → List UsageRecord
keep_newest n i [] = []
keep_newest n i (u ∷ us) =
    let mine : List UsageRecord = elim n [
      | zero ↦ keep_newest zero i us
      | suc m ↦ u ∷ keep_newest m i us
    ] in
    let other = u ∷ keep_newest n i us in if usage_of i u then mine else other

abbrev pub retained : ℕ
retained = 30

abbrev pub prune_usage : ℕ → Tables → Tables
prune_usage i t = record t { usage_records = keep_newest retained i t.usage_records }

-- `CreateUsageRecordInTx`: the insertion, then the pruning.
unfoldable pub create_usage_record_in_tx : UsageRecord → M (Unit {0})
create_usage_record_in_tx u = do
  in_tx (exec (insert_usage u))
  in_tx (exec (prune_usage u.budget_id))

pub create_usage_record : UsageRecord → M (Unit {0})
create_usage_record u = pool (exec (insert_usage u))

abbrev pub add_usage : ℕ → ℕ → Tables → Tables
add_usage i cost t = record t {
  budgets =
      update_where (has_id i)
        (λ b. record b { current_usage_usd = b.current_usage_usd + cost; version = b.version + 1 })
        t.budgets;
}

unfoldable pub increment_usage_in_tx : ℕ → ℕ → M (Unit {0})
increment_usage_in_tx i cost = in_tx (exec (add_usage i cost))

-- `GetUsageByBudgetID` and its paginated form: the newest rows first, and how many there are.
pub get_usage_by_budget_id : ℕ → ℕ → ℕ → M (List UsageRecord)
get_usage_by_budget_id i since limit =
    pool (
      query
        (λ t. take limit (select (λ u. usage_of i u && leb since u.created_at) t.usage_records)))

-- `GetCurrentPeriodUsage`
unfoldable pub get_current_period_usage : ℕ → ℕ → M ℕ
get_current_period_usage i since = pool (
    query (λ t.
      sum_by (λ u. u.cost_usd)
        (select (λ u. usage_of i u && leb since u.created_at) t.usage_records)))
