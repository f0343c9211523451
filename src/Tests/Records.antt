-- ===== src/Tests/Records.antt =====
-- Parents, periods and pages.
use quota_management.Prelude.{
  ℕ, ◌+◌, ◌*◌, ◌-◌, ◌/◌, ◌≤◌, ◌<◌, ◌≡◌, refl, none, some, List, [], ◌∷◌, arith,
}
use quota_management.Models.Budget.{BudgetDefinition, monthly}
use quota_management.Models.Calendar.{hour, day}
use quota_management.Models.Period.{next_period_start, next_period_start_bounds}
use quota_management.Models.Pagination.{
  PaginationParams, parse_pagination, offset, new_pagination_meta, pagination_covers,
}
use quota_management.Db.Hierarchy.{
  ancestors, with_parents, without_parent, with_parents_total, with_parents_cycle,
}
use quota_management.Db.World.{Tables}
use quota_management.Tests.{org_budget, world, store}

abbrev pub rank : ℕ → ℕ
rank i = i - 1

with_parents_total_example :
    (rows : List BudgetDefinition) × (with_parents 3 store.tables ≡ some rows)
with_parents_total_example =
    with_parents_total rank 3 store.tables
      (
        (omega arith, λ p e. absurd (cc e)),
        (
          (omega arith, λ p e. let same : 1 ≡ p = cc e in omega arith),
          ((omega arith, λ p e. let same : 2 ≡ p = cc e in omega arith), tt),
        ),
      )
      (omega arith)

abbrev own_parent : BudgetDefinition
own_parent = record org_budget { parent_id = some 1 }

abbrev looped : Tables
looped = (world (own_parent ∷ []) [] []).tables

with_parents_cycle_example :
    (ancestors 7 looped.budgets 1 ≡ none)
    × (with_parents 1 (without_parent 1 looped)
        ≡ some (record own_parent { parent_id = none } ∷ []))
with_parents_cycle_example = with_parents_cycle 7 1 own_parent looped refl refl

abbrev monthly_budget : BudgetDefinition
monthly_budget = record org_budget { period = monthly; current_period_start = 1_000_000 }

next_period_start_bounds_example :
    (1_000_000 + hour ≤ next_period_start monthly_budget)
    × (monthly_budget.period ≡ monthly
        → (1_000_000 + 28 * day ≤ next_period_start monthly_budget)
          × (next_period_start monthly_budget ≤ 1_000_000 + 31 * day))
next_period_start_bounds_example = next_period_start_bounds monthly_budget tt

pagination_covers_example :
    let p = parse_pagination (some 2) (some 10) in
    let q : PaginationParams = record p { page = 24 / p.page_size + 1 } in
    (1 ≤ p.page_size)
    × (p.page_size ≤ 30)
    × (offset q ≤ 24)
    × (24 < offset q + q.page_size)
    × (q.page ≤ (new_pagination_meta p 25).total_pages)
pagination_covers_example = pagination_covers (some 2) (some 10) 25 24 (omega arith)
