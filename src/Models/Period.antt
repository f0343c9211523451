-- ===== src/Models/Period.antt =====
-- internal/models/models.go: `NextPeriodStart` and `ShouldReset`.
use quota_management.Prelude.{ℕ, ◌+◌, ◌*◌, ◌≤◌, ◌≡◌, Bool, Option, none, some, arith, ltb}
use quota_management.Models.Budget.{
  BudgetPeriod, hourly, daily, weekly, monthly, custom, BudgetDefinition,
}
use quota_management.Models.Calendar.{hour, day, week, add_date_month, add_date_month_bounds}

-- A custom period that has no length falls through to the daily default.
period_end : BudgetPeriod → Option ℕ → ℕ → ℕ
period_end hourly seconds start = start + hour
period_end daily seconds start = start + day
period_end weekly seconds start = start + week
period_end monthly seconds start = add_date_month start
period_end custom (some n) start = start + n
period_end custom none start = start + day

unfoldable pub next_period_start : BudgetDefinition → ℕ
unfolding period_end
next_period_start b = period_end b.period b.custom_period_seconds b.current_period_start

-- `now.After(b.NextPeriodStart())`
unfoldable pub should_reset : ℕ → BudgetDefinition → Bool
should_reset now b = ltb (next_period_start b) now

-- A custom length is absent or at least an hour; the handlers refuse any other.
abbrev pub HasValidPeriod : BudgetDefinition → Type 0
HasValidPeriod b = elim b.custom_period_seconds [ none ↦ Unit {0} | some n ↦ hour ≤ n ]

-- For a budget whose custom length is absent or at least an hour, the next period starts at least
-- an hour after the current one, and a monthly one between 28 and 31 days after it.
pub next_period_start_bounds :
    (b : BudgetDefinition)
    → HasValidPeriod b
    → (b.current_period_start + hour ≤ next_period_start b)
      × (b.period ≡ monthly
          → (b.current_period_start + 28 * day ≤ next_period_start b)
            × (next_period_start b ≤ b.current_period_start + 31 * day))
unfolding next_period_start
next_period_start_bounds b h = ground (arith, add_date_month_bounds b.current_period_start)
