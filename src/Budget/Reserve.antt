-- ===== src/Budget/Reserve.antt =====
-- internal/budget/service.go: `GetMatchingBudgets`, `CheckBudget`, `CheckAndReserveBudget` and the
-- deprecated `CreateReservation`.
pub mod Quiet
pub mod Grant
pub mod Loop
pub mod Rows
pub mod Atomic
pub mod Balance
pub mod Solvency
use quota_management.Prelude.{
  ℕ, String, ◌+◌, ◌≡◌, Bool, true, false, ◌&&◌, ◌||◌, not, Option, none, some, List, [], ◌∷◌,
  is_some, ltb, if◌then◌else◌,
}
use quota_management.Config.{Config}
use quota_management.Models.Budget.{BudgetDefinition, RequestReservation}
use quota_management.Db.World.{
  Result, ok, err, World, M, ◌>>=◌, ◌>>◌, pure, gets, modify, attempt, begin_tx, commit, rollback,
  with_rollback,
}
use quota_management.Db.Budgets.{get_enabled_budgets, get_enabled_budgets_for_update}
use quota_management.Db.Reservations.{
  create_reservation, create_reservation_in_tx, increment_pending_usage_in_tx,
}
use quota_management.Budget.Pricing.{estimate_cost}
use quota_management.Budget.Sort.{sort_budgets_by_hierarchy}
use quota_management.Budget.Check.{CheckResult, Scan, matching, scan_budgets, verdict, no_budgets}

abbrev pub invalidate_cache : World → World
invalidate_cache w = record w { budget_cache = record w.budget_cache { budgets_expire_at = 0 } }

abbrev cached_budgets : World → Option (List BudgetDefinition)
cached_budgets w =
    if ltb w.budget_cache.budgets_expire_at w.now then none else w.budget_cache.cached

-- A query without rows leaves a nil slice, which counts as nothing cached.
abbrev non_nil : List BudgetDefinition → Option (List BudgetDefinition)
non_nil [] = none
non_nil (b ∷ bs) = some (b ∷ bs)

load_budgets : Config → M (List BudgetDefinition)
load_budgets cfg = do
  bs ← get_enabled_budgets
  modify (λ w. record w {
    budget_cache = record { cached = non_nil bs; budgets_expire_at = w.now + cfg.budget_cache_ttl };
  })
  pure bs

pub get_matching_budgets : Config → (String → Option Bool) → M (List BudgetDefinition)
unfolding load_budgets
get_matching_budgets cfg evaluate = do
  hit ← gets cached_budgets
  bs ← elim hit [ some bs ↦ pure bs | none ↦ load_budgets cfg ]
  pure (matching evaluate bs)

check_matched : Config → String → List BudgetDefinition → M CheckResult
check_matched cfg model [] = pure no_budgets
check_matched cfg model (b ∷ bs) = do
  est ← estimate_cost cfg model
  let sorted = sort_budgets_by_hierarchy (b ∷ bs)
  gets (λ w. verdict w.now est (b ∷ bs) sorted (scan_budgets est sorted))

pub check_budget : Config → (String → Option Bool) → String → M CheckResult
unfolding check_matched
check_budget cfg evaluate model = do check_matched cfg model (← get_matching_budgets cfg evaluate)

abbrev pub reservation_for : Config → ℕ → String → ℕ → BudgetDefinition → RequestReservation
reservation_for cfg now request est b = record {
  budget_id = b.id;
  request_id = request;
  estimated_cost_usd = est;
  expires_at = now + cfg.reservation_ttl;
  created_at = now;
}

-- The body of the loop for one budget.
abbrev pub reserve_one : Config → ℕ → String → ℕ → BudgetDefinition → M (Unit {0})
reserve_one cfg now request est b = do
  create_reservation_in_tx (reservation_for cfg now request est b)
  increment_pending_usage_in_tx b.id est

-- A failure is logged, and the loop goes on with the next budget.
unfoldable pub reserve_each : Config → String → ℕ → List BudgetDefinition → M (Unit {0})
reserve_each cfg request est [] w = pure tt w
reserve_each cfg request est (b ∷ bs) w =
    (do attempt (reserve_one cfg w.now request est b); reserve_each cfg request est bs) w

abbrev pub denied : ℕ → List BudgetDefinition → Scan → M CheckResult
denied est sorted s = do rollback; gets (λ w. verdict w.now est sorted sorted s)

abbrev pub close : ℕ → List BudgetDefinition → Scan → M CheckResult
close est sorted s = do
  commit
  modify invalidate_cache
  gets (λ w. verdict w.now est sorted sorted s)

abbrev pub granted : Config → String → ℕ → List BudgetDefinition → Scan → M CheckResult
granted cfg request est sorted s = do reserve_each cfg request est sorted; close est sorted s

abbrev pub finish : Config → String → ℕ → List BudgetDefinition → Scan → M CheckResult
finish cfg request est sorted s =
    if is_some s.limited_at then denied est sorted s else granted cfg request est sorted s

unfoldable pub reserve_matched : Config → String → String → List BudgetDefinition → M CheckResult
reserve_matched cfg model request [] = do attempt commit; pure no_budgets
reserve_matched cfg model request (b ∷ bs) = do
  est ← estimate_cost cfg model
  let sorted = sort_budgets_by_hierarchy (b ∷ bs)
  finish cfg request est sorted (scan_budgets est sorted)

-- One transaction, with the rows of the enabled budgets locked.
unfoldable pub check_and_reserve_budget :
    Config → (String → Option Bool) → String → String → M CheckResult
check_and_reserve_budget cfg evaluate model request = do
  begin_tx
  with_rollback do
    bs ← get_enabled_budgets_for_update
    reserve_matched cfg model request (matching evaluate bs)

-- The deprecated loop, each statement committed at once.
pub create_reservations : Config → String → ℕ → List BudgetDefinition → M (Unit {0})
create_reservations cfg request est [] w = pure tt w
create_reservations cfg request est (b ∷ bs) w =
    (do
      attempt (create_reservation (reservation_for cfg w.now request est b))
      create_reservations cfg request est bs)
      w
