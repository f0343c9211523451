-- ===== src/Tests/Checks.antt =====
-- Checks and reservations on the small store.
use quota_management.Prelude.{
  ◌*◌, ◌≡◌, refl, true, false, none, some, List, [], ◌∷◌, arith, All, inr, ◌⊎◌, ◌↔◌, select,
}
use mathlib.Core.List.{Perm}
use quota_management.Prelude.Int.{◌-ℤ◌}
use quota_management.Config.{default_config}
use quota_management.Models.Budget.{BudgetDefinition, EntityType}
use quota_management.Db.World.{World}
use quota_management.Db.Unique.{UniqueIds}
use quota_management.Budget.Sort.{
  sort_budgets_by_hierarchy, sort_budgets_lem, IsSortedFrom, of_type,
}
use quota_management.Budget.Check.{scan_budgets}
use quota_management.Budget.Check.Outcome.{
  HasRoom, Limits, scan_budgets_allows, scan_budgets_blames,
}
use quota_management.Budget.Reserve.{check_and_reserve_budget}
use quota_management.Budget.Reserve.Grant.{Granted}
use quota_management.Budget.Reserve.Atomic.{check_and_reserve_atomic}
use quota_management.Budget.Reserve.Balance.{Balanced, check_and_reserve-Balanced}
use quota_management.Budget.Reserve.Solvency.{Solvent, check_and_reserve-Solvent}
use quota_management.Tests.{
  usd, org_budget, user_budget, reserved_team, world, three, store, matches_all,
}

three-UniqueIds : UniqueIds three
three-UniqueIds = (refl, (refl, (refl, tt)))

three-Solvent : All Solvent three
unfolding ◌-ℤ◌
three-Solvent = (inr (omega arith), (inr (omega arith), (inr (omega arith), tt)))

check_and_reserve-Solvent_example :
    All Solvent
      (check_and_reserve_budget default_config matches_all "gpt-4o" "r2" store).1.tables.budgets
check_and_reserve-Solvent_example =
    check_and_reserve-Solvent default_config matches_all "gpt-4o" "r2" store three-UniqueIds
      three-Solvent

check_and_reserve-Balanced_example :
    Balanced (check_and_reserve_budget default_config matches_all "gpt-4o" "r2" store).1.tables
check_and_reserve-Balanced_example =
    check_and_reserve-Balanced default_config matches_all "gpt-4o" "r2" store
      (refl, (refl, (refl, tt)))

-- The commit fails.
abbrev faulty : World
faulty =
    world three []
      (false ∷ false ∷ false ∷ false ∷ false ∷ false ∷ false ∷ false ∷ false ∷ true ∷ [])

check_and_reserve_atomic_example :
    ((check_and_reserve_budget default_config matches_all "gpt-4o" "r2" faulty).1.tables
      ≡ faulty.tables)
    ⊎ Granted (check_and_reserve_budget default_config matches_all "gpt-4o" "r2" faulty).0
check_and_reserve_atomic_example =
    check_and_reserve_atomic default_config matches_all "gpt-4o" "r2" faulty

scan_budgets_allows_example :
    ((scan_budgets usd three).limited_at ≡ none) ↔ All (HasRoom usd three) three
scan_budgets_allows_example = scan_budgets_allows usd three three-UniqueIds

abbrev sorted_three : List BudgetDefinition
sorted_three = user_budget ∷ reserved_team ∷ org_budget ∷ []

sorted-UniqueIds : UniqueIds sorted_three
sorted-UniqueIds = (refl, (refl, (refl, tt)))

limited_run : (scan_budgets (3 * usd) sorted_three).limited_at ≡ some 2
unfolding scan_budgets ◌-ℤ◌
limited_run = refl

scan_budgets_blames_example : Limits (3 * usd) sorted_three 2 sorted_three
scan_budgets_blames_example =
    scan_budgets_blames (3 * usd) sorted_three 2 sorted-UniqueIds limited_run

sort_budgets_lem_example :
    Perm (sort_budgets_by_hierarchy three) three
    × IsSortedFrom 0 (sort_budgets_by_hierarchy three)
    × ((e : EntityType)
        → select (of_type e) (sort_budgets_by_hierarchy three) ≡ select (of_type e) three)
sort_budgets_lem_example = sort_budgets_lem three
