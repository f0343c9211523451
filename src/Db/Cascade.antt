-- ===== src/Db/Cascade.antt =====
-- internal/db/repository.go: `GetAllDescendants` and `DeleteBudgetCascade`.
pub mod Erased
pub mod Atomic
pub mod Total
use quota_management.Prelude.{
  ℕ, zero, suc, ◌==◌, Option, none, some, List, [], ◌∷◌, ◌++◌, length, select, if◌then◌else◌,
}
use quota_management.Models.Budget.{BudgetDefinition}
use quota_management.Db.World.{
  not_found, Tables, M, ◌>>=◌, ◌>>◌, pure, throw, pool, in_tx, begin_tx, commit, with_rollback,
}
use quota_management.Db.Budgets.{is_child_of, delete_row}
use quota_management.Db.Hierarchy.{rows_read}

abbrev ids_of : List BudgetDefinition → List ℕ
ids_of [] = []
ids_of (b ∷ bs) = b.id ∷ ids_of bs

-- A step of the recursive query: the rows whose parent is in the last step.
abbrev children_of : List BudgetDefinition → List ℕ → List ℕ
children_of bs [] = []
children_of bs (i ∷ is) = ids_of (select (is_child_of i) bs) ++ children_of bs is

abbrev behind : List ℕ → Option (List ℕ) → Option (List ℕ)
behind level none = none
behind level (some deeper) = some (deeper ++ level)

-- The levels below the given one and that one, deepest first: `none` where there are more than
-- `fuel`, as there are on a cycle, where the query does not end.
unfoldable pub levels : ℕ → List BudgetDefinition → List ℕ → Option (List ℕ)
levels fuel bs [] = some []
levels zero bs (i ∷ is) = none
levels (suc fuel) bs (i ∷ is) = behind (i ∷ is) (levels fuel bs (children_of bs (i ∷ is)))

-- The order within a level, which the query leaves open, is that of the step.
unfoldable pub descendants : ℕ → Tables → Option (List ℕ)
unfolding levels
descendants i t = levels (suc (length t.budgets)) t.budgets (children_of t.budgets (i ∷ []))

unfoldable pub get_all_descendants : ℕ → M (List ℕ)
get_all_descendants i = pool λ t. rows_read (descendants i t) t

unfoldable pub delete_each : List ℕ → M (Unit {0})
delete_each [] = pure tt
delete_each (i ∷ is) = in_tx (delete_row i) >> delete_each is

-- Without a row for the budget the method returns before the commit with `err` unset, so that the
-- deferred rollback does not run either.
abbrev pub commit_deleted : ℕ → ℕ → M ℕ
commit_deleted count n = if n == 0 then throw not_found else with_rollback commit >> pure count

-- The descendants are read before the transaction begins.
unfoldable pub delete_budget_cascade : ℕ → M ℕ
delete_budget_cascade i = do
  ids ← get_all_descendants i
  begin_tx
  n ← with_rollback (delete_each ids >> in_tx (delete_row i))
  commit_deleted (suc (length ids)) n
