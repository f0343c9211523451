-- ===== src/Db/Reads.antt =====
-- internal/db/repository.go: the searches for a row.
use quota_management.Prelude.{
  ℕ, ◌≡◌, refl, ap, Bool, true, false, Option, none, some, find_first, inl, inr, List, select,
}
use quota_management.Models.Budget.{BudgetDefinition, EntityType}
use quota_management.Prelude.{String}
use quota_management.Db.World.{
  ok, World, Tables, M, ◌>>=◌, lift, pool, query, fault_now, run, from_pool,
}
use quota_management.Db.Keeps.{pool-query, Keeps, Keeps-bind, Keeps-query, stored}
use quota_management.Db.ModelCosts.{or_not_found}
use quota_management.Db.Budgets.{
  has_id, is_child_of, get_budget_by_id, get_budget_by_entity, get_budget_by_match_expression,
  get_child_budgets,
}

pub get_budget-Keeps : (i : ℕ) → Keeps stored (get_budget_by_id i)
unfolding get_budget_by_id
get_budget-Keeps i =
    Keeps-bind stored (pool (query (λ t. find_first (has_id i) t.budgets)))
      (λ row. lift (or_not_found row)) (Keeps-query _) (λ row w. refl)

or_not_found-ok :
    (o : Option BudgetDefinition) (b : BudgetDefinition) → or_not_found o ≡ ok b → o ≡ some b
or_not_found-ok none b e = absurd (cc e)
or_not_found-ok (some c) b e = cc e

-- What the search gives is the first row with the id.
pub get_budget_lem :
    (i : ℕ) (w : World) (b : BudgetDefinition)
    → (get_budget_by_id i w).0 ≡ ok b
    → find_first (has_id i) w.tables.budgets ≡ some b
unfolding get_budget_by_id
get_budget_lem i w b e = elim (pool-query found w) [
  | inl failed ↦ absurd (cc (rw failed at e))
  | inr done ↦ or_not_found-ok (found w.tables) b (rw done at e)
]
  where
    found : Tables → Option BudgetDefinition
    found t = find_first (has_id i) t.budgets

search-Keeps {ℓ} :
    {A : Type ℓ} (f : Tables → Option A)
    → Keeps stored (pool (query f) >>= λ row. lift (or_not_found row))
search-Keeps f =
    Keeps-bind stored (pool (query f)) (λ row. lift (or_not_found row)) (Keeps-query f)
      (λ row w. refl)

tables_of {ℓ} : {A : Type ℓ} (m : M A) → Keeps stored m → (w : World) → (m w).1.tables ≡ w.tables
tables_of m k w = ap (λ s. s.0) (k w)

pub get_budget_by_id-tables : (i : ℕ) (w : World) → (get_budget_by_id i w).1.tables ≡ w.tables
unfolding get_budget_by_id
get_budget_by_id-tables i = tables_of (get_budget_by_id i) (get_budget-Keeps i)

pub get_budget_by_entity-tables :
    (e : EntityType) (n : String) (w : World) → (get_budget_by_entity e n w).1.tables ≡ w.tables
unfolding get_budget_by_entity
get_budget_by_entity-tables e n = tables_of (get_budget_by_entity e n) (search-Keeps _)

pub get_budget_by_match_expression-tables :
    (e : EntityType) (x : String) (w : World)
    → (get_budget_by_match_expression e x w).1.tables ≡ w.tables
unfolding get_budget_by_match_expression
get_budget_by_match_expression-tables e x =
    tables_of (get_budget_by_match_expression e x) (search-Keeps _)

pub get_child_budgets-tables : (i : ℕ) (w : World) → (get_child_budgets i w).1.tables ≡ w.tables
unfolding get_child_budgets
get_child_budgets-tables i = tables_of (get_child_budgets i) (Keeps-query _)

-- What the listing of the children gives is all rows with the parent.
pub get_child_budgets_lem :
    (i : ℕ) (w : World) (cs : List BudgetDefinition)
    → (get_child_budgets i w).0 ≡ ok cs
    → select (is_child_of i) w.tables.budgets ≡ cs
unfolding get_child_budgets
get_child_budgets_lem i w cs e = elim (pool-query (λ t. select (is_child_of i) t.budgets) w) [
  | inl failed ↦ absurd (cc (rw failed at e))
  | inr done ↦ cc (rw done at e)
]

from_pool-answer {ℓ} :
    {A : Type ℓ} (b : Bool) (f : Tables → A) (w : World) (t : Tables)
    → b ≡ false
    → (from_pool w (run b (query f) t)).0 ≡ ok (f t)
from_pool-answer true f w t e = absurd (cc e)
from_pool-answer false f w t e = refl

-- Where the next statement does not fail, the search gives the row.
pub get_budget_by_id-found :
    (i : ℕ) (w : World)
    → fault_now w.faults ≡ false
    → (get_budget_by_id i w).0 ≡ or_not_found (find_first (has_id i) w.tables.budgets)
unfolding get_budget_by_id pool
get_budget_by_id-found i w h =
    rw (from_pool-answer (fault_now w.faults) (λ t. find_first (has_id i) t.budgets) _ w.tables h)
      refl
