-- ===== src/Db/ModelCosts.antt =====
-- internal/db/repository.go: the statements on model_costs.
use quota_management.Prelude.{
  String, Bool, Option, none, some, [], ◌∷◌, find_first, str_eq, select, not, is_some, ◌++◌,
  if◌then◌else◌, update_where,
}
use quota_management.Models.Budget.{ModelCost}
use quota_management.Db.World.{not_found, M, Result, ok, err, ◌>>=◌, lift, pool, query}

abbrev pub or_not_found {ℓ} : {A : Type ℓ} → Option A → Result A
or_not_found none = err not_found
or_not_found (some a) = ok a

abbrev pub has_model : String → ModelCost → Bool
has_model m c = str_eq c.model_id m

unfoldable pub get_model_cost_by_id : String → M ModelCost
get_model_cost_by_id m = do
  row ← pool (query (λ t. find_first (has_model m) t.model_costs))
  lift (or_not_found row)

-- The column model_id is unique.
unfoldable pub create_model_cost : ModelCost → M (Unit {0})
create_model_cost c = pool λ t.
    if is_some (find_first (has_model c.model_id) t.model_costs)
    then none
    else some (tt, record t { model_costs = t.model_costs ++ (c ∷ []) })

-- Both report `ErrNotFound` where no row is affected.
unfoldable pub update_model_cost : ModelCost → M (Unit {0})
update_model_cost c = do
  hit ← pool λ t. some (
    is_some (find_first (has_model c.model_id) t.model_costs),
    record t { model_costs = update_where (has_model c.model_id) (λ _. c) t.model_costs },
  )
  lift (if hit then ok tt else err not_found)

unfoldable pub delete_model_cost : String → M (Unit {0})
delete_model_cost m = do
  hit ← pool λ t. some (
    is_some (find_first (has_model m) t.model_costs),
    record t { model_costs = select (λ c. not (has_model m c)) t.model_costs },
  )
  lift (if hit then ok tt else err not_found)
