-- ===== src/Budget/Reserve/Quiet.antt =====
-- The estimate reads the database and its cache alone: nothing stored changes.
use quota_management.Prelude.{
  ℕ, String, ◌≡◌, refl, ◌∙◌, ◌&&◌, not, Option, none, some, find_first, if_lem, str_eq,
}
use quota_management.Config.{Config}
use quota_management.Models.Budget.{ModelCost}
use quota_management.Db.World.{Result, ok, err, World, M, lift, pool, query}
use quota_management.Db.Keeps.{Keeps, Keeps-bind, Keeps-query, stored}
use quota_management.Db.ModelCosts.{get_model_cost_by_id, has_model, or_not_found}
use quota_management.Budget.Pricing.{
  retry, remember, fetch_cost, or_fetch, get_model_cost, calculate_cost, estimate_cost, cache_hit,
  is_not_found,
}
use quota_management.Budget.ModelName.{strip_version}

get_model_cost_by_id-Keeps : (m : String) → Keeps stored (get_model_cost_by_id m)
unfolding get_model_cost_by_id
get_model_cost_by_id-Keeps m =
    Keeps-bind stored (pool (query (λ t. find_first (has_model m) t.model_costs)))
      (λ row. lift (or_not_found row)) (Keeps-query _) (λ row w. refl)

retry-Keeps : (m : String) (r : Result ModelCost) → Keeps stored (retry m r)
retry-Keeps m (ok c) w = refl
retry-Keeps m (err e) w =
    if_lem (λ (k : M ModelCost). stored (k w).1 ≡ stored w)
      (is_not_found e && not (str_eq (strip_version m) m))
      (get_model_cost_by_id-Keeps (strip_version m) w) refl

fetch_cost-Keeps : (cfg : Config) (m : String) → Keeps stored (fetch_cost cfg m)
unfolding fetch_cost
fetch_cost-Keeps cfg m w =
    Keeps-bind stored (retry m first) (λ c w'. (ok c, remember cfg m c w')) (retry-Keeps m first)
      (λ c w'. refl) w'
    ∙ get_model_cost_by_id-Keeps m w
  where
    first : Result ModelCost
    first = (get_model_cost_by_id m w).0

    w' : World
    w' = (get_model_cost_by_id m w).1

or_fetch-Keeps :
    (cfg : Config) (m : String) (hit : Option ModelCost) → Keeps stored (or_fetch cfg m hit)
or_fetch-Keeps cfg m none = fetch_cost-Keeps cfg m
or_fetch-Keeps cfg m (some c) = λ w. refl

get_model_cost-Keeps : (cfg : Config) (m : String) → Keeps stored (get_model_cost cfg m)
unfolding get_model_cost
get_model_cost-Keeps cfg m w = or_fetch-Keeps cfg m (cache_hit m w) w

pub calculate_cost-Keeps :
    (cfg : Config) (m : String) (input output : ℕ)
    → Keeps stored (calculate_cost cfg m input output)
unfolding calculate_cost
calculate_cost-Keeps cfg m input output w = get_model_cost-Keeps cfg m w

pub estimate_cost-Keeps : (cfg : Config) (m : String) → Keeps stored (estimate_cost cfg m)
unfolding estimate_cost
estimate_cost-Keeps cfg m w = calculate_cost-Keeps cfg m _ _ w
