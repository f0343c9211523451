-- ===== src/Budget/Pricing.antt =====
-- internal/budget/service.go: `GetModelCost`, `RefreshModelCostCache`, `CalculateCost` and
-- `EstimateCost`. A price is in units of 10^-10 USD per million tokens, the scale of its column,
-- so that tokens times price is a whole number of quanta.
use quota_management.Prelude.{
  ℕ, String, ◌+◌, ◌*◌, ◌/◌, Bool, true, false, ◌&&◌, not, Option, none, some, List, [], ◌∷◌, map,
  ltb, if◌then◌else◌, str_eq,
}
use quota_management.Config.{Config}
use quota_management.Models.Budget.{ModelCost}
use quota_management.Db.World.{
  Error, not_found, Result, ok, err, World, M, ◌>>=◌, ◌>>◌, pure, throw, modify, attempt, lift,
  pool, query,
}
use quota_management.Db.ModelCosts.{get_model_cost_by_id}
use quota_management.Budget.ModelName.{strip_version}

abbrev pub is_not_found : Error → Bool
is_not_found not_found = true
is_not_found _ = false

abbrev pub lookup_cost : String → List (String × ModelCost) → Option ModelCost
lookup_cost m [] = none
lookup_cost m ((k, c) ∷ cs) = if str_eq k m then some c else lookup_cost m cs

-- A hit counts while the cache as a whole has not run out.
abbrev pub cache_hit : String → World → Option ModelCost
cache_hit m w =
    if ltb w.now w.cost_cache.costs_expire_at then lookup_cost m w.cost_cache.costs else none

-- The entry is written, and the cache's time is set only if it has run out.
abbrev pub remember : Config → String → ModelCost → World → World
remember cfg m c w = record w {
  cost_cache = record {
    costs = (m, c) ∷ w.cost_cache.costs;
    costs_expire_at =
        if ltb w.cost_cache.costs_expire_at w.now
        then w.now + cfg.model_cost_cache_ttl
        else w.cost_cache.costs_expire_at;
  };
}

-- An exact match, else a match without the version suffix.
abbrev pub retry : String → Result ModelCost → M ModelCost
retry m (ok c) = pure c
retry m (err e) =
    if is_not_found e && not (str_eq (strip_version m) m)
    then get_model_cost_by_id (strip_version m)
    else throw e

unfoldable pub fetch_cost : Config → String → M ModelCost
fetch_cost cfg m = do
  first ← attempt (get_model_cost_by_id m)
  c ← retry m first
  modify (remember cfg m c)
  pure c

abbrev pub or_fetch : Config → String → Option ModelCost → M ModelCost
or_fetch cfg m none = fetch_cost cfg m
or_fetch cfg m (some c) = pure c

unfoldable pub get_model_cost : Config → String → M ModelCost
get_model_cost cfg m w = or_fetch cfg m (cache_hit m w) w

abbrev keyed : ModelCost → String × ModelCost
keyed c = (c.model_id, c)

pub refresh_model_cost_cache : Config → M (Unit {0})
refresh_model_cost_cache cfg = do
  costs ← pool (query (λ t. t.model_costs))
  modify (λ w. record w {
    cost_cache = record {
      costs = map keyed costs;
      costs_expire_at = w.now + cfg.model_cost_cache_ttl;
    };
  })

abbrev pub priced : ℕ → ℕ → ℕ → ℕ → ℕ
priced input_price output_price input output = input * input_price + output * output_price

-- $1 and $3 per million tokens.
abbrev pub default_input_price : ℕ
default_input_price = 10_000_000_000

abbrev pub default_output_price : ℕ
default_output_price = 30_000_000_000

abbrev cost_with : ℕ → ℕ → Result ModelCost → Result ℕ
cost_with input output (ok c) =
    ok (priced c.input_cost_per_million c.output_cost_per_million input output)
cost_with input output (err e) =
    if is_not_found e
    then ok (priced default_input_price default_output_price input output)
    else err e

unfoldable pub calculate_cost : Config → String → ℕ → ℕ → M ℕ
calculate_cost cfg m input output = do
  c ← attempt (get_model_cost cfg m)
  lift (cost_with input output c)

-- $0.01
abbrev pub fallback_estimate : ℕ
fallback_estimate = 100_000_000_000_000

abbrev estimate_with : Config → Result ℕ → ℕ
estimate_with cfg (ok cost) = cost * cfg.default_estimation_multiplier / 100
estimate_with cfg (err e) = fallback_estimate

-- It reports no error.
unfoldable pub estimate_cost : Config → String → M ℕ
estimate_cost cfg m = do
  cost ←
      attempt (
        calculate_cost cfg m cfg.default_estimated_input_tokens cfg.default_estimated_output_tokens)
  pure (estimate_with cfg cost)
