-- ===== src/Tests/RateLimits.antt =====
-- A lookup with a pattern and an exact match.
use quota_management.Prelude.{String, refl, Option, none, some, List, [], ◌∷◌, ℕ, true, false}
use quota_management.Models.Budget.{approved, pending}
use quota_management.Db.World.{ok, World}
use quota_management.Models.RateLimit.{RateLimitAllocation, enforced}
use quota_management.RateLimit.Lifecycle.{AllStep, perform, reject, perform-AllStep}
use quota_management.Tests.{store}
use quota_management.RateLimit.Lookup.{lookup_rate_limit_allocation, token_value, request_value}
use quota_management.RateLimit.Lookup.Specificity.{
  Chosen, limits_of, lookup_rate_limit_allocation-Chosen,
}
use quota_management.RateLimit.Lookup.Ranked.{gives_tokens, gives_requests}

abbrev pub allocation : ℕ → String → Option ℕ → Option ℕ → RateLimitAllocation
allocation i pattern tokens requests = record {
  id = i;
  org_id = "acme";
  team_id = "core";
  model_pattern = pattern;
  token_limit = tokens;
  token_unit = some "MINUTE";
  request_limit = requests;
  request_unit = some "MINUTE";
  burst_percentage = 0;
  enforcement = enforced;
  enabled = true;
  disabled_by_user_id = none;
  disabled_by_email = none;
  disabled_by_is_org = false;
  disabled_at = none;
  approval_status = approved;
  approved_by = none;
  approved_at = none;
  created_by_user_id = none;
  created_by_email = none;
  description = none;
  rejection_count = 0;
  version = 1;
}

abbrev pub rows : List RateLimitAllocation
rows = allocation 1 "*" (some 10) (some 10) ∷ allocation 2 "gpt-4o" (some 5) none ∷ []

lookup_rate_limit_allocation-Chosen_example :
    let limits = limits_of (lookup_rate_limit_allocation "core" "gpt-4o" (ok rows)) in
    Chosen "core" "gpt-4o" rows gives_tokens token_value limits.token
    × Chosen "core" "gpt-4o" rows gives_requests request_value limits.request
lookup_rate_limit_allocation-Chosen_example =
    lookup_rate_limit_allocation-Chosen "core" "gpt-4o" rows refl

abbrev applied : World
applied = record store { tables = record store.tables { allocations = submitted ∷ [] } }
  where
    submitted : RateLimitAllocation
    submitted = record (allocation 1 "*" (some 10) none) { approval_status = pending }

perform-AllStep_example :
    AllStep (reject 1) applied.tables.allocations (perform (reject 1) applied).1.tables.allocations
perform-AllStep_example = perform-AllStep (reject 1) applied
