-- ===== src/RateLimit/Lookup/Origin.antt =====
-- internal/extproc/ratelimit_server.go: where the enforced limits come from.
use quota_management.Prelude.{
  String, ◌≡◌, refl, Bool, false, Option, none, some, List, find_first, str_eq, Memᴰ,
}
use quota_management.Models.RateLimit.{RateLimitAllocation}
use quota_management.Db.World.{ok}
use quota_management.RateLimit.Lookup.{
  RateLimitValue, get_allocations_for_team_model, lookup_rate_limit_allocation, merge, no_limits,
  token_value, request_value,
}
use quota_management.RateLimit.Lookup.Specificity.{limits_of, limits-enforced}
use quota_management.RateLimit.Lookup.Ranked.{
  gives_tokens, gives_requests, value_of, merge_lem, Serves, found_row,
}

-- A limit, where there is one, is that of one of the rows, which serves the team and the model and
-- has the property.
abbrev pub From {κ} :
    String
    → String
    → List RateLimitAllocation
    → (RateLimitAllocation → Type κ)
    → (RateLimitAllocation → RateLimitValue)
    → Option RateLimitValue
    → Type κ
From team model rows P value none = Unit
From team model rows P value (some v) =
    (a : RateLimitAllocation) × Memᴰ a rows × (v ≡ value a) × Serves team model a × P a

module _ {κ} (team model : String) (P : RateLimitAllocation → Type κ)
    (rows : List RateLimitAllocation)
    (all : (a : RateLimitAllocation) → Memᴰ a rows → Serves team model a → P a) where
  first-From :
      (gives : RateLimitAllocation → Bool) (value : RateLimitAllocation → RateLimitValue)
      (o : Option RateLimitAllocation)
      → find_first gives (get_allocations_for_team_model team model rows) ≡ o
      → From team model rows P value (value_of value o)
  first-From gives value none e = tt
  first-From gives value (some a) e =
      let (among, serves, _) = found_row team model gives rows a e in
      (a, among, refl, serves, all a among serves)

  pub lookup_rate_limit_allocation-From :
      str_eq team "" ≡ false
      → let limits = limits_of (lookup_rate_limit_allocation team model (ok rows)) in
        From team model rows P token_value limits.token
        × From team model rows P request_value limits.request
  unfolding lookup_rate_limit_allocation
  lookup_rate_limit_allocation-From named =
      let found : List RateLimitAllocation = get_allocations_for_team_model team model rows in
      let (tokens, requests) = merge_lem found no_limits in
      rw (named, limits-enforced (merge found no_limits), tokens, requests)
        (
          first-From gives_tokens token_value (find_first gives_tokens found) refl,
          first-From gives_requests request_value (find_first gives_requests found) refl,
        )
