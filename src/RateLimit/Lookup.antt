-- ===== src/RateLimit/Lookup.antt =====
-- internal/extproc/ratelimit_server.go: `lookupRateLimitAllocation`, and the query
-- `GetAllocationsForTeamModel` of internal/db/ratelimit_repository.go.
pub mod Ranked
pub mod Specificity
pub mod Origin
use quota_management.Prelude.{
  ℕ, String, ◌≡◌, Bool, true, false, ◌&&◌, Option, none, some, List, [], ◌∷◌, is_some, ltb, select,
  str_eq, if◌then◌else◌, not,
}
use quota_management.Db.Order.{order_by}
use quota_management.Db.Budgets.{is_approved}
use quota_management.Db.World.{Result, ok, err}
use quota_management.Models.RateLimit.{
  RateLimitAllocation, Enforcement, enforced, monitoring, has_token_limit, has_request_limit,
}
use quota_management.RateLimit.Pattern.{matches_model}

-- The condition of the query.
abbrev pub applies : String → String → RateLimitAllocation → Bool
applies team model a =
    str_eq a.team_id team
    && (a.enabled && (is_approved a.approval_status && matches_model a.model_pattern model))

-- Exact match, pattern, wildcard.
abbrev pub rank : String → RateLimitAllocation → ℕ
rank model a =
    if str_eq a.model_pattern model then 0 else if str_eq a.model_pattern "*" then 2 else 1

abbrev pub more_specific : String → RateLimitAllocation → RateLimitAllocation → Bool
more_specific model a b = ltb (rank model a) (rank model b)

-- Rows of one rank stand in the order of the table.
unfoldable pub get_allocations_for_team_model :
    String → String → List RateLimitAllocation → List RateLimitAllocation
get_allocations_for_team_model team model rows =
    order_by (more_specific model) (select (applies team model) rows)

pub record RateLimitValue : Type 0 where
  pub requests_per_unit : Option ℕ
  pub unit : Option String

pub record RateLimitMetadata : Type 0 where
  pub token : Option RateLimitValue
  pub request : Option RateLimitValue

abbrev pub is_monitoring : Enforcement → Bool
is_monitoring monitoring = true
is_monitoring enforced = false

abbrev pub token_value : RateLimitAllocation → RateLimitValue
token_value a = record { requests_per_unit = a.token_limit; unit = a.token_unit }

abbrev pub request_value : RateLimitAllocation → RateLimitValue
request_value a = record { requests_per_unit = a.request_limit; unit = a.request_unit }

abbrev pub take_limits : RateLimitAllocation → RateLimitMetadata → RateLimitMetadata
take_limits a m = record {
  token = if not (is_some m.token) && has_token_limit a then some (token_value a) else m.token;
  request =
      if not (is_some m.request) && has_request_limit a then some (request_value a) else m.request;
}

-- The loop over the allocations, which ends when both limits are found.
unfoldable pub merge : List RateLimitAllocation → RateLimitMetadata → RateLimitMetadata
merge [] m = m
merge (a ∷ rest) m =
    let skipped = merge rest m in
    let taken = take_limits a m in
    let going = merge rest taken in
    if is_monitoring a.enforcement
    then skipped
    else if is_some taken.token && is_some taken.request
    then taken
    else going

abbrev pub no_limits : RateLimitMetadata
no_limits = record { token = none; request = none }

abbrev pub enforced_limits : RateLimitMetadata → Option RateLimitMetadata
enforced_limits m = if not (is_some m.token) && not (is_some m.request) then none else some m

-- Without a team, and when the query fails, nothing is enforced.
unfoldable pub lookup_rate_limit_allocation :
    String → String → Result (List RateLimitAllocation) → Option RateLimitMetadata
lookup_rate_limit_allocation team model (err e) = none
lookup_rate_limit_allocation team model (ok rows) =
    if str_eq team ""
    then none
    else enforced_limits (merge (get_allocations_for_team_model team model rows) no_limits)
