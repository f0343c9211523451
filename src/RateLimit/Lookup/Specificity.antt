-- ===== src/RateLimit/Lookup/Specificity.antt =====
-- The limits that the lookup enforces are those of the most specific allocations.
use quota_management.Prelude.{
  String, ◌≤◌, ◌≡◌, refl, Bool, true, false, Option, none, some, List, arith, All, find_first,
  select, str_eq, Memᴰ, All_of, All_at,
}
use quota_management.Db.Order.{order_by}
use quota_management.Db.World.{ok}
use quota_management.Models.RateLimit.{RateLimitAllocation}
use quota_management.RateLimit.Lookup.{
  RateLimitMetadata, RateLimitValue, merge, token_value, request_value, no_limits, applies, rank,
  more_specific, get_allocations_for_team_model, enforced_limits, lookup_rate_limit_allocation,
}
use quota_management.RateLimit.Lookup.Ranked.{
  gives_tokens, gives_requests, value_of, merge_lem, order_by-All, Serves, Serves-applies,
  found_row, select_reflects, order_by-Sorted, first_is_least, first_none,
}

-- The limit comes from one of the rows that serves the team and the model and gives one, and no
-- other such row is more specific; there is none only where no such row exists.
abbrev pub Chosen :
    String
    → String
    → List RateLimitAllocation
    → (RateLimitAllocation → Bool)
    → (RateLimitAllocation → RateLimitValue)
    → Option RateLimitValue
    → Type 0
Chosen team model rows gives value none = All (λ b. Serves team model b → gives b ≡ false) rows
Chosen team model rows gives value (some v) =
    (a : RateLimitAllocation) × Memᴰ a rows
    × (v ≡ value a)
    × Serves team model a
    × (gives a ≡ true)
    × All (λ b. Serves team model b → gives b ≡ true → rank model a ≤ rank model b) rows

-- The limits that are enforced.
abbrev pub limits_of : Option RateLimitMetadata → RateLimitMetadata
limits_of none = no_limits
limits_of (some m) = m

pub limits-enforced : (m : RateLimitMetadata) → limits_of (enforced_limits m) ≡ m
limits-enforced m = ground arith

module _ (team model : String) (rows : List RateLimitAllocation) where
  -- What the rows that pass the query's condition have, the rows that serve have.
  for_serving :
      (Q : RateLimitAllocation → Type 0)
      → All Q (select (applies team model) rows)
      → All (λ b. Serves team model b → Q b) rows
  for_serving Q h =
      All_of (λ b. Serves team model b → Q b) rows
        (λ b m serves.
          All_at (λ c. applies team model c ≡ true → Q c) rows
            (select_reflects Q (applies team model) rows h) m (Serves-applies team model b serves))

  first-Chosen :
      (gives : RateLimitAllocation → Bool) (value : RateLimitAllocation → RateLimitValue)
      (o : Option RateLimitAllocation)
      → find_first gives (get_allocations_for_team_model team model rows) ≡ o
      → Chosen team model rows gives value (value_of value o)
  unfolding get_allocations_for_team_model
  first-Chosen gives value none e =
      for_serving (λ b. gives b ≡ false)
        (order_by-All model (λ b. gives b ≡ false) (select (applies team model) rows)
          (first_none model gives _ e))
  first-Chosen gives value (some a) e =
      let sorted : List RateLimitAllocation =
        order_by (more_specific model) (select (applies team model) rows) in
      let (among, serves, given) = found_row team model gives rows a e in
      (
        a,
        among,
        refl,
        serves,
        given,
        for_serving (λ b. gives b ≡ true → rank model a ≤ rank model b)
            (order_by-All model (λ b. gives b ≡ true → rank model a ≤ rank model b)
              (select (applies team model) rows)
              (first_is_least model gives sorted a
                (order_by-Sorted model (select (applies team model) rows)) e)),
      )

  -- For a team with a name, once the query has succeeded, each limit that the lookup enforces is that
  -- of a stored allocation of the team which is enabled and approved, whose pattern matches the model,
  -- which is not monitoring and gives a positive limit of the kind, and no other such allocation is
  -- more specific; where the lookup enforces none of a kind, no such allocation is stored.
  pub lookup_rate_limit_allocation-Chosen :
      str_eq team "" ≡ false
      → let limits = limits_of (lookup_rate_limit_allocation team model (ok rows)) in
        Chosen team model rows gives_tokens token_value limits.token
        × Chosen team model rows gives_requests request_value limits.request
  unfolding lookup_rate_limit_allocation
  lookup_rate_limit_allocation-Chosen named =
      let found : List RateLimitAllocation = get_allocations_for_team_model team model rows in
      let (tokens, requests) = merge_lem found no_limits in
      rw (named, limits-enforced (merge found no_limits), tokens, requests)
        (
          first-Chosen gives_tokens token_value (find_first gives_tokens found) refl,
          first-Chosen gives_requests request_value (find_first gives_requests found) refl,
        )
