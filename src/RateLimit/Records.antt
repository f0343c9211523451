-- ===== src/RateLimit/Records.antt =====
-- internal/db/ratelimit_repository.go: the search for an allocation, and the records of its approval.
use quota_management.Prelude.{
  ℕ, ◌&&◌, Option, none, some, List, [], ◌∷◌, find_first, is_some, ltb, ◌==◌, if◌then◌else◌,
}
use quota_management.Models.RateLimit.{RateLimitAllocation, RateLimitApproval}
use quota_management.Db.World.{M, Result, ok, err, not_found, Statement, ◌>>=◌, lift, pool, query}
use quota_management.RateLimit.Store.{allocation_id}

abbrev found_or_not : Option RateLimitAllocation → Result RateLimitAllocation
found_or_not none = err not_found
found_or_not (some a) = ok a

unfoldable pub get_allocation_by_id : ℕ → M RateLimitAllocation
get_allocation_by_id i = do
  row ← pool (query (λ t. find_first (allocation_id i) t.allocations))
  lift (found_or_not row)

-- A record needs its allocation.
abbrev pub insert_approval : RateLimitApproval → Statement (Unit {0})
insert_approval r t =
    if is_some (find_first (allocation_id r.allocation_id) t.allocations)
    then some (tt, record t { allocation_approvals = r ∷ t.allocation_approvals })
    else none

unfoldable pub create_approval : RateLimitApproval → M (Unit {0})
create_approval r = pool (insert_approval r)

-- The largest attempt number among the records of an allocation, or 0.
abbrev pub latest_attempt : ℕ → List RateLimitApproval → ℕ
latest_attempt i [] = 0
latest_attempt i (r ∷ rs) =
    let rest = latest_attempt i rs in
    if r.allocation_id == i && ltb rest r.attempt_number then r.attempt_number else rest

unfoldable pub get_latest_attempt_number : ℕ → M ℕ
get_latest_attempt_number i = pool (query (λ t. latest_attempt i t.allocation_approvals))
