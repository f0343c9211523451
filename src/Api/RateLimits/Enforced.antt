-- ===== src/Api/RateLimits/Enforced.antt =====
-- internal/api/ratelimit_handlers.go with internal/extproc/ratelimit_server.go: the requests to the
-- API and the lookup of the processor on what they leave.
use quota_management.Prelude.{◌≡◌, true, ◌||◌, List}
use quota_management.Models.RateLimit.{RateLimitAllocation}
use quota_management.Db.World.{World}
use quota_management.Api.RateLimits.Sanction.{Request, approved_before, any_approves}

abbrev pub ApprovedBy : World → List Request → RateLimitAllocation → Type 0
ApprovedBy w rs a = (approved_before w.tables.allocations a.id || any_approves rs a.id) ≡ true
