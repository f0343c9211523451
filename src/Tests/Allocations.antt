-- ===== src/Tests/Allocations.antt =====
-- internal/api/ratelimit_handlers.go: a team asks for an allocation and then approves it.
use quota_management.Prelude.{none, some, List, [], ◌∷◌}
use quota_management.Api.RateLimits.{CreateAllocationRequest}
use quota_management.Api.RateLimits.Sanction.{Request, create, approve}
use quota_management.Tests.Budgets.{bob}

abbrev ask : CreateAllocationRequest
ask = record {
  org_id = "acme";
  team_id = "core";
  model_pattern = "gpt-4o";
  token_limit = some 10;
  token_unit = some "MINUTE";
  request_limit = none;
  request_unit = none;
  burst_percentage = 0;
  description = "";
}

abbrev requests : List Request
requests = create 7 (some ask) (some bob) ∷ approve (some 7) "" (some bob) ∷ []
