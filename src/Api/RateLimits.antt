-- ===== src/Api/RateLimits.antt =====
-- internal/api/ratelimit_handlers.go: the requests on allocations of rate limits. Texts outside the
-- enum of the enforcement, and negative numbers, are not modelled.
pub mod Edit
pub mod Decide
pub mod Answers
pub mod Sanction
pub mod Enforced
use quota_management.Prelude.{
  ℕ, String, Bool, true, false, ◌&&◌, not, Option, none, some, if◌then◌else◌,
}
use quota_management.Models.RateLimit.{RateLimitAllocation, RateLimitApproval, Enforcement}
use quota_management.Db.World.{Result, ok, err, not_found, M, pure}
use quota_management.Auth.Identity.{Identity}
use quota_management.Api.Budgets.{non_empty}

pub record CreateAllocationRequest : Type 0 where
  pub org_id : String
  pub team_id : String
  pub model_pattern : String
  pub token_limit : Option ℕ
  pub token_unit : Option String
  pub request_limit : Option ℕ
  pub request_unit : Option String
  pub burst_percentage : ℕ
  pub description : String

-- An absent enforcement is `none`.
pub record UpdateAllocationRequest : Type 0 where
  pub model_pattern : String
  pub token_limit : Option ℕ
  pub token_unit : Option String
  pub request_limit : Option ℕ
  pub request_unit : Option String
  pub burst_percentage : Option ℕ
  pub enforcement : Option Enforcement
  pub enabled : Option Bool
  pub description : String
  pub version : ℕ

abbrev pub actor_id : Option Identity → Option String
actor_id none = none
actor_id (some i) = non_empty i.subject

abbrev pub actor_email_of : Option Identity → Option String
actor_email_of none = none
actor_email_of (some i) = non_empty i.email

abbrev pub approval_record : ℕ → ℕ → String → Option Identity → Option String → RateLimitApproval
approval_record i n action who reason = record {
  allocation_id = i;
  attempt_number = n;
  action = action;
  actor_user_id = actor_id who;
  actor_email = actor_email_of who;
  reason = reason;
}

-- The allocation that was read, or the response to the error.
abbrev pub with_allocation : Result RateLimitAllocation → (RateLimitAllocation → M ℕ) → M ℕ
with_allocation (ok a) f = f a
with_allocation (err not_found) f = pure 404
with_allocation (err e) f = pure 500
