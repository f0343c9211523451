-- ===== src/Models/RateLimit.antt =====
-- internal/models/ratelimit.go: allocations.
use quota_management.Prelude.{ℕ, String, Bool, false, Option, none, some, ltb}
use quota_management.Models.Budget.{ApprovalStatus}

pub data Enforcement : Type 0 where
  enforced monitoring : Enforcement

-- A limit is a signed integer in the source; the columns hold no negative one.
pub record RateLimitAllocation : Type 0 where
  pub id : ℕ
  pub org_id : String
  pub team_id : String
  pub model_pattern : String
  pub token_limit : Option ℕ
  pub token_unit : Option String
  pub request_limit : Option ℕ
  pub request_unit : Option String
  pub burst_percentage : ℕ
  pub enforcement : Enforcement
  pub enabled : Bool
  pub disabled_by_user_id : Option String
  pub disabled_by_email : Option String
  pub disabled_by_is_org : Bool
  pub disabled_at : Option ℕ
  pub approval_status : ApprovalStatus
  pub approved_by : Option String
  pub approved_at : Option ℕ
  pub created_by_user_id : Option String
  pub created_by_email : Option String
  pub description : Option String
  pub rejection_count : ℕ
  pub version : ℕ

pub record RateLimitApproval : Type 0 where
  pub allocation_id : ℕ
  pub attempt_number : ℕ
  pub action : String
  pub actor_user_id : Option String
  pub actor_email : Option String
  pub reason : Option String

abbrev is_positive : Option ℕ → Bool
is_positive none = false
is_positive (some n) = ltb 0 n

abbrev pub has_token_limit : RateLimitAllocation → Bool
has_token_limit a = is_positive a.token_limit

abbrev pub has_request_limit : RateLimitAllocation → Bool
has_request_limit a = is_positive a.request_limit
