-- ===== src/Api/RateLimits/Decide.antt =====
-- internal/api/ratelimit_handlers.go: `ApproveAllocation`, `RejectAllocation`, `ResubmitAllocation`.
-- No role is asked for.
use quota_management.Prelude.{ℕ, String, ◌+◌, not, Option, none, some, str_eq, ◌==◌, if◌then◌else◌}
use quota_management.Models.RateLimit.{
  RateLimitAllocation, RateLimitApproval, Enforcement, enforced, monitoring,
}
use quota_management.Db.World.{Result, ok, err, not_found, M, ◌>>=◌, ◌>>◌, pure, throw, attempt}
use quota_management.RateLimit.Store.{
  is_rejected, approve_allocation, reject_allocation, reset_allocation_for_resubmit,
}
use quota_management.RateLimit.Records.{
  get_allocation_by_id, create_approval, get_latest_attempt_number,
}
use quota_management.Auth.Identity.{Identity}
use quota_management.Auth.Rbac.{is_empty}
use quota_management.Api.Budgets.{non_empty}
use quota_management.Api.RateLimits.{approval_record, with_allocation}

abbrev pub enforcement_of : String → Enforcement
enforcement_of s = if str_eq s "monitoring" then monitoring else enforced

abbrev pub approver_of : Option Identity → String
approver_of none = "admin"
approver_of (some i) = if is_empty i.email then i.subject else i.email

-- An attempt number that cannot be read counts as 0.
abbrev pub number_of : Result ℕ → ℕ
number_of (ok n) = n
number_of (err e) = 0

abbrev pub attempt_of : Result ℕ → ℕ
attempt_of r = let n = number_of r in if n == 0 then 1 else n

abbrev pub shown : Result RateLimitAllocation → M ℕ
shown (ok a) = pure 200
shown (err e) = pure 500

-- The decision stands, also where the record of it or the row cannot be written or read after it.
abbrev pub decided : RateLimitApproval → Result (Unit {0}) → M ℕ
decided r (err not_found) = pure 404
decided r (err e) = pure 500
decided r (ok _) = do
  attempt (create_approval r)
  row ← attempt (get_allocation_by_id r.allocation_id)
  shown row

-- The enforcement is that of the decoded body, or the empty text.
unfoldable pub approve_allocation_request : Option ℕ → String → Option Identity → M ℕ
approve_allocation_request none e who = pure 400
approve_allocation_request (some i) e who = do
  n ← attempt (get_latest_attempt_number i)
  done ← attempt (approve_allocation i (approver_of who) (enforcement_of e))
  decided (approval_record i (attempt_of n) "approved" who none) done

unfoldable pub reject_allocation_request : Option ℕ → String → Option Identity → M ℕ
reject_allocation_request none reason who = pure 400
reject_allocation_request (some i) reason who = do
  n ← attempt (get_latest_attempt_number i)
  done ← attempt (reject_allocation i)
  decided (approval_record i (attempt_of n) "rejected" who (non_empty reason)) done

-- The row that cannot be read again is a nil pointer, and its use a panic: there is no response.
abbrev pub shown_again : Result RateLimitAllocation → M ℕ
shown_again (ok a) = pure 200
shown_again (err e) = throw e

abbrev pub resubmitted : RateLimitApproval → Result (Unit {0}) → M ℕ
resubmitted r (err e) = pure 500
resubmitted r (ok _) = do
  attempt (create_approval r)
  row ← attempt (get_allocation_by_id r.allocation_id)
  shown_again row

abbrev pub resubmit_row : Option Identity → ℕ → RateLimitAllocation → M ℕ
resubmit_row who i a = if not (is_rejected a.approval_status) then pure 400 else (do
  n ← attempt (get_latest_attempt_number i)
  done ← attempt (reset_allocation_for_resubmit i)
  resubmitted (approval_record i (number_of n + 1) "resubmitted" who none) done)

unfoldable pub resubmit_allocation_request : Option ℕ → Option Identity → M ℕ
resubmit_allocation_request none who = pure 400
resubmit_allocation_request (some i) who = do
  found ← attempt (get_allocation_by_id i)
  with_allocation found (resubmit_row who i)
