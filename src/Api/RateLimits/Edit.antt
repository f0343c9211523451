-- ===== src/Api/RateLimits/Edit.antt =====
-- internal/api/ratelimit_handlers.go: `CreateAllocation`, `UpdateAllocation`, `DeleteAllocation`.
use quota_management.Prelude.{
  ℕ, String, Bool, true, false, ◌&&◌, ◌||◌, not, Option, none, some, is_some, ltb, ◌==◌,
  if◌then◌else◌,
}
use quota_management.Models.Budget.{ApprovalStatus, pending, approved}
use quota_management.Models.RateLimit.{RateLimitAllocation, enforced}
use quota_management.Db.World.{
  Result, ok, err, not_found, optimistic_lock, duplicate_entity, M, ◌>>=◌, ◌>>◌, pure, attempt,
}
use quota_management.RateLimit.Store.{
  is_pending, create_allocation, update_allocation, delete_allocation,
}
use quota_management.RateLimit.Records.{get_allocation_by_id, create_approval}
use quota_management.Auth.Identity.{Identity}
use quota_management.Auth.Rbac.{is_empty}
use quota_management.Api.Budgets.{non_empty, or_else}
use quota_management.Api.RateLimits.{
  CreateAllocationRequest, UpdateAllocationRequest, approval_record, with_allocation,
}

abbrev pub is_unbounded : CreateAllocationRequest → Bool
is_unbounded req = not (is_some req.token_limit) && not (is_some req.request_limit)

abbrev pub is_unnamed : CreateAllocationRequest → Bool
is_unnamed req = is_empty req.org_id || (is_empty req.team_id || is_empty req.model_pattern)

-- What an administrator of an organisation creates, or a caller without an identity, is approved.
abbrev pub first_status : Option Identity → ApprovalStatus
first_status none = approved
first_status (some i) = if i.is_org then approved else pending

abbrev approver : Option Identity → Option String
approver none = none
approver (some i) = if i.is_org then non_empty i.email else none

abbrev creator_id : Option Identity → Option String
creator_id none = none
creator_id (some i) = some i.subject

abbrev creator_email : Option Identity → Option String
creator_email none = none
creator_email (some i) = some i.email

abbrev pub draft_allocation : ℕ → CreateAllocationRequest → Option Identity → RateLimitAllocation
draft_allocation i req who = record {
  id = i;
  org_id = req.org_id;
  team_id = req.team_id;
  model_pattern = req.model_pattern;
  token_limit = req.token_limit;
  token_unit = req.token_unit;
  request_limit = req.request_limit;
  request_unit = req.request_unit;
  burst_percentage = req.burst_percentage;
  enforcement = enforced;
  enabled = true;
  disabled_by_user_id = none;
  disabled_by_email = none;
  disabled_by_is_org = false;
  disabled_at = none;
  approval_status = first_status who;
  approved_by = approver who;
  approved_at = none;
  created_by_user_id = creator_id who;
  created_by_email = creator_email who;
  description = non_empty req.description;
  rejection_count = 0;
  version = 0;
}

-- The record of a submission is written after the row, and its failure is ignored.
abbrev pub created : Option Identity → RateLimitAllocation → Result (Unit {0}) → M ℕ
created who a (err duplicate_entity) = pure 409
created who a (err e) = pure 500
created who a (ok _) =
    if is_pending a.approval_status
    then attempt (create_approval (approval_record a.id 1 "submitted" who none)) >> pure 201
    else pure 201

-- `CreateAllocation`, under the id that the new row is given. The caller's organisation and team are
-- not compared with the request's.
unfoldable pub create_allocation_request :
    ℕ → Option CreateAllocationRequest → Option Identity → M ℕ
create_allocation_request i none who = pure 400
create_allocation_request i (some req) who =
    if is_unnamed req || is_unbounded req then pure 400 else (do
      done ← attempt (create_allocation (draft_allocation i req who))
      created who (draft_allocation i req who) done)

abbrev given {ℓ} : {A : Type ℓ} → Option A → Option A → Option A
given before none = before
given before (some a) = some a

abbrev pub with_limits : UpdateAllocationRequest → RateLimitAllocation → RateLimitAllocation
with_limits req a = record a {
  model_pattern = if is_empty req.model_pattern then a.model_pattern else req.model_pattern;
  token_limit = given a.token_limit req.token_limit;
  token_unit = given a.token_unit req.token_unit;
  request_limit = given a.request_limit req.request_limit;
  request_unit = given a.request_unit req.request_unit;
  burst_percentage = or_else a.burst_percentage req.burst_percentage;
  enforcement = or_else a.enforcement req.enforcement;
  description = if is_empty req.description then a.description else some req.description;
}

abbrev pub can_enable_rate_limit : RateLimitAllocation → Identity → Bool
can_enable_rate_limit a i = if a.enabled then true else not (a.disabled_by_is_org && not i.is_org)

abbrev pub may_switch_on : Option Identity → RateLimitAllocation → Bool
may_switch_on none a = true
may_switch_on (some i) a = can_enable_rate_limit a i

abbrev pub switched_on : RateLimitAllocation → RateLimitAllocation
switched_on a = record a {
  enabled = true;
  disabled_by_user_id = none;
  disabled_by_email = none;
  disabled_by_is_org = false;
  disabled_at = none;
}

abbrev pub switched_off : Option Identity → ℕ → RateLimitAllocation → RateLimitAllocation
switched_off none now a = record a { enabled = false }
switched_off (some i) now a = record a {
  enabled = false;
  disabled_by_user_id = some i.subject;
  disabled_by_email = some i.email;
  disabled_by_is_org = i.is_org;
  disabled_at = some now;
}

abbrev pub switch_allocation :
    Option Identity → Option Bool → ℕ → RateLimitAllocation → Option RateLimitAllocation
switch_allocation who none now a = some a
switch_allocation who (some true) now a = if may_switch_on who a then some (switched_on a) else none
switch_allocation who (some false) now a = some (switched_off who now a)

abbrev pub saved : Result (Unit {0}) → M ℕ
saved (ok _) = pure 200
saved (err optimistic_lock) = pure 409
saved (err e) = pure 500

abbrev pub save : Option RateLimitAllocation → M ℕ
save none = pure 403
save (some a) = do done ← attempt (update_allocation a); saved done

-- A version of 0 is none.
abbrev pub update_with :
    Option UpdateAllocationRequest → Option Identity → RateLimitAllocation → M ℕ
update_with none who a w = pure 400 w
update_with (some req) who a w =
    (if ltb 0 req.version && not (req.version == a.version)
        then pure 409
        else save (switch_allocation who req.enabled w.now (with_limits req a)))
      w

-- `UpdateAllocation`. It asks for no role, and leaves an approved allocation approved.
unfoldable pub update_allocation_request :
    Option ℕ → Option UpdateAllocationRequest → Option Identity → M ℕ
update_allocation_request none body who = pure 400
update_allocation_request (some i) body who = do
  found ← attempt (get_allocation_by_id i)
  with_allocation found (update_with body who)

abbrev pub removed : Result (Unit {0}) → M ℕ
removed (ok _) = pure 204
removed (err not_found) = pure 404
removed (err e) = pure 500

-- `DeleteAllocation`. The row is read for the audit trail alone.
unfoldable pub delete_allocation_request : Option ℕ → M ℕ
delete_allocation_request none = pure 400
delete_allocation_request (some i) = do
  attempt (get_allocation_by_id i)
  done ← attempt (delete_allocation i)
  removed done
