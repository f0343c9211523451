-- ===== src/RateLimit/Store.antt =====
-- internal/db/ratelimit_repository.go: the statements that change rate_limit_allocations.
use quota_management.Prelude.{
  ℕ, String, ◌+◌, Bool, true, false, ◌&&◌, ◌||◌, not, none, some, List, [], ◌∷◌, ◌++◌, find_first,
  select, is_some, count_where, update_where, if◌then◌else◌, ◌==◌, str_eq,
}
use quota_management.Models.Budget.{ApprovalStatus, pending, approved, rejected}
use quota_management.Models.RateLimit.{RateLimitAllocation, Enforcement}
use quota_management.Db.World.{
  M, Tables, Result, ok, err, Error, not_found, optimistic_lock, duplicate_entity, Statement, ◌>>=◌,
  ◌>>◌, lift, pool, query, exec, attempt,
}

abbrev pub allocation_id : ℕ → RateLimitAllocation → Bool
allocation_id i a = a.id == i

abbrev pub is_pending : ApprovalStatus → Bool
is_pending pending = true
is_pending _ = false

abbrev pub is_rejected : ApprovalStatus → Bool
is_rejected rejected = true
is_rejected _ = false

abbrev same_owner : RateLimitAllocation → RateLimitAllocation → Bool
same_owner a b =
    str_eq b.org_id a.org_id && str_eq b.team_id a.team_id && str_eq b.model_pattern a.model_pattern

-- The unique index: of one organisation, team and pattern one allocation at most is not rejected.
abbrev unique_active : List RateLimitAllocation → Bool
unique_active [] = true
unique_active (a ∷ rows) =
    (is_rejected a.approval_status
      || not
          (is_some (find_first (λ b. same_owner a b && not (is_rejected b.approval_status)) rows)))
    && unique_active rows

abbrev has_limit : RateLimitAllocation → Bool
has_limit a = is_some a.token_limit || is_some a.request_limit

abbrev all_limited : List RateLimitAllocation → Bool
all_limited [] = true
all_limited (a ∷ rows) = has_limit a && all_limited rows

abbrev pub keeps_constraints : List RateLimitAllocation → Bool
keeps_constraints rows = unique_active rows && all_limited rows

-- The rows, if they keep the constraints of the table.
abbrev pub with_allocations {ℓ} : {A : Type ℓ} → A → List RateLimitAllocation → Statement A
with_allocations a rows t =
    if keeps_constraints rows then some (a, record t { allocations = rows }) else none

abbrev pub update_allocations :
    (RateLimitAllocation → Bool) → (RateLimitAllocation → RateLimitAllocation) → Statement ℕ
update_allocations p f t =
    with_allocations (count_where p t.allocations) (update_where p f t.allocations) t

abbrev pub affected : Error → ℕ → Result (Unit {0})
affected e n = if n == 0 then err e else ok tt

-- `CreateAllocation`, of a row under an id that the caller drew, with its status set. Three
-- statements: the search for an allocation that is not rejected, in any organisation, the deletion
-- of rejected ones, whose failure is ignored, and the insertion.
abbrev pub insert_allocation : RateLimitAllocation → Statement (Unit {0})
insert_allocation a t =
    if is_some (find_first (allocation_id a.id) t.allocations)
    then none
    else with_allocations tt (t.allocations ++ (record a { rejection_count = 0; version = 1 } ∷ []))
        t

abbrev pub is_taken : RateLimitAllocation → RateLimitAllocation → Bool
is_taken a b =
    str_eq b.team_id a.team_id
    && str_eq b.model_pattern a.model_pattern
    && not (is_rejected b.approval_status)

-- `DELETE`: the approval records of the deleted rows go with them.
abbrev pub without_allocations : (RateLimitAllocation → Bool) → Tables → Tables
without_allocations p t = record t {
  allocations = select (λ a. not (p a)) t.allocations;
  allocation_approvals =
      select
        (λ r.
          not (is_some (find_first (λ a. allocation_id r.allocation_id a && p a) t.allocations)))
        t.allocation_approvals;
}

abbrev pub superseded : RateLimitAllocation → RateLimitAllocation → Bool
superseded a b = same_owner a b && is_rejected b.approval_status

abbrev pub unless_taken : RateLimitAllocation → Bool → M (Unit {0})
unless_taken a true = lift (err duplicate_entity)
unless_taken a false = do
  attempt (pool (exec (without_allocations (superseded a))))
  pool (insert_allocation a)

unfoldable pub create_allocation : RateLimitAllocation → M (Unit {0})
create_allocation a = do
  taken ← pool (query (λ t. is_some (find_first (is_taken a) t.allocations)))
  unless_taken a taken

-- The columns of `UpdateAllocation`, under optimistic locking.
abbrev pub updated_allocation : RateLimitAllocation → RateLimitAllocation → RateLimitAllocation
updated_allocation a row = record row {
  model_pattern = a.model_pattern;
  token_limit = a.token_limit;
  token_unit = a.token_unit;
  request_limit = a.request_limit;
  request_unit = a.request_unit;
  burst_percentage = a.burst_percentage;
  enforcement = a.enforcement;
  enabled = a.enabled;
  disabled_by_user_id = a.disabled_by_user_id;
  disabled_by_email = a.disabled_by_email;
  disabled_by_is_org = a.disabled_by_is_org;
  disabled_at = a.disabled_at;
  description = a.description;
  version = row.version + 1;
}

unfoldable pub update_allocation : RateLimitAllocation → M (Unit {0})
update_allocation a = do
  n ← pool (
      update_allocations (λ b. allocation_id a.id b && (b.version == a.version))
        (updated_allocation a))
  lift (affected optimistic_lock n)

abbrev pub approved_row : String → ℕ → Enforcement → RateLimitAllocation → RateLimitAllocation
approved_row by now e a = record a {
  approval_status = approved;
  approved_by = some by;
  approved_at = some now;
  enforcement = e;
  version = a.version + 1;
}

abbrev pub rejected_row : RateLimitAllocation → RateLimitAllocation
rejected_row a = record a {
  approval_status = rejected;
  rejection_count = a.rejection_count + 1;
  version = a.version + 1;
}

abbrev pub resubmitted_row : RateLimitAllocation → RateLimitAllocation
resubmitted_row a = record a {
  approval_status = pending;
  approved_by = none;
  approved_at = none;
  version = a.version + 1;
}

abbrev pub pending_row : ℕ → RateLimitAllocation → Bool
pending_row i a = allocation_id i a && is_pending a.approval_status

abbrev pub rejected_before : ℕ → RateLimitAllocation → Bool
rejected_before i a = allocation_id i a && is_rejected a.approval_status

-- The status is a condition of each update.
unfoldable pub approve_allocation : ℕ → String → Enforcement → M (Unit {0})
approve_allocation i by e w =
    (do
      n ← pool (update_allocations (pending_row i) (approved_row by w.now e))
      lift (affected not_found n))
      w

unfoldable pub reject_allocation : ℕ → M (Unit {0})
reject_allocation i = do
  n ← pool (update_allocations (pending_row i) rejected_row)
  lift (affected not_found n)

unfoldable pub reset_allocation_for_resubmit : ℕ → M (Unit {0})
reset_allocation_for_resubmit i = do
  n ← pool (update_allocations (rejected_before i) resubmitted_row)
  lift (affected not_found n)

unfoldable pub delete_allocation : ℕ → M (Unit {0})
delete_allocation i = do
  n ← pool λ t.
      some (count_where (allocation_id i) t.allocations, without_allocations (allocation_id i) t)
  lift (affected not_found n)
