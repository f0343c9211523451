-- ===== src/Api/RateLimits/Answers.antt =====
-- internal/api/ratelimit_handlers.go: what leaves the approved allocations as they are.
use quota_management.Prelude.{ℕ, Bool, Option, none}
use quota_management.Models.RateLimit.{RateLimitAllocation, RateLimitApproval}
use quota_management.Db.World.{
  Result, ok, err, not_found, optimistic_lock, duplicate_entity, db_failure, M, ◌>>=◌, ◌>>◌, pure,
  attempt,
}
use quota_management.Db.Holds.{Holds, bind-Holds, if-Holds}
use quota_management.Auth.Identity.{Identity}
use quota_management.RateLimit.Store.{is_pending}
use quota_management.RateLimit.Records.{
  get_allocation_by_id, create_approval, get_latest_attempt_number,
}
use quota_management.RateLimit.Sanctioned.{
  Sanctioned, get_allocation_by_id-Holds, get_latest_attempt_number-Holds, create_approval-Holds,
}
use quota_management.Api.RateLimits.{approval_record, with_allocation}
use quota_management.Api.RateLimits.Edit.{created, saved, removed}
use quota_management.Api.RateLimits.Decide.{decided, shown, shown_again, resubmitted}

abbrev pub read_back : ℕ → (Result RateLimitAllocation → M ℕ) → M ℕ
read_back i f = attempt (get_allocation_by_id i) >>= f

module _ (g : ℕ → Bool) where
  pub with_allocation-Holds :
      (f : RateLimitAllocation → M ℕ) (r : Result RateLimitAllocation)
      → ((a : RateLimitAllocation) → Holds (Sanctioned g) (f a))
      → Holds (Sanctioned g) (with_allocation r f)
  with_allocation-Holds f (ok a) k = k a
  with_allocation-Holds f (err not_found) k = λ w h. h
  with_allocation-Holds f (err optimistic_lock) k = λ w h. h
  with_allocation-Holds f (err duplicate_entity) k = λ w h. h
  with_allocation-Holds f (err db_failure) k = λ w h. h

  pub after_reading :
      (i : ℕ) (f : Result RateLimitAllocation → M ℕ)
      → ((r : Result RateLimitAllocation) → Holds (Sanctioned g) (f r))
      → Holds (Sanctioned g) (read_back i f)
  after_reading i f k =
      bind-Holds (Sanctioned g) (attempt (get_allocation_by_id i)) f
        (get_allocation_by_id-Holds g i) k

  pub after_record :
      (r : RateLimitApproval) (m : M ℕ)
      → Holds (Sanctioned g) m
      → Holds (Sanctioned g) (attempt (create_approval r) >> m)
  after_record r m k =
      bind-Holds (Sanctioned g) (attempt (create_approval r)) (λ _. m) (create_approval-Holds g r)
        (λ _. k)

  pub shown-Holds : (r : Result RateLimitAllocation) → Holds (Sanctioned g) (shown r)
  shown-Holds (ok a) = λ w h. h
  shown-Holds (err e) = λ w h. h

  pub shown_again-Holds : (r : Result RateLimitAllocation) → Holds (Sanctioned g) (shown_again r)
  shown_again-Holds (ok a) = λ w h. h
  shown_again-Holds (err e) = λ w h. h

  pub decided-Holds :
      (r : RateLimitApproval) (done : Result (Unit {0})) → Holds (Sanctioned g) (decided r done)
  decided-Holds r (ok x) =
      after_record r (read_back r.allocation_id shown)
        (after_reading r.allocation_id shown shown-Holds)
  decided-Holds r (err not_found) = λ w h. h
  decided-Holds r (err optimistic_lock) = λ w h. h
  decided-Holds r (err duplicate_entity) = λ w h. h
  decided-Holds r (err db_failure) = λ w h. h

  pub resubmitted-Holds :
      (r : RateLimitApproval) (done : Result (Unit {0})) → Holds (Sanctioned g) (resubmitted r done)
  resubmitted-Holds r (ok x) =
      after_record r (read_back r.allocation_id shown_again)
        (after_reading r.allocation_id shown_again shown_again-Holds)
  resubmitted-Holds r (err e) = λ w h. h

  pub created-Holds :
      (who : Option Identity) (a : RateLimitAllocation) (done : Result (Unit {0}))
      → Holds (Sanctioned g) (created who a done)
  created-Holds who a (ok x) =
      if-Holds (Sanctioned g) (is_pending a.approval_status)
        (attempt (create_approval (approval_record a.id 1 "submitted" who none)) >> pure 201)
        (pure 201)
        (after_record (approval_record a.id 1 "submitted" who none) (pure 201) (λ w h. h))
        (λ w h. h)
  created-Holds who a (err not_found) = λ w h. h
  created-Holds who a (err optimistic_lock) = λ w h. h
  created-Holds who a (err duplicate_entity) = λ w h. h
  created-Holds who a (err db_failure) = λ w h. h

  pub saved-Holds : (done : Result (Unit {0})) → Holds (Sanctioned g) (saved done)
  saved-Holds (ok x) = λ w h. h
  saved-Holds (err not_found) = λ w h. h
  saved-Holds (err optimistic_lock) = λ w h. h
  saved-Holds (err duplicate_entity) = λ w h. h
  saved-Holds (err db_failure) = λ w h. h

  pub removed-Holds : (done : Result (Unit {0})) → Holds (Sanctioned g) (removed done)
  removed-Holds (ok x) = λ w h. h
  removed-Holds (err not_found) = λ w h. h
  removed-Holds (err optimistic_lock) = λ w h. h
  removed-Holds (err duplicate_entity) = λ w h. h
  removed-Holds (err db_failure) = λ w h. h

  pub after_numbering :
      (i : ℕ) (f : Result ℕ → M ℕ)
      → ((r : Result ℕ) → Holds (Sanctioned g) (f r))
      → Holds (Sanctioned g) (attempt (get_latest_attempt_number i) >>= f)
  after_numbering i f k =
      bind-Holds (Sanctioned g) (attempt (get_latest_attempt_number i)) f
        (get_latest_attempt_number-Holds g i) k

  pub after_change :
      (m : M (Unit {0})) (f : Result (Unit {0}) → M ℕ)
      → Holds (Sanctioned g) m
      → ((r : Result (Unit {0})) → Holds (Sanctioned g) (f r))
      → Holds (Sanctioned g) (attempt m >>= f)
  after_change m f h k = bind-Holds (Sanctioned g) (attempt m) f h k
