-- ===== src/Api/RateLimits/Sanction.antt =====
-- internal/api/ratelimit_handlers.go: how an allocation comes to be approved.
use quota_management.Prelude.{
  ℕ, String, ◌+◌, ◌≡◌, Bool, true, false, ◌&&◌, ◌||◌, not, Option, none, some, List, [], ◌∷◌, All,
  ◌==◌, arith, ltb,
}
use quota_management.Models.RateLimit.{RateLimitAllocation}
use quota_management.Db.World.{Result, World, M, ◌>>=◌, pure, attempt}
use quota_management.Db.Budgets.{is_approved}
use quota_management.Db.Holds.{Holds, if-Holds}
use quota_management.Auth.Identity.{Identity}
use quota_management.RateLimit.Store.{
  create_allocation, update_allocation, delete_allocation, approve_allocation, reject_allocation,
  reset_allocation_for_resubmit, is_rejected,
}
use quota_management.RateLimit.Records.{get_latest_attempt_number}
use quota_management.RateLimit.Sanctioned.{
  Sanctioned, approve_allocation-Holds, reject_allocation-Holds, reset_allocation-Holds,
  update_allocation-Holds, delete_allocation-Holds, create_allocation-Holds,
}
use quota_management.Api.Budgets.{non_empty}
use quota_management.Api.RateLimits.{
  CreateAllocationRequest, UpdateAllocationRequest, approval_record, with_allocation,
}
use quota_management.Api.RateLimits.Edit.{
  create_allocation_request, update_allocation_request, delete_allocation_request, draft_allocation,
  first_status, created, save, saved, removed, update_with, switch_allocation, with_limits,
  is_unnamed, is_unbounded,
}
use quota_management.Api.RateLimits.Decide.{
  approve_allocation_request, reject_allocation_request, resubmit_allocation_request, decided,
  resubmitted, resubmit_row, approver_of, enforcement_of, attempt_of, number_of,
}
use quota_management.Api.RateLimits.Answers.{
  with_allocation-Holds, after_reading, decided-Holds, resubmitted-Holds, created-Holds,
  saved-Holds, removed-Holds, after_numbering, after_change,
}

-- A request, with its path and its body.
pub data Request : Type 0 where
  create : ℕ → Option CreateAllocationRequest → Option Identity → Request
  update : Option ℕ → Option UpdateAllocationRequest → Option Identity → Request
  delete : Option ℕ → Request
  approve reject : Option ℕ → String → Option Identity → Request
  resubmit : Option ℕ → Option Identity → Request

abbrev pub handle : Request → M ℕ
handle (create i body who) = create_allocation_request i body who
handle (update i body who) = update_allocation_request i body who
handle (delete i) = delete_allocation_request i
handle (approve i e who) = approve_allocation_request i e who
handle (reject i reason who) = reject_allocation_request i reason who
handle (resubmit i who) = resubmit_allocation_request i who

abbrev pub handle_all : List Request → World → World
handle_all [] w = w
handle_all (r ∷ rs) w = handle_all rs (handle r w).1

-- The request approves the allocation: an approval, whoever asks for it, or the creation by an
-- administrator of an organisation or by a caller without an identity.
abbrev pub approves : Request → ℕ → Bool
approves (create i body who) j = (j == i) && is_approved (first_status who)
approves (approve (some i) e who) j = j == i
approves (approve none e who) j = false
approves (update i body who) j = false
approves (delete i) j = false
approves (reject i reason who) j = false
approves (resubmit i who) j = false

abbrev pub any_approves : List Request → ℕ → Bool
any_approves [] j = false
any_approves (r ∷ rs) j = approves r j || any_approves rs j

abbrev pub approved_before : List RateLimitAllocation → ℕ → Bool
approved_before [] j = false
approved_before (a ∷ rows) j =
    ((j == a.id) && is_approved a.approval_status) || approved_before rows j

module _ (g : ℕ → Bool) where
  -- The requests.
  create-Holds :
      (i : ℕ) (body : Option CreateAllocationRequest) (who : Option Identity)
      → (is_approved (first_status who) ≡ true → g i ≡ true)
      → Holds (Sanctioned g) (create_allocation_request i body who)
  unfolding create_allocation_request
  create-Holds i none who k = λ w h. h
  create-Holds i (some req) who k =
      let a = draft_allocation i req who in
      if-Holds (Sanctioned g) (is_unnamed req || is_unbounded req) (pure 400)
        (attempt (create_allocation a) >>= created who a) (λ w h. h)
        (after_change g (create_allocation a) (created who a) (create_allocation-Holds g a k)
          (created-Holds g who a))

  save-Holds : (o : Option RateLimitAllocation) → Holds (Sanctioned g) (save o)
  save-Holds none = λ w h. h
  save-Holds (some a) =
      after_change g (update_allocation a) saved (update_allocation-Holds g a) (saved-Holds g)

  update_with-Holds :
      (body : Option UpdateAllocationRequest) (who : Option Identity) (a : RateLimitAllocation)
      → Holds (Sanctioned g) (update_with body who a)
  update_with-Holds none who a = λ w h. h
  update_with-Holds (some req) who a = λ w.
      if-Holds (Sanctioned g) (ltb 0 req.version && not (req.version == a.version)) (pure 409)
        (save (switch_allocation who req.enabled w.now (with_limits req a))) (λ w h. h)
        (save-Holds (switch_allocation who req.enabled w.now (with_limits req a))) w

  update-Holds :
      (i : Option ℕ) (body : Option UpdateAllocationRequest) (who : Option Identity)
      → Holds (Sanctioned g) (update_allocation_request i body who)
  unfolding update_allocation_request
  update-Holds none body who = λ w h. h
  update-Holds (some i) body who =
      after_reading g i (λ found. with_allocation found (update_with body who))
        (λ found. with_allocation-Holds g (update_with body who) found (update_with-Holds body who))

  delete-Holds : (i : Option ℕ) → Holds (Sanctioned g) (delete_allocation_request i)
  unfolding delete_allocation_request
  delete-Holds none = λ w h. h
  delete-Holds (some i) =
      after_reading g i (λ _. attempt (delete_allocation i) >>= removed)
        (λ _.
          after_change g (delete_allocation i) removed (delete_allocation-Holds g i)
            (removed-Holds g))

  approve-Holds :
      (i : ℕ) (e : String) (who : Option Identity)
      → g i ≡ true
      → Holds (Sanctioned g) (approve_allocation_request (some i) e who)
  unfolding approve_allocation_request
  approve-Holds i e who allowed =
      let change = approve_allocation i (approver_of who) (enforcement_of e) in
      let answer : Result ℕ → Result (Unit {0}) → M ℕ =
        λ n. decided (approval_record i (attempt_of n) "approved" who none) in
      after_numbering g i (λ n. attempt change >>= answer n)
        (λ n.
          after_change g change (answer n)
            (approve_allocation-Holds g i (approver_of who) (enforcement_of e) allowed)
            (decided-Holds g (approval_record i (attempt_of n) "approved" who none)))

  reject-Holds :
      (i : Option ℕ) (reason : String) (who : Option Identity)
      → Holds (Sanctioned g) (reject_allocation_request i reason who)
  unfolding reject_allocation_request
  reject-Holds none reason who = λ w h. h
  reject-Holds (some i) reason who =
      let answer : Result ℕ → Result (Unit {0}) → M ℕ =
        λ n. decided (approval_record i (attempt_of n) "rejected" who (non_empty reason)) in
      after_numbering g i (λ n. attempt (reject_allocation i) >>= answer n)
        (λ n.
          after_change g (reject_allocation i) (answer n) (reject_allocation-Holds g i)
            (decided-Holds g (approval_record i (attempt_of n) "rejected" who (non_empty reason))))

  resubmit_row-Holds :
      (who : Option Identity) (i : ℕ) (a : RateLimitAllocation)
      → Holds (Sanctioned g) (resubmit_row who i a)
  resubmit_row-Holds who i a =
      let answer : Result ℕ → Result (Unit {0}) → M ℕ =
        λ n. resubmitted (approval_record i (number_of n + 1) "resubmitted" who none) in
      let resets : M ℕ = attempt (get_latest_attempt_number i) >>= λ n.
      attempt (reset_allocation_for_resubmit i) >>= answer n in
      if-Holds (Sanctioned g) (not (is_rejected a.approval_status)) (pure 400) resets (λ w h. h)
        (after_numbering g i (λ n. attempt (reset_allocation_for_resubmit i) >>= answer n)
          (λ n.
            after_change g (reset_allocation_for_resubmit i) (answer n) (reset_allocation-Holds g i)
              (resubmitted-Holds g (approval_record i (number_of n + 1) "resubmitted" who none))))

  resubmit-Holds :
      (i : Option ℕ) (who : Option Identity)
      → Holds (Sanctioned g) (resubmit_allocation_request i who)
  unfolding resubmit_allocation_request
  resubmit-Holds none who = λ w h. h
  resubmit-Holds (some i) who =
      after_reading g i (λ found. with_allocation found (resubmit_row who i))
        (λ found. with_allocation-Holds g (resubmit_row who i) found (resubmit_row-Holds who i))

  handle-Holds :
      (r : Request) → ((j : ℕ) → approves r j ≡ true → g j ≡ true) → Holds (Sanctioned g) (handle r)
  unfolding approve_allocation_request
  handle-Holds (create i body who) k = create-Holds i body who (λ done. k i (ground (arith, done)))
  handle-Holds (update i body who) k = update-Holds i body who
  handle-Holds (delete i) k = delete-Holds i
  handle-Holds (approve none e who) k = λ w h. h
  handle-Holds (approve (some i) e who) k = approve-Holds i e who (k i (ground arith))
  handle-Holds (reject i reason who) k = reject-Holds i reason who
  handle-Holds (resubmit i who) k = resubmit-Holds i who

  handle_all-Sanctioned :
      (rs : List Request) (w : World)
      → ((j : ℕ) → any_approves rs j ≡ true → g j ≡ true)
      → Sanctioned g w.tables
      → Sanctioned g (handle_all rs w).tables
  handle_all-Sanctioned [] w k h = h
  handle_all-Sanctioned (r ∷ rs) w k h =
      handle_all-Sanctioned rs (handle r w).1 (λ j e. k j (ground (arith, e)))
        (handle-Holds r (λ j e. k j (ground (arith, e))) w h)

approved_before-All :
    (g : ℕ → Bool) (rows : List RateLimitAllocation)
    → ((j : ℕ) → approved_before rows j ≡ true → g j ≡ true)
    → All (λ a. is_approved a.approval_status ≡ true → g a.id ≡ true) rows
approved_before-All g [] k = tt
approved_before-All g (a ∷ rows) k = (
  (λ done. k a.id (ground (arith, done))),
  approved_before-All g rows (λ j e. k j (ground (arith, e))),
)

-- An approved allocation was approved before under its id, or one of the requests approves it.
abbrev pub Approves : World → List Request → RateLimitAllocation → Type 0
Approves w rs a =
    is_approved a.approval_status ≡ true
    → (approved_before w.tables.allocations a.id || any_approves rs a.id) ≡ true

-- After any sequence of requests, and whichever statements fail, an approved allocation was approved
-- before under its id, or one of the requests approves it: an approval, which any caller may ask
-- for, or the creation by an administrator of an organisation or by a caller without an identity.
pub handle_all-Approved :
    (rs : List Request) (w : World) → All (Approves w rs) (handle_all rs w).tables.allocations
handle_all-Approved rs w =
    let g : ℕ → Bool = λ j. approved_before w.tables.allocations j || any_approves rs j in
    handle_all-Sanctioned g rs w (λ j e. ground (arith, e))
      (approved_before-All g w.tables.allocations (λ j e. ground (arith, e)))
