-- ===== src/RateLimit/Sanctioned.antt =====
-- internal/db/ratelimit_repository.go: which statements approve an allocation.
use quota_management.Prelude.{
  ℕ, String, ◌≡◌, subst, ap, ◌∙◌, Bool, true, false, ◌&&◌, not, Option, none, some, is_some, List,
  [], ◌∷◌, ◌++◌, All, select-All, update_where, count_where, find_first, Bool-cases, ◌==◌, inl, inr,
  arith, if_split, if◌then◌else◌,
}
use quota_management.Models.RateLimit.{RateLimitAllocation, RateLimitApproval}
use quota_management.Db.World.{
  not_found, optimistic_lock, Tables, Statement, ◌>>=◌, attempt, lift, pool, exec, query,
}
use quota_management.Db.Budgets.{is_approved}
use quota_management.Db.Holds.{Holds, bind-Holds, pool-Holds, query-Holds}
use quota_management.RateLimit.Store.{
  allocation_id, update_allocations, insert_allocation, create_allocation, update_allocation,
  delete_allocation, without_allocations, superseded, unless_taken, is_taken, updated_allocation,
  approve_allocation, reject_allocation, reset_allocation_for_resubmit, approved_row, rejected_row,
  resubmitted_row, pending_row, rejected_before, affected,
}
use quota_management.RateLimit.Records.{
  get_allocation_by_id, create_approval, get_latest_attempt_number, insert_approval,
}

-- Every approved allocation has a sanctioned id.
abbrev pub Sanctioned : (ℕ → Bool) → Tables → Type 0
Sanctioned g t = All (λ a. is_approved a.approval_status ≡ true → g a.id ≡ true) t.allocations

written {ℓ} :
    {A : Type ℓ} (b : Bool) (k n : A) (u t' : Tables)
    → if◌then◌else◌ {A = Option (A × Tables)} b (some (k, u)) none ≡ some (n, t')
    → u ≡ t'
written true k n u t' e = cc e
written false k n u t' e = absurd (cc e)

module _ (g : ℕ → Bool) where
  abbrev Row : RateLimitAllocation → Type 0
  Row a = is_approved a.approval_status ≡ true → g a.id ≡ true

  update-Row :
      (p : RateLimitAllocation → Bool) (f : RateLimitAllocation → RateLimitAllocation)
      (rows : List RateLimitAllocation)
      → ((a : RateLimitAllocation) → p a ≡ true → Row a → Row (f a))
      → All Row rows
      → All Row (update_where p f rows)
  update-Row p f [] k h = tt
  update-Row p f (a ∷ rows) k h = elim (Bool-cases (p a)) [
    | inl hit ↦ rw hit (k a hit h.0, update-Row p f rows k h.1)
    | inr miss ↦ rw miss (h.0, update-Row p f rows k h.1)
  ]

  append-Row :
      (rows : List RateLimitAllocation) (a : RateLimitAllocation)
      → All Row rows
      → Row a
      → All Row (rows ++ (a ∷ []))
  append-Row [] a h k = (k, tt)
  append-Row (b ∷ rows) a h k = (h.0, append-Row rows a h.1 k)

  update_allocations-Holds :
      (e : _) (p : RateLimitAllocation → Bool) (f : RateLimitAllocation → RateLimitAllocation)
      → ((a : RateLimitAllocation) → p a ≡ true → Row a → Row (f a))
      → Holds (Sanctioned g) (pool (update_allocations p f) >>= λ n. lift (affected e n))
  update_allocations-Holds e p f k =
      bind-Holds (Sanctioned g) (pool (update_allocations p f)) (λ n. lift (affected e n))
        (pool-Holds (Sanctioned g) (update_allocations p f) (λ t t' n e h.
          subst (Sanctioned g) (written _ (count_where p t.allocations) n _ t' e)
            (update-Row p f t.allocations k h)))
        (λ n w h. h)

  -- Reads and records leave the allocations.
  pub get_allocation_by_id-Holds : (i : ℕ) → Holds (Sanctioned g) (get_allocation_by_id i)
  unfolding get_allocation_by_id
  get_allocation_by_id-Holds i =
      bind-Holds (Sanctioned g) (pool (query (λ t. find_first (allocation_id i) t.allocations))) _
        (query-Holds (Sanctioned g) _) (λ row w h. h)

  pub get_latest_attempt_number-Holds : (i : ℕ) → Holds (Sanctioned g) (get_latest_attempt_number i)
  unfolding get_latest_attempt_number
  get_latest_attempt_number-Holds i = query-Holds (Sanctioned g) _

  pub create_approval-Holds : (r : RateLimitApproval) → Holds (Sanctioned g) (create_approval r)
  unfolding create_approval
  create_approval-Holds r =
      pool-Holds (Sanctioned g) (insert_approval r)
        (λ t t' n e h. subst (Sanctioned g) (written _ tt n _ t' e) h)

  -- The statements on allocations.
  pub approve_allocation-Holds :
      (i : ℕ) (by : String) (e : _) → g i ≡ true → Holds (Sanctioned g) (approve_allocation i by e)
  unfolding approve_allocation
  approve_allocation-Holds i by e allowed w =
      update_allocations-Holds not_found (pending_row i) (approved_row by w.now e)
        (λ a hit k now. ap g (named a hit) ∙ allowed) w
    where
      named : (a : RateLimitAllocation) → pending_row i a ≡ true → a.id ≡ i
      named a hit = ground arith

  pub reject_allocation-Holds : (i : ℕ) → Holds (Sanctioned g) (reject_allocation i)
  unfolding reject_allocation
  reject_allocation-Holds i =
      update_allocations-Holds not_found (pending_row i) rejected_row
        (λ a hit k now. absurd (cc now))

  pub reset_allocation-Holds : (i : ℕ) → Holds (Sanctioned g) (reset_allocation_for_resubmit i)
  unfolding reset_allocation_for_resubmit
  reset_allocation-Holds i =
      update_allocations-Holds not_found (rejected_before i) resubmitted_row
        (λ a hit k now. absurd (cc now))

  pub update_allocation-Holds :
      (a : RateLimitAllocation) → Holds (Sanctioned g) (update_allocation a)
  unfolding update_allocation
  update_allocation-Holds a =
      update_allocations-Holds optimistic_lock
        (λ b. allocation_id a.id b && (b.version == a.version)) (updated_allocation a)
        (λ b hit k. k)

  without_allocations-Sanctioned :
      (p : RateLimitAllocation → Bool) (t : Tables)
      → Sanctioned g t
      → Sanctioned g (without_allocations p t)
  without_allocations-Sanctioned p t h = select-All Row (λ a. not (p a)) t.allocations h

  pub delete_allocation-Holds : (i : ℕ) → Holds (Sanctioned g) (delete_allocation i)
  unfolding delete_allocation
  delete_allocation-Holds i =
      bind-Holds (Sanctioned g) (pool counted) (λ n. lift (affected not_found n))
        (pool-Holds (Sanctioned g) counted (λ t t' n e h.
          let same : without_allocations (allocation_id i) t ≡ t' = cc e in
          subst (Sanctioned g) same (without_allocations-Sanctioned (allocation_id i) t h)))
        (λ n w h. h)
    where
      counted : Statement ℕ
      counted t =
          some
            (count_where (allocation_id i) t.allocations, without_allocations (allocation_id i) t)

  insert_allocation-Holds :
      (a : RateLimitAllocation) → Row a → Holds (Sanctioned g) (pool (insert_allocation a))
  insert_allocation-Holds a k =
      pool-Holds (Sanctioned g) (insert_allocation a)
        (λ t t' n e h. subst (Sanctioned g) (inserted t t' n e) (append-Row t.allocations _ h k))
    where
      inserted :
          (t t' : Tables) (n : Unit {0})
          → insert_allocation a t ≡ some (n, t')
          → record t {
            allocations = t.allocations ++ (record a { rejection_count = 0; version = 1 } ∷ []);
          }
            ≡ t'
      inserted t t' n e =
          if_split
            (λ (o : Option (Unit {0} × Tables)).
              o ≡ some (n, t')
              → record t {
                allocations = t.allocations ++ (record a { rejection_count = 0; version = 1 } ∷ []);
              }
                ≡ t')
            (is_some (find_first (allocation_id a.id) t.allocations)) (λ _ e. absurd (cc e))
            (λ _ e. written _ tt n _ t' e) e

  pub create_allocation-Holds :
      (a : RateLimitAllocation) → Row a → Holds (Sanctioned g) (create_allocation a)
  unfolding create_allocation
  create_allocation-Holds a k =
      bind-Holds (Sanctioned g)
        (pool (query (λ t. is_some (find_first (is_taken a) t.allocations)))) (unless_taken a)
        (query-Holds (Sanctioned g) _) by_taken
    where
      by_taken : (b : Bool) → Holds (Sanctioned g) (unless_taken a b)
      by_taken true = λ w h. h
      by_taken false =
          bind-Holds (Sanctioned g) (attempt (pool (exec (without_allocations (superseded a)))))
            (λ _. pool (insert_allocation a))
            (pool-Holds (Sanctioned g) (exec (without_allocations (superseded a))) (λ t t' n e h.
              let same : without_allocations (superseded a) t ≡ t' = cc e in
              subst (Sanctioned g) same (without_allocations-Sanctioned (superseded a) t h)))
            (λ _. insert_allocation-Holds a k)
