-- ===== src/RateLimit/Lifecycle.antt =====
-- The statements that approve, reject and resubmit allocations take each along the workflow.
use quota_management.Prelude.{
  ℕ, String, ◌+◌, ◌≡◌, refl, sym, subst, Bool, true, false, Option, none, some, List, [], ◌∷◌,
  arith, update_where, count_where, if_split, inl, inr, if◌then◌else◌,
}
use quota_management.Models.Budget.{pending, approved, rejected}
use quota_management.Models.RateLimit.{RateLimitAllocation, Enforcement}
use quota_management.Db.World.{
  World, Tables, M, Result, ok, err, Error, not_found, continue, lift, pool,
}
use quota_management.Db.Keeps.{pool-tables}
use quota_management.RateLimit.Store.{
  keeps_constraints, update_allocations, affected, approve_allocation, reject_allocation,
  reset_allocation_for_resubmit, approved_row, rejected_row, resubmitted_row, pending_row,
  rejected_before,
}

-- A statement of the workflow.
pub data Action : Type 0 where
  approve : ℕ → String → Enforcement → Action
  reject resubmit : ℕ → Action

-- The transitions of an allocation under a statement, with all columns that they write.
pub data Steps : Action → RateLimitAllocation → RateLimitAllocation → Type 0 where
  rests : {x : Action} {a : RateLimitAllocation} → Steps x a a
  approves :
      {a : RateLimitAllocation} {i : ℕ} {by : String} {e : Enforcement} (now : ℕ)
      → a.id ≡ i
      → a.approval_status ≡ pending
      → Steps (approve i by e) a (record a {
        approval_status = approved;
        approved_by = some by;
        approved_at = some now;
        enforcement = e;
        version = a.version + 1;
      })
  rejects :
      {a : RateLimitAllocation} {i : ℕ}
      → a.id ≡ i
      → a.approval_status ≡ pending
      → Steps (reject i) a (record a {
        approval_status = rejected;
        rejection_count = a.rejection_count + 1;
        version = a.version + 1;
      })
  resubmits :
      {a : RateLimitAllocation} {i : ℕ}
      → a.id ≡ i
      → a.approval_status ≡ rejected
      → Steps (resubmit i) a (record a {
        approval_status = pending;
        approved_by = none;
        approved_at = none;
        version = a.version + 1;
      })

abbrev pub AllStep : Action → List RateLimitAllocation → List RateLimitAllocation → Type 0
AllStep x [] [] = Unit
AllStep x [] (b ∷ bs) = ⊥
AllStep x (a ∷ rows) [] = ⊥
AllStep x (a ∷ rows) (b ∷ bs) = Steps x a b × AllStep x rows bs

AllStep-refl : (x : Action) (rows : List RateLimitAllocation) → AllStep x rows rows
AllStep-refl x [] = tt
AllStep-refl x (a ∷ rows) = (rests, AllStep-refl x rows)

written :
    (b : Bool) (k n : ℕ) (t t' : Tables) (rows : List RateLimitAllocation)
    → if◌then◌else◌ {A = Option (ℕ × Tables)} b (some (k, record t { allocations = rows })) none
      ≡ some (n, t')
    → record t { allocations = rows } ≡ t'
written true k n t t' rows e = cc e
written false k n t t' rows e = absurd (cc e)

module _ (x : Action) (p : RateLimitAllocation → Bool)
    (f : RateLimitAllocation → RateLimitAllocation)
    (steps : (a : RateLimitAllocation) → p a ≡ true → Steps x a (f a)) where
  AllStep-update_where : (rows : List RateLimitAllocation) → AllStep x rows (update_where p f rows)
  AllStep-update_where [] = tt
  AllStep-update_where (a ∷ rows) =
      (if_split (Steps x a) (p a) (steps a) (λ _. rests), AllStep-update_where rows)

  update_allocations-AllStep :
      (n : ℕ) (t t' : Tables)
      → update_allocations p f t ≡ some (n, t')
      → AllStep x t.allocations t'.allocations
  update_allocations-AllStep n t t' e =
      let rows : List RateLimitAllocation = update_where p f t.allocations in
      let e' : record t { allocations = rows } ≡ t' =
        written (keeps_constraints rows) (count_where p t.allocations) n t t' rows e in
      subst (λ u. AllStep x t.allocations u.allocations) e' (AllStep-update_where t.allocations)

  continue-affected :
      (e : Error) (r : Result ℕ) (w : World) → (continue r (λ n. lift (affected e n)) w).1 ≡ w
  continue-affected e (ok n) w = refl
  continue-affected e (err y) w = refl

  update-AllStep :
      (e : Error) (w : World)
      → AllStep x w.tables.allocations
          (continue
            (pool (update_allocations p f) w).0
            (λ n. lift (affected e n))
            (pool (update_allocations p f) w).1).1.tables.allocations
  update-AllStep e w =
      subst (λ v. AllStep x w.tables.allocations v.tables.allocations)
        (sym (
          continue-affected e (pool (update_allocations p f) w).0
            (pool (update_allocations p f) w).1))
        (elim (pool-tables (update_allocations p f) w) [
          | inl same ↦ rw same (AllStep-refl x w.tables.allocations)
          | inr (n, t, given, done) ↦ rw done (update_allocations-AllStep n w.tables t given)
        ])

pending_row-eq :
    (i : ℕ) (a : RateLimitAllocation)
    → pending_row i a ≡ true
    → (a.id ≡ i) × (a.approval_status ≡ pending)
pending_row-eq i a h = (ground arith, ground arith)

rejected_before-eq :
    (i : ℕ) (a : RateLimitAllocation)
    → rejected_before i a ≡ true
    → (a.id ≡ i) × (a.approval_status ≡ rejected)
rejected_before-eq i a h = (ground arith, ground arith)

abbrev pub perform : Action → M (Unit {0})
perform (approve i by e) = approve_allocation i by e
perform (reject i) = reject_allocation i
perform (resubmit i) = reset_allocation_for_resubmit i

-- Whatever state an allocation has been read in, and whether the statement fails or not, approval
-- leaves each allocation as it is or takes the one with its id from pending to approved, in the
-- caller's name and with the given enforcement; rejection from pending to rejected with one more
-- rejection; and resubmission from rejected to pending without an approval. Each such transition gives
-- a new version and leaves all other columns as they are.
pub perform-AllStep :
    (a : Action) (w : World) → AllStep a w.tables.allocations (perform a w).1.tables.allocations
unfolding approve_allocation reject_allocation reset_allocation_for_resubmit
perform-AllStep (approve i by e) w =
    update-AllStep (approve i by e) (pending_row i) (approved_row by w.now e)
      (λ a h. let (same, was) = pending_row-eq i a h in approves w.now same was) not_found w
perform-AllStep (reject i) w =
    update-AllStep (reject i) (pending_row i) rejected_row
      (λ a h. let (same, was) = pending_row-eq i a h in rejects same was) not_found w
perform-AllStep (resubmit i) w =
    update-AllStep (resubmit i) (rejected_before i) resubmitted_row
      (λ a h. let (same, was) = rejected_before-eq i a h in resubmits same was) not_found w
