-- ===== src/Budget/Charge/Pending.antt =====
-- internal/budget/service.go: the pending usage that `DecrementBudgets` leaves and lowers.
use quota_management.Prelude.{
  ℕ, String, ◌+◌, ◌-◌, ◌≡◌, refl, ap, subst, Bool, not, Option, List, [], ◌∷◌, inl, inr, select,
  update_where, if◌then◌else◌, Bool-cases, ◌==◌,
}
use quota_management.Models.Budget.{BudgetDefinition, RequestReservation, UsageRecord}
use quota_management.Db.World.{Result, ok, err, World, Tables, M, continue, in_tx, exec, commit}
use quota_management.Db.Keeps.{Open, Open-in_tx, continue-Open, in_tx-err, commit_lem}
use quota_management.Db.Budgets.{has_id}
use quota_management.Db.Reservations.{
  for_request, drop_reservations, release_pending, delete_reservation_in_tx,
  decrement_pending_usage_in_tx,
}
use quota_management.Db.Usage.{
  add_usage, insert_usage, prune_usage, create_usage_record_in_tx, increment_usage_in_tx,
}
use quota_management.Budget.Charge.{
  Call, Tally, DecrementResult, charge_one, charge_each, usage_record, is_charged, is_spared,
  charge_amount_of, tally_after,
}
use quota_management.Budget.Charge.Settle.{release_steps}

-- The same budgets in their order, with the pending usage of budget `i` lowered by `cost`.
abbrev pub Lowered : ℕ → ℕ → List BudgetDefinition → List BudgetDefinition → Type 0
Lowered i cost [] [] = Unit
Lowered i cost [] (c ∷ cs) = ⊥
Lowered i cost (b ∷ bs) [] = ⊥
Lowered i cost (b ∷ bs) (c ∷ cs) =
    (c.id ≡ b.id)
    × (c.pending_usage_usd
        ≡ (if b.id == i then b.pending_usage_usd - cost else b.pending_usage_usd))
    × Lowered i cost bs cs

-- Pending usage and reservations as they were.
abbrev pub SamePending : List BudgetDefinition → List BudgetDefinition → Type 0
SamePending [] [] = Unit
SamePending [] (c ∷ cs) = ⊥
SamePending (b ∷ bs) [] = ⊥
SamePending (b ∷ bs) (c ∷ cs) =
    (c.id ≡ b.id) × (c.pending_usage_usd ≡ b.pending_usage_usd) × SamePending bs cs

pub SamePending-refl : (bs : List BudgetDefinition) → SamePending bs bs
unfolding SamePending
SamePending-refl [] = tt
SamePending-refl (b ∷ bs) = (refl, refl, SamePending-refl bs)

SamePending-charge :
    (i amount : ℕ) (bs cs : List BudgetDefinition)
    → SamePending bs cs
    → SamePending bs (
        update_where
          (has_id i)
          (λ b. record b {
            current_usage_usd = b.current_usage_usd + amount;
            version = b.version + 1;
          })
          cs)
unfolding SamePending
SamePending-charge i amount [] [] h = tt
SamePending-charge i amount [] (c ∷ cs) h = absurd h
SamePending-charge i amount (b ∷ bs) [] h = absurd h
SamePending-charge i amount (b ∷ bs) (c ∷ cs) (same, kept, h) = elim (Bool-cases (has_id i c)) [
  | inl hit ↦ rw hit (same, kept, SamePending-charge i amount bs cs h)
  | inr miss ↦ rw miss (same, kept, SamePending-charge i amount bs cs h)
]

SamePending-Lowered :
    (i cost : ℕ) (bs cs : List BudgetDefinition)
    → SamePending bs cs
    → Lowered i cost bs (
        update_where
          (has_id i)
          (λ b. record b { pending_usage_usd = b.pending_usage_usd - cost })
          cs)
unfolding SamePending
SamePending-Lowered i cost [] [] h = tt
SamePending-Lowered i cost [] (c ∷ cs) h = absurd h
SamePending-Lowered i cost (b ∷ bs) [] h = absurd h
SamePending-Lowered i cost (b ∷ bs) (c ∷ cs) (same, kept, h) = elim (Bool-cases (has_id i c)) [
  | inl hit ↦
      rw hit (same, rw (← same, hit) (ap (λ n. n - cost) kept), SamePending-Lowered i cost bs cs h)
  | inr miss ↦ rw miss (same, rw (← same, miss) kept, SamePending-Lowered i cost bs cs h)
]

module _ (t : Tables) where
  -- Nothing is released yet.
  abbrev Held : Tables → Type 0
  Held u = (u.reservations ≡ t.reservations) × SamePending t.budgets u.budgets

  Held-in_tx :
      (f : Tables → Tables) (w : World)
      → ((u : Tables) → Held u → Held (f u))
      → Open Held w
      → Open Held (in_tx (exec f) w).1
  Held-in_tx f w keeps =
      Open-in_tx Held Held (exec f) w
        λ u h a u' e. let e' : f u ≡ u' = cc e in subst Held e' (keeps u h)

  create_usage-Held :
      (u : UsageRecord) (w : World) → Open Held w → Open Held (create_usage_record_in_tx u w).1
  unfolding create_usage_record_in_tx
  create_usage-Held u w h =
      continue-Open Held (in_tx (exec (insert_usage u)) w).0
        (λ _. in_tx (exec (prune_usage u.budget_id))) (in_tx (exec (insert_usage u)) w).1
        (λ x. in_tx-err (exec (insert_usage u)) w)
        λ _.
          Held-in_tx (prune_usage u.budget_id) (in_tx (exec (insert_usage u)) w).1 (λ v k. k)
            (Held-in_tx (insert_usage u) w (λ v k. k) h)

  charge_one-Held :
      (c : Call) (now : ℕ) (spared : Bool) (b : BudgetDefinition) (amount : ℕ) (w : World)
      → Open Held w
      → Open Held (charge_one c now spared b amount w).1
  unfolding increment_usage_in_tx
  charge_one-Held c now spared b amount w h = elim (Bool-cases (is_charged spared amount)) [
    | inl charge ↦ rw charge (
        continue-Open Held (increment_usage_in_tx b.id amount w).0
          (λ _. create_usage_record_in_tx (usage_record c now spared b amount))
          (increment_usage_in_tx b.id amount w).1 (λ x. in_tx-err (exec (add_usage b.id amount)) w)
          (λ _. create_usage-Held (usage_record c now spared b amount) _ (
            Held-in_tx (add_usage b.id amount) w
              (λ u (same, k). (same, SamePending-charge b.id amount t.budgets u.budgets k)) h)))
    | inr free ↦ rw free (create_usage-Held (usage_record c now spared b amount) w h)
  ]

  continue-Held :
      (r : Result (Unit {0})) (f : Unit {0} → M Tally) (w : World)
      → Open Held w
      → Open Held (f tt w).1
      → Open Held (continue r f w).1
  continue-Held (ok a) f w h k = k
  continue-Held (err x) f w h k = h

  pub charge_each-Held :
      (c : Call) (limit : Option ℕ) (sorted bs : List BudgetDefinition) (tally : Tally) (w : World)
      → Open Held w
      → Open Held (charge_each c limit sorted bs tally w).1
  unfolding charge_each
  charge_each-Held c limit sorted [] tally w h = h
  charge_each-Held c limit sorted (b ∷ bs) tally w h =
      continue-Held (one w).0 (λ _. charge_each c limit sorted bs (tally_after spared b tally))
        (one w).1 held
        (charge_each-Held c limit sorted bs (tally_after spared b tally) (one w).1 held)
    where
      spared : Bool
      spared = is_spared limit sorted b

      one : M (Unit {0})
      one = charge_one c w.now spared b (charge_amount_of spared b tally.left)

      held : Open Held (one w).1
      held = charge_one-Held c w.now spared b (charge_amount_of spared b tally.left) w h

  -- The reservations of the request are gone, and the pending usage of the budget of `res` is lower
  -- by its estimate, but not below 0; that of every other budget is as it was.
  abbrev pub Released : String → RequestReservation → Tables → Type 0
  Released r res u =
      (u.reservations ≡ select (λ v. not (for_request r v)) t.reservations)
      × Lowered res.budget_id res.estimated_cost_usd t.budgets u.budgets

  abbrev Dropped : String → Tables → Type 0
  Dropped r u =
      (u.reservations ≡ select (λ v. not (for_request r v)) t.reservations)
      × SamePending t.budgets u.budgets

  pub release_steps-Released :
      (c : Call) (res : RequestReservation) (w : World)
      → Open Held w
      → Open (Released c.request_id res) (release_steps c res w)
  unfolding release_steps delete_reservation_in_tx decrement_pending_usage_in_tx
  release_steps-Released c res w h =
      Open-in_tx (Dropped c.request_id) (Released c.request_id res)
        (exec (release_pending res.budget_id res.estimated_cost_usd))
        (in_tx (exec (drop_reservations c.request_id)) w).1
        (λ u (gone, k) a u' e.
          let e' : release_pending res.budget_id res.estimated_cost_usd u ≡ u' = cc e in
          subst (Released c.request_id res) e'
            (gone, SamePending-Lowered res.budget_id res.estimated_cost_usd t.budgets u.budgets k))
        (Open-in_tx Held (Dropped c.request_id) (exec (drop_reservations c.request_id)) w
          (λ u (same, k) a u' e.
            let e' : drop_reservations c.request_id u ≡ u' = cc e in
            subst (Dropped c.request_id) e' (rw same refl, k))
          h)

  pub commit-Released :
      (c : Call) (res : RequestReservation) (w : World) (r : DecrementResult)
      (after : M DecrementResult)
      → ((v : World) → (after v).1.tables ≡ v.tables)
      → Open (Released c.request_id res) w
      → (continue (commit w).0 (λ _. after) (commit w).1).0 ≡ ok r
      → Released c.request_id res (continue (commit w).0 (λ _. after) (commit w).1).1.tables
  commit-Released c res w r after quiet h e = elim (commit_lem (Released c.request_id res) w h) [
    | inl (same, failed) ↦ absurd (cc (rw failed at e))
    | inr (good, done) ↦ rw (done, quiet (commit w).1) good
  ]
