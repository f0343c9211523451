-- ===== src/Api/Approvals/Workflow.antt =====
-- The approval workflow as a state machine: what a handler may do to a budget.
use quota_management.Prelude.{
  ℕ, ◌+◌, ◌≤◌, ◌<◌, ◌≡◌, refl, sym, ◌∙◌, ap, subst, Bool, true, false, Option, none, some, List, [],
  ◌∷◌, arith, find_first, update_where, inl, inr, if◌then◌else◌, Bool-cases, ==_iff, ◌==◌,
}
use quota_management.Models.Budget.{
  BudgetDefinition, BudgetApproval, ApprovalStatus, pending, approved, rejected, closed,
}
use quota_management.Db.World.{
  not_found, optimistic_lock, duplicate_entity, db_failure, Result, ok, err, World, Tables, M,
  continue, pool, exec, lift,
}
use quota_management.Db.Reads.{get_budget-Keeps, get_budget_lem}
use quota_management.Db.Keeps.{pool-tables}
use quota_management.Db.Budgets.{get_budget_by_id, has_id, update_budgets}
use quota_management.Db.Approvals.{
  create_budget_approval, update_budget_approval_status, with_status,
}
use quota_management.Db.Unique.{UniqueIds}
use quota_management.Api.Approvals.{with_budget, recorded, move, is_pending, is_rejected}

-- The transitions of a budget.
pub data Moves : BudgetDefinition → BudgetDefinition → Type 0 where
  stays : {b : BudgetDefinition} → Moves b b
  approves :
      {b : BudgetDefinition} → b.approval_status ≡ pending → Moves b (with_status approved false b)
  rejects :
      {b : BudgetDefinition}
      → b.approval_status ≡ pending
      → b.rejection_count + 1 < 3
      → Moves b (with_status rejected true b)
  closes :
      {b : BudgetDefinition}
      → b.approval_status ≡ pending
      → 3 ≤ b.rejection_count + 1
      → Moves b (with_status closed true b)
  resubmits :
      {b : BudgetDefinition}
      → b.approval_status ≡ rejected
      → b.rejection_count < 3
      → Moves b (with_status pending false b)

-- Row by row.
abbrev pub AllMove : List BudgetDefinition → List BudgetDefinition → Type 0
AllMove [] [] = Unit
AllMove [] (c ∷ cs) = ⊥
AllMove (b ∷ bs) [] = ⊥
AllMove (b ∷ bs) (c ∷ cs) = Moves b c × AllMove bs cs

pub AllMove-refl : (bs : List BudgetDefinition) → AllMove bs bs
AllMove-refl [] = tt
AllMove-refl (b ∷ bs) = (stays, AllMove-refl bs)

-- A change of the one row that has the id.
AllMove-update :
    (i : ℕ) (f : BudgetDefinition → BudgetDefinition) (b : BudgetDefinition)
    (bs : List BudgetDefinition)
    → UniqueIds bs
    → find_first (has_id i) bs ≡ some b
    → Moves b (f b)
    → AllMove bs (update_where (has_id i) f bs)
AllMove-update i f b [] u e m = tt
AllMove-update i f b (c ∷ bs) (fresh, u) e m = elim (Bool-cases (has_id i c)) [
  | inl hit ↦
      let same : c ≡ b = cc (rw hit at e) in
      rw hit (
        subst (λ x. Moves x (f x)) (sym same) m,
        untouched i f bs (rw ((==_iff c.id i).0 hit) at fresh),
      )
  | inr miss ↦ rw miss (stays, AllMove-update i f b bs u (rw miss at e) m)
]
  where
    untouched :
        (i : ℕ) (f : BudgetDefinition → BudgetDefinition) (bs : List BudgetDefinition)
        → find_first (has_id i) bs ≡ none
        → AllMove bs (update_where (has_id i) f bs)
    untouched i f [] h = tt
    untouched i f (d ∷ ds) h = elim (Bool-cases (has_id i d)) [
      | inl hit ↦ absurd (cc (rw hit at h))
      | inr miss ↦ rw miss (stays, untouched i f ds (rw miss at h))
    ]

create_approval-budgets :
    (a : BudgetApproval) (w : World)
    → (create_budget_approval a w).1.tables.budgets ≡ w.tables.budgets
unfolding create_budget_approval
create_approval-budgets a w =
    elim (pool-tables (exec (λ t. record t { approvals = a ∷ t.approvals })) w) [
      | inl same ↦ ap (λ t. t.budgets) same
      | inr (u, t, e, done) ↦
          let e' : record w.tables { approvals = a ∷ w.tables.approvals } ≡ t = cc e in
          ap (λ t. t.budgets) (done ∙ sym e')
    ]

recorded-budgets :
    (a : BudgetApproval) (r : Result (Unit {0})) (w : World)
    → (recorded a r w).1.tables.budgets ≡ w.tables.budgets
recorded-budgets a (ok _) w = create_approval-budgets a w
recorded-budgets a (err e) w = refl

continue-lift {ℓ κ} :
    {A : Type ℓ} {B : Type κ} (r : Result A) (g : A → Result B) (w : World)
    → (continue r (λ a. lift (g a)) w).1 ≡ w
continue-lift (ok a) g w = refl
continue-lift (err e) g w = refl

module _ (i : ℕ) (s : ApprovalStatus) (counts : Bool) where
  update_status-AllMove :
      (b : BudgetDefinition) (w : World)
      → UniqueIds w.tables.budgets
      → find_first (has_id i) w.tables.budgets ≡ some b
      → Moves b (with_status s counts b)
      → AllMove w.tables.budgets (update_budget_approval_status i s counts w).1.tables.budgets
  unfolding update_budget_approval_status
  update_status-AllMove b w u hit m =
      subst (λ v. AllMove w.tables.budgets v.tables.budgets)
        (sym (
          continue-lift (pool update w).0 (λ n. if n == 0 then err not_found else ok tt)
            (pool update w).1))
        (elim (pool-tables update w) [
          | inl same ↦ rw same (AllMove-refl w.tables.budgets)
          | inr (n, t, e, done) ↦
              let e' : record w.tables {
                budgets = update_where (has_id i) (with_status s counts) w.tables.budgets;
              }
                  ≡ t =
                cc e in
              rw (done, ← e') (AllMove-update i (with_status s counts) b w.tables.budgets u hit m)
        ])
    where
      update : Tables → Option (ℕ × Tables)
      update = update_budgets (has_id i) (with_status s counts)

  pub move-AllMove :
      (a : BudgetApproval) (b : BudgetDefinition) (w : World)
      → UniqueIds w.tables.budgets
      → find_first (has_id i) w.tables.budgets ≡ some b
      → Moves b (with_status s counts b)
      → AllMove w.tables.budgets (move i s counts a w).1.tables.budgets
  move-AllMove a b w u hit m =
      subst (AllMove w.tables.budgets)
        (sym (
          recorded-budgets a (update_budget_approval_status i s counts w).0
            (update_budget_approval_status i s counts w).1))
        (update_status-AllMove b w u hit m)

-- A decision on the budget that is read moves it, where each branch does.
module _ (i : ℕ) (decide : BudgetDefinition → M ℕ)
    (moves : (b : BudgetDefinition) (w : World)
      → UniqueIds w.tables.budgets
      → find_first (has_id i) w.tables.budgets ≡ some b
      → AllMove w.tables.budgets (decide b w).1.tables.budgets) where
  with_budget-AllMove :
      (r : Result BudgetDefinition) (w : World)
      → UniqueIds w.tables.budgets
      → ((b : BudgetDefinition) → r ≡ ok b → find_first (has_id i) w.tables.budgets ≡ some b)
      → AllMove w.tables.budgets (with_budget r decide w).1.tables.budgets
  with_budget-AllMove (ok b) w u hit = moves b w u (hit b refl)
  with_budget-AllMove (err not_found) w u hit = AllMove-refl w.tables.budgets
  with_budget-AllMove (err optimistic_lock) w u hit = AllMove-refl w.tables.budgets
  with_budget-AllMove (err duplicate_entity) w u hit = AllMove-refl w.tables.budgets
  with_budget-AllMove (err db_failure) w u hit = AllMove-refl w.tables.budgets

  pub decided-AllMove :
      (w : World)
      → UniqueIds w.tables.budgets
      → AllMove w.tables.budgets
          (with_budget (get_budget_by_id i w).0 decide (get_budget_by_id i w).1).1.tables.budgets
  decided-AllMove w u =
      subst (λ t. AllMove t.budgets (with_budget r decide w₁).1.tables.budgets) kept
        (with_budget-AllMove r w₁ (rw kept u) (λ b e. rw kept (get_budget_lem i w b e)))
    where
      r : Result BudgetDefinition
      r = (get_budget_by_id i w).0

      w₁ : World
      w₁ = (get_budget_by_id i w).1

      kept : w₁.tables ≡ w.tables
      kept = ap (λ s. s.0) (get_budget-Keeps i w)

pub is_pending-eq : (s : ApprovalStatus) → is_pending s ≡ true → s ≡ pending
is_pending-eq s h = ground arith

pub is_rejected-eq : (s : ApprovalStatus) → is_rejected s ≡ true → s ≡ rejected
is_rejected-eq s h = ground arith
