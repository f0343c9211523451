-- ===== src/Budget/Charge/Effect.antt =====
-- What `DecrementBudgets` does to the usage of the budgets.
use quota_management.Prelude.{
  ℕ, ◌+◌, ◌-◌, ◌≡◌, refl, subst, Bool, List, [], ◌∷◌, ◌++◌, arith, sum_by, select, update_where,
  Bool-cases, inl, inr, ◌==◌, if◌then◌else◌,
}
use quota_management.Models.Budget.{BudgetDefinition, UsageRecord}
use quota_management.Db.World.{World, Tables, in_tx, exec}
use quota_management.Db.Keeps.{Open, Open-in_tx, continue-Open, in_tx-err}
use quota_management.Db.Budgets.{has_id}
use quota_management.Db.Usage.{
  add_usage, insert_usage, prune_usage, create_usage_record_in_tx, increment_usage_in_tx,
}
use quota_management.Budget.Charge.{
  BudgetCharge, Call, Tally, charge_for, charge_one, usage_record, is_charged, charge_amount_of,
  tally_after,
}

-- What the charges take from budget `i`.
abbrev pub charged_to : ℕ → List BudgetCharge → ℕ
charged_to i cs = sum_by (λ c. c.charge_amount) (select (λ c. c.budget_id == i) cs)

-- The same budgets, the usage of each raised by its charges.
abbrev pub Raised : List BudgetCharge → List BudgetDefinition → List BudgetDefinition → Type 0
Raised cs [] [] = Unit
Raised cs [] (b ∷ bs) = ⊥
Raised cs (a ∷ rs) [] = ⊥
Raised cs (a ∷ rs) (b ∷ bs) =
    (b.id ≡ a.id)
    × (b.current_usage_usd ≡ a.current_usage_usd + charged_to a.id cs)
    × Raised cs rs bs

pub Raised-refl : (bs : List BudgetDefinition) → Raised [] bs bs
Raised-refl [] = tt
Raised-refl (b ∷ bs) = (refl, omega arith, Raised-refl bs)

charged_to-append :
    (i : ℕ) (cs : List BudgetCharge) (c : BudgetCharge)
    → charged_to i (cs ++ (c ∷ []))
      ≡ charged_to i cs + (if c.budget_id == i then c.charge_amount else 0)
charged_to-append i [] c = ground arith
charged_to-append i (x ∷ cs) c = ground (arith, charged_to-append i cs c)

Raised-add :
    (cs : List BudgetCharge) (b : BudgetDefinition) (amount : ℕ) (rs bs : List BudgetDefinition)
    → Raised cs rs bs
    → Raised (cs ++ (charge_for b amount ∷ [])) rs (
        update_where
          (has_id b.id)
          (λ r. record r {
            current_usage_usd = r.current_usage_usd + amount;
            version = r.version + 1;
          })
          bs)
Raised-add cs b amount [] [] h = tt
Raised-add cs b amount [] (r ∷ bs) h = h
Raised-add cs b amount (a ∷ rs) [] h = h
Raised-add cs b amount (a ∷ rs) (r ∷ bs) (same, usage, h) = elim (Bool-cases (has_id b.id r)) [
  | inl hit ↦ rw hit (
    same,
    ground (arith, charged_to-append a.id cs (charge_for b amount), usage, same, hit),
    Raised-add cs b amount rs bs h,
  )
  | inr miss ↦ rw miss (
    same,
    ground (arith, charged_to-append a.id cs (charge_for b amount), usage, same, miss),
    Raised-add cs b amount rs bs h,
  )
]

pub Raised-release :
    (cs : List BudgetCharge) (i cost : ℕ) (rs bs : List BudgetDefinition)
    → Raised cs rs bs
    → Raised cs rs (
        update_where
          (has_id i)
          (λ r. record r { pending_usage_usd = r.pending_usage_usd - cost })
          bs)
Raised-release cs i cost [] [] h = tt
Raised-release cs i cost [] (r ∷ bs) h = h
Raised-release cs i cost (a ∷ rs) [] h = h
Raised-release cs i cost (a ∷ rs) (r ∷ bs) (same, usage, h) = elim (Bool-cases (has_id i r)) [
  | inl hit ↦ rw hit (same, usage, Raised-release cs i cost rs bs h)
  | inr miss ↦ rw miss (same, usage, Raised-release cs i cost rs bs h)
]

module _ (start : List BudgetDefinition) where
  abbrev pub Charged : List BudgetCharge → Tables → Type 0
  Charged cs t = Raised cs start t.budgets

  -- A statement that does not touch the budgets.
  pub same_budgets :
      (cs : List BudgetCharge) (f : Tables → Tables) (w : World)
      → ((t : Tables) → (f t).budgets ≡ t.budgets)
      → Open (Charged cs) w
      → Open (Charged cs) (in_tx (exec f) w).1
  same_budgets cs f w same =
      Open-in_tx (Charged cs) (Charged cs) (exec f) w
        λ t h a t' e. let e' : f t ≡ t' = cc e in subst (Charged cs) e' (rw (same t) h)

  create_usage-Open :
      (cs : List BudgetCharge) (c : Call) (now : ℕ) (spared : Bool) (b : BudgetDefinition)
      (amount : ℕ) (w : World)
      → Open (Charged cs) w
      → Open (Charged cs) (create_usage_record_in_tx (usage_record c now spared b amount) w).1
  unfolding create_usage_record_in_tx
  create_usage-Open cs c now spared b amount w h =
      continue-Open (Charged cs) (in_tx (exec (insert_usage u)) w).0
        (λ _. in_tx (exec (prune_usage b.id))) (in_tx (exec (insert_usage u)) w).1
        (λ x. in_tx-err (exec (insert_usage u)) w)
        λ _.
          same_budgets cs (prune_usage b.id) (in_tx (exec (insert_usage u)) w).1 (λ t. refl)
            (same_budgets cs (insert_usage u) w (λ t. refl) h)
    where
      u : UsageRecord
      u = usage_record c now spared b amount

  increment-Open :
      (cs : List BudgetCharge) (b : BudgetDefinition) (amount : ℕ) (w : World)
      → Open (Charged cs) w
      → Open (Charged (cs ++ (charge_for b amount ∷ []))) (increment_usage_in_tx b.id amount w).1
  unfolding increment_usage_in_tx
  increment-Open cs b amount w =
      Open-in_tx (Charged cs) (Charged (cs ++ (charge_for b amount ∷ [])))
        (exec (add_usage b.id amount)) w
        λ t h a t' e.
          let e' : add_usage b.id amount t ≡ t' = cc e in
          subst (Charged (cs ++ (charge_for b amount ∷ []))) e'
            (Raised-add cs b amount start t.budgets h)

  pub charge_one-Open :
      (t : Tally) (c : Call) (now : ℕ) (spared : Bool) (b : BudgetDefinition) (w : World)
      → Open (Charged t.charged) w
      → Open
          (Charged (tally_after spared b t).charged)
          (charge_one c now spared b (charge_amount_of spared b t.left) w).1
  unfolding tally_after increment_usage_in_tx
  charge_one-Open t c now spared b w h = elim (Bool-cases (is_charged spared amount)) [
    | inl charge ↦ rw charge (
        continue-Open (Charged after) (increment_usage_in_tx b.id amount w).0
          (λ _. create_usage_record_in_tx (usage_record c now spared b amount))
          (increment_usage_in_tx b.id amount w).1 (λ x. in_tx-err (exec (add_usage b.id amount)) w)
          (λ _.
            create_usage-Open after c now spared b amount _
              (increment-Open t.charged b amount w h)))
    | inr free ↦ rw free (create_usage-Open t.charged c now spared b amount w h)
  ]
    where
      amount : ℕ
      amount = charge_amount_of spared b t.left

      after : List BudgetCharge
      after = t.charged ++ (charge_for b amount ∷ [])
