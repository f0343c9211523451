-- ===== src/Api/Budgets/Update/Stored.antt =====
-- internal/api/handlers.go: the row that `UpdateBudget` writes.
use quota_management.Prelude.{
  ℕ, ◌≡◌, refl, sym, ap, ◌∙◌, Bool, true, false, ◌&&◌, Option, none, some, List, [], ◌∷◌, arith,
  Bool-cases, ◌==◌, ◌⊎◌, inl, inr, if_lem, if_split, count_where, update_where, if◌then◌else◌,
}
use quota_management.Models.Budget.{BudgetDefinition}
use quota_management.Db.World.{
  Error, optimistic_lock, db_failure, not_found, duplicate_entity, Result, ok, err, World, Tables,
  M, ◌>>=◌, pure, attempt, pool, Statement,
}
use quota_management.Db.Ways.{pool_ways}
use quota_management.Db.Reads.{get_budget_by_id-tables}
use quota_management.Db.Budgets.{
  has_id, get_budget_by_id, update_budget, update_budgets, updated_columns, known_parent,
}
use quota_management.Api.Budgets.{exceeds_parent}
use quota_management.Api.Budgets.Create.{found_parent}
use quota_management.Api.Budgets.Update.{written, parent_at, write_budget}

-- The row that an update writes to: the one with the id and the version.
abbrev pub is_current : BudgetDefinition → BudgetDefinition → Bool
is_current b r = has_id b.id r && (r.version == b.version)

-- The response is another than 200 and the tables are `t` still, or it is 200, some row is current,
-- and the columns of the current rows are those of a budget that has the property.
abbrev pub Writes {κ} : (BudgetDefinition → Type κ) → Tables → Result ℕ × World → Type κ
Writes P t r =
    ((code : ℕ) × ((r.0 ≡ ok code) × ((code == 200) ≡ false)) × (r.1.tables ≡ t))
    ⊎ ((b : BudgetDefinition) × ((r.0 ≡ ok 200)
          × (r.1.tables.budgets ≡ update_where (is_current b) (updated_columns b) t.budgets
              × (((count_where (is_current b) t.budgets == 0) ≡ false) × P b))))

-- Where no row passes the test, nothing is updated.
update_where_none {ℓ} :
    {A : Type ℓ} (p : A → Bool) (f : A → A) (xs : List A)
    → (count_where p xs == 0) ≡ true
    → update_where p f xs ≡ xs
update_where_none p f [] h = refl
update_where_none p f (x ∷ xs) h = elim (Bool-cases (p x)) [
  | inl hit ↦ absurd (ground (arith, hit))
  | inr miss ↦ rw miss (ap (λ ys. x ∷ ys) (update_where_none p f xs (ground (arith, miss))))
]

abbrev unless_orphan : Bool → ℕ → Tables → Option (ℕ × Tables)
unless_orphan known n u = if known then some (n, u) else none

orphan_lem :
    (known : Bool) (n k : ℕ) (u v : Tables)
    → unless_orphan known n u ≡ some (k, v)
    → (n ≡ k) × (u ≡ v)
orphan_lem true n k u v e = (cc e, cc e)
orphan_lem false n k u v e = absurd (cc e)

written-err :
    (e : Error) (w : World) (t : Tables)
    → w.tables ≡ t
    → (code : ℕ) × ((((written (err e) w).0) ≡ ok code) × ((code == 200) ≡ false))
      × ((written (err e) w).1.tables ≡ t)
written-err optimistic_lock w t same = (409, (refl, refl), same)
written-err not_found w t same = (500, (refl, refl), same)
written-err duplicate_entity w t same = (500, (refl, refl), same)
written-err db_failure w t same = (500, (refl, refl), same)

abbrev lift_count : ℕ → Result (Unit {0})
lift_count n = if n == 0 then err optimistic_lock else ok tt

-- An operation that returns and leaves the tables.
abbrev Reads {ℓ} : {A : Type ℓ} → M A → World → Type ℓ
Reads {A = A} m w = (a : A) × (((m w).0 ≡ ok a) × ((m w).1.tables ≡ w.tables))

parent_at-Reads : (p : Option ℕ) (w : World) → Reads (parent_at p) w
parent_at-Reads none w = (none, (refl, refl))
parent_at-Reads (some p) w =
    (found_parent (get_budget_by_id p w).0, (refl, get_budget_by_id-tables p w))

module _ (b : BudgetDefinition) (t : Tables) where
  stored-Writes :
      (w : World) → w.tables ≡ t → Writes (λ c. c ≡ b) t ((attempt (update_budget b) >>= written) w)
  unfolding update_budget
  stored-Writes w same = elim (pool_ways statement w) [
    | inl (failed, kept) ↦ rw failed (inl (500, (refl, refl), kept ∙ same))
    | inr (n, u, e, done, now) ↦
        let (counted, changed) = orphan_lem (known_parent w.tables.budgets b.parent_id) _ n _ u e in
        rw done (by_count n (pool statement w).1 counted (now ∙ sym changed))
  ]
    where
      statement : Statement ℕ
      statement = λ s.
          if known_parent s.budgets b.parent_id
          then update_budgets (λ r. has_id b.id r && (r.version == b.version)) (updated_columns b) s
          else none

      by_count :
          (n : ℕ) (w' : World)
          → count_where (is_current b) w.tables.budgets ≡ n
          → w'.tables ≡ record w.tables {
            budgets = update_where (is_current b) (updated_columns b) w.tables.budgets;
          }
          → Writes (λ c. c ≡ b) t (written (lift_count n) w')
      by_count n w' counted now =
          if_split (λ (x : Result (Unit {0})). Writes (λ c. c ≡ b) t (written x w')) (n == 0)
            (λ none_hit. inl (
              409,
              (refl, refl),
              now
                  ∙ ap (λ bs. record w.tables { budgets = bs })
                      (update_where_none (is_current b) (updated_columns b) w.tables.budgets
                        (rw counted none_hit))
                  ∙ same,
            ))
            λ some_hit. inr (
              b,
              (
                refl,
                (
                  ap (λ v. v.budgets) now
                      ∙ ap (λ v. update_where (is_current b) (updated_columns b) v.budgets) same,
                  (rw (← same, counted) some_hit, refl),
                ),
              ),
            )

  pub write_budget-Writes : (w : World) → w.tables ≡ t → Writes (λ c. c ≡ b) t (write_budget b w)
  unfolding write_budget
  write_budget-Writes w same =
      let (parent, (read, kept)) =
        if_lem (λ (m : M (Option BudgetDefinition)). Reads m w) b.isolated {x = pure none}
          {y = parent_at b.parent_id} (none, (refl, refl)) (parent_at-Reads b.parent_id w) in
      rw read (checked parent _ (kept ∙ same))
    where
      checked :
          (parent : Option BudgetDefinition) (w' : World)
          → w'.tables ≡ t
          → Writes
              (λ c. c ≡ b)
              t
              ((if exceeds_parent parent b
                  then pure 400
                  else (do done ← attempt (update_budget b); written done))
                w')
      checked parent w' same' =
          if_lem (λ (m : M ℕ). Writes (λ c. c ≡ b) t (m w')) (exceeds_parent parent b)
            (inl (400, (refl, refl), same')) (stored-Writes w' same')
