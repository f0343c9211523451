-- ===== src/Api/Budgets/Create/Rows.antt =====
-- internal/api/handlers.go: the row that `CreateBudget` inserts.
use quota_management.Prelude.{
  ℕ, ◌≡◌, refl, sym, ap, ◌∙◌, subst, Bool, true, false, ◌||◌, not, Option, none, some, [], ◌∷◌,
  ◌++◌, ◌==◌, ◌⊎◌, inl, inr, if_lem, if_split, if◌then◌else◌,
}
use quota_management.Models.Budget.{BudgetApproval, BudgetDefinition}
use quota_management.Db.World.{Result, ok, err, World, Tables, M, ◌>>=◌, attempt, exec}
use quota_management.Db.Ways.{pool_ways}
use quota_management.Db.Reads.{get_budget_by_entity-tables, get_budget_by_match_expression-tables}
use quota_management.Db.Budgets.{
  get_budget_by_entity, get_budget_by_match_expression, create_budget, insert_budget,
  complete_budget, name_taken, known_parent,
}
use quota_management.Db.Approvals.{create_budget_approval}
use quota_management.Api.Approvals.{is_pending}
use quota_management.Api.Budgets.{exceeds_parent}
use quota_management.Api.Budgets.Create.{submitted, unless_found, insert_draft, checked_draft}

-- The response is another than 201 and the tables are `t` still, or it is 201 and the budgets are
-- those of `t` and one more row that has the property.
abbrev pub Adds {κ} : (BudgetDefinition → Type κ) → Tables → Result ℕ × World → Type κ
Adds P t r =
    ((code : ℕ) × ((r.0 ≡ ok code) × ((code == 201) ≡ false)) × (r.1.tables ≡ t))
    ⊎ ((row : BudgetDefinition) × ((r.0 ≡ ok 201)
          × (r.1.tables.budgets ≡ t.budgets ++ (row ∷ []) × P row)))

-- The row of a draft: its name was free and its parent is there.
abbrev pub RowOf : Tables → BudgetDefinition → BudgetDefinition → Type 0
RowOf t b row =
    ((now : ℕ) × (row ≡ complete_budget now b))
    × (name_taken b t.budgets ≡ false)
    × (known_parent t.budgets b.parent_id ≡ true)

abbrev unless_broken : Bool → Tables → Option (Unit {0} × Tables)
unless_broken broken u = if broken then none else some (tt, u)

insert_lem :
    (x y z : Bool) (u v : Tables)
    → unless_broken (x || y || not z) u ≡ some (tt, v)
    → (u ≡ v) × (x ≡ false) × (z ≡ true)
insert_lem true y z u v e = absurd (cc e)
insert_lem false true z u v e = absurd (cc e)
insert_lem false false false u v e = absurd (cc e)
insert_lem false false true u v e = (cc e, refl, refl)

budgets_lem :
    (a : BudgetApproval) (t u : Tables) {x : Unit {0}}
    → exec (λ t. record t { approvals = a ∷ t.approvals }) t ≡ some (x, u)
    → t.budgets ≡ u.budgets
budgets_lem a t u e =
    let same : record t { approvals = a ∷ t.approvals } ≡ u = cc e in ap (λ v. v.budgets) same

approval-budgets :
    (a : BudgetApproval) (w : World)
    → (create_budget_approval a w).1.tables.budgets ≡ w.tables.budgets
unfolding create_budget_approval
approval-budgets a w = elim (pool_ways (exec (λ t. record t { approvals = a ∷ t.approvals })) w) [
  | inl (failed, same) ↦ ap (λ t. t.budgets) same
  | inr (x, t, e, done, same) ↦ ap (λ t. t.budgets) same ∙ sym (budgets_lem a w.tables t e)
]

module _ (b : BudgetDefinition) (t : Tables) where
  unless_found-Adds :
      (x : Result BudgetDefinition) (m : M ℕ) (w : World)
      → w.tables ≡ t
      → Adds (RowOf t b) t (m w)
      → Adds (RowOf t b) t (unless_found x m w)
  unless_found-Adds (ok c) m w same h = inl (409, (refl, refl), same)
  unless_found-Adds (err e) m w same h = h

  submitted-Adds :
      (w : World) (row : BudgetDefinition)
      → w.tables.budgets ≡ t.budgets ++ (row ∷ [])
      → RowOf t b row
      → Adds (RowOf t b) t (submitted b (ok tt) w)
  submitted-Adds w row added holds =
      if_lem (λ (m : M ℕ). Adds (RowOf t b) t (m w)) (is_pending b.approval_status)
        (inr (row, (refl, (approval-budgets _ w ∙ added, holds))))
        (inr (row, (refl, (added, holds))))

  created-Adds :
      (w : World)
      → w.tables ≡ t
      → Adds (RowOf t b) t ((attempt (create_budget b) >>= submitted b) w)
  unfolding create_budget
  created-Adds w same = elim (pool_ways (insert_budget row) w) [
    | inl (failed, kept) ↦ rw failed (inl (500, (refl, refl), kept ∙ same))
    | inr (x, u, e, done, now) ↦
        let (added, free, parent) =
          insert_lem (name_taken row w.tables.budgets) _
            (known_parent w.tables.budgets row.parent_id)
            (record w.tables { budgets = w.tables.budgets ++ (row ∷ []) }) u e in
        rw done (
          submitted-Adds (create_budget b w).1 row
            (ap (λ v. v.budgets) (now ∙ sym added) ∙ ap (λ v. v.budgets ++ (row ∷ [])) same)
            (subst (λ v. RowOf v b row) same ((w.now, refl), free, parent)))
  ]
    where
      row : BudgetDefinition
      row = complete_budget w.now b

  insert_draft-Adds : (w : World) → w.tables ≡ t → Adds (RowOf t b) t (insert_draft b w)
  unfolding insert_draft
  insert_draft-Adds w same =
      unless_found-Adds (get_budget_by_entity b.entity_type b.name w).0 _
        (get_budget_by_entity b.entity_type b.name w).1 first
        (unless_found-Adds
          (get_budget_by_match_expression b.entity_type b.match_expression
            (get_budget_by_entity b.entity_type b.name w).1).0
          _
          (get_budget_by_match_expression b.entity_type b.match_expression
            (get_budget_by_entity b.entity_type b.name w).1).1
          second
          (created-Adds
            (get_budget_by_match_expression b.entity_type b.match_expression
              (get_budget_by_entity b.entity_type b.name w).1).1
            second))
    where
      first : (get_budget_by_entity b.entity_type b.name w).1.tables ≡ t
      first = get_budget_by_entity-tables b.entity_type b.name w ∙ same

      second :
          (get_budget_by_match_expression b.entity_type b.match_expression
            (get_budget_by_entity b.entity_type b.name w).1).1.tables
          ≡ t
      second =
          get_budget_by_match_expression-tables b.entity_type b.match_expression
            (get_budget_by_entity b.entity_type b.name w).1
          ∙ first

  pub checked_draft-Adds :
      (parent : Option BudgetDefinition) (w : World)
      → w.tables ≡ t
      → Adds (λ row. RowOf t b row × (exceeds_parent parent b ≡ false)) t (checked_draft parent b w)
  checked_draft-Adds parent w same =
      if_split
        (λ (m : M ℕ). Adds (λ row. RowOf t b row × (exceeds_parent parent b ≡ false)) t (m w))
        (exceeds_parent parent b) (λ _. inl (400, (refl, refl), same))
        λ within. elim (insert_draft-Adds w same) [
          | inl kept ↦ inl kept
          | inr (row, (done, (added, holds))) ↦ inr (row, (done, (added, (holds, within))))
        ]
