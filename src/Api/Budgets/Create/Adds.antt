-- ===== src/Api/Budgets/Create/Adds.antt =====
-- internal/api/handlers.go: what `CreateBudget` leaves in the store.
use quota_management.Prelude.{
  ℕ, ◌≡◌, refl, sym, ap, ◌∙◌, subst, Bool, true, false, Option, none, some, inl, inr, if_lem,
  is_some, find_first, ◌↔◌, arith, if◌then◌else◌,
}
use quota_management.Models.Budget.{BudgetDefinition, BudgetPeriod, EntityType, pending}
use quota_management.Db.World.{World, Tables, M, pure, fault_now}
use quota_management.Db.Reads.{get_budget_by_id-tables, get_budget_by_id-found}
use quota_management.Db.ModelCosts.{or_not_found}
use quota_management.Db.Budgets.{
  has_id, get_budget_by_id, complete_budget, name_taken, known_parent,
}
use quota_management.Auth.Identity.{Identity}
use quota_management.Api.Budgets.{CreateBudgetRequest, caller_is_org, exceeds_parent}
use quota_management.Api.Budgets.Create.{
  draft, checked_draft, found_parent, create_with_parent, with_fields, is_barred, is_incomplete,
  initial_status, create_budget_request,
}
use quota_management.Api.Budgets.Create.Rows.{Adds, RowOf, checked_draft-Adds}

abbrev pub parent_row : Tables → Option ℕ → Option BudgetDefinition
parent_row t none = none
parent_row t (some p) = find_first (has_id p) t.budgets

found_parent_lem : (o : Option BudgetDefinition) → found_parent (or_not_found o) ≡ o
found_parent_lem none = refl
found_parent_lem (some b) = refl

exceeds_complete :
    (parent : Option BudgetDefinition) (now : ℕ) (b : BudgetDefinition)
    → exceeds_parent parent (complete_budget now b) ≡ exceeds_parent parent b
exceeds_complete none now b = refl
exceeds_complete (some p) now b = refl

initial_status_lem :
    (who : Option Identity) (child : Bool)
    → (initial_status who child ≡ pending)
      ↔ ((is_some who ≡ true) × (caller_is_org who ≡ false) × (child ≡ true))
initial_status_lem none child = ground arith
initial_status_lem (some j) child = ground arith

-- A row that the request of a caller adds, under an id.
module _ (i : ℕ) (req : CreateBudgetRequest) (who : Option Identity) where
  -- It is free of usage, has the id and a name that was free, and waits for approval exactly if the
  -- caller is known, is no administrator of an organisation, and names a parent. A parent that it
  -- names is there; where the first statement does not fail, and the row is not isolated, its amount
  -- is within the parent's.
  abbrev pub Draws : World → BudgetDefinition → Type 0
  Draws w row =
      (row.id ≡ i)
      × (name_taken row w.tables.budgets ≡ false)
      × (known_parent w.tables.budgets row.parent_id ≡ true)
      × ((row.current_usage_usd ≡ 0) × (row.pending_usage_usd ≡ 0))
      × ((row.approval_status ≡ pending)
          ↔ ((is_some who ≡ true) × (caller_is_org who ≡ false) × (is_some row.parent_id ≡ true)))
      × (fault_now w.faults ≡ false
          → exceeds_parent (parent_row w.tables row.parent_id) row ≡ false)

  draft-Draws :
      (e : EntityType) (p : BudgetPeriod) (parent_id : Option ℕ) (parent : Option BudgetDefinition)
      (w : World) (row : BudgetDefinition)
      → (fault_now w.faults ≡ false → parent_row w.tables parent_id ≡ parent)
      → RowOf w.tables (draft i req e p who parent_id parent) row
        × (exceeds_parent parent (draft i req e p who parent_id parent) ≡ false)
      → Draws w row
  unfolding draft
  draft-Draws e p parent_id parent w row read (((now, same), free, there), within) =
      subst (Draws w) (sym same) (
        refl,
        free,
        there,
        (refl, refl),
        initial_status_lem who (is_some parent_id),
        (λ quiet.
            rw (read quiet)
              (exceeds_complete parent now (draft i req e p who parent_id parent) ∙ within)),
      )

  Adds-Draws :
      (e : EntityType) (p : BudgetPeriod) (parent_id : Option ℕ) (parent : Option BudgetDefinition)
      (w w' : World)
      → w'.tables ≡ w.tables
      → (fault_now w.faults ≡ false → parent_row w.tables parent_id ≡ parent)
      → Adds (Draws w) w.tables (checked_draft parent (draft i req e p who parent_id parent) w')
  Adds-Draws e p parent_id parent w w' same read =
      elim (checked_draft-Adds (draft i req e p who parent_id parent) w.tables parent w' same) [
        | inl kept ↦ inl kept
        | inr (row, (done, (added, holds))) ↦
            inr (row, (done, (added, draft-Draws e p parent_id parent w row read holds)))
      ]

  create_with_parent-Adds :
      (e : EntityType) (p : BudgetPeriod) (asked : Option (Option ℕ)) (w : World)
      → Adds (Draws w) w.tables (create_with_parent i req who e p asked w)
  unfolding create_with_parent
  create_with_parent-Adds e p none w = Adds-Draws e p none none w w refl (λ quiet. refl)
  create_with_parent-Adds e p (some none) w = inl (400, (refl, refl), refl)
  create_with_parent-Adds e p (some (some q)) w =
      Adds-Draws e p (some q) (found_parent (get_budget_by_id q w).0) w (get_budget_by_id q w).1
        (get_budget_by_id-tables q w)
        (λ quiet. sym (
          ap found_parent (get_budget_by_id-found q w quiet)
          ∙ found_parent_lem (find_first (has_id q) w.tables.budgets)))

  with_fields-Adds :
      (e : Option EntityType) (p : Option BudgetPeriod) (f : EntityType → BudgetPeriod → M ℕ)
      (w : World)
      → ((e' : EntityType) (p' : BudgetPeriod) → Adds (Draws w) w.tables (f e' p' w))
      → Adds (Draws w) w.tables (with_fields e p f w)
  with_fields-Adds none p f w h = inl (400, (refl, refl), refl)
  with_fields-Adds (some e) none f w h = inl (400, (refl, refl), refl)
  with_fields-Adds (some e) (some p) f w h = h e p

-- Whichever statements fail, the creation of a budget responds with another status than 201 and
-- changes no committed table, or it responds with 201 and adds one row to the budgets, which has no
-- usage, the given id, a name that was free for its entity type, and a parent that is there, where it
-- names one. The row waits for approval exactly if the caller is known, is no administrator of an
-- organisation and names a parent. Where the first statement does not fail, a row that is not
-- isolated has an amount within its parent's.
pub create_budget_request-Adds :
    (i : ℕ) (body : Option CreateBudgetRequest) (who : Option Identity) (w : World)
    → Adds
        (λ row. (req : CreateBudgetRequest) × ((body ≡ some req) × Draws i req who w row))
        w.tables
        (create_budget_request i body who w)
unfolding create_budget_request
create_budget_request-Adds i none who w = inl (400, (refl, refl), refl)
create_budget_request-Adds i (some req) who w = elim (answered who) [
  | inl kept ↦ inl kept
  | inr (row, (done, (added, holds))) ↦ inr (row, (done, (added, (req, (refl, holds)))))
]
  where
    answered :
        (who : Option Identity)
        → Adds (Draws i req who w) w.tables (
            (if is_barred who req
                then pure 403
                else with_fields req.entity_type req.period (λ e p.
                  if is_incomplete req p
                  then pure 400
                  else create_with_parent i req who e p req.parent_id))
              w)
    answered who =
        if_lem (λ (m : M ℕ). Adds (Draws i req who w) w.tables (m w)) (is_barred who req)
          (inl (403, (refl, refl), refl))
          (with_fields-Adds i req who req.entity_type req.period _ w λ e p.
            if_lem (λ (m : M ℕ). Adds (Draws i req who w) w.tables (m w)) (is_incomplete req p)
              (inl (400, (refl, refl), refl))
              (create_with_parent-Adds i req who e p req.parent_id w))
