-- ===== src/Api/Budgets/Update/Writes.antt =====
-- internal/api/handlers.go: what `UpdateBudget` writes.
use quota_management.Prelude.{
  ℕ, ◌≡◌, refl, sym, ap, ◌∙◌, subst, Bool, true, false, Option, none, some, arith, ◌⊎◌, inl, inr,
  if_lem, find_first,
}
use quota_management.Models.Budget.{BudgetDefinition}
use quota_management.Db.World.{
  optimistic_lock, db_failure, not_found, duplicate_entity, Result, ok, err, World, Tables, M, ◌>>◌,
}
use quota_management.Db.Reads.{get_budget_by_id-tables, get_budget_lem}
use quota_management.Db.Budgets.{has_id, get_budget_by_id}
use quota_management.Auth.Identity.{Identity}
use quota_management.Api.Approvals.{with_budget}
use quota_management.Api.Budgets.{CreateBudgetRequest, or_else}
use quota_management.Api.Budgets.Update.{
  with_settings, settings_refused, set_enabled, with_owners, with_flags, cascade, write_budget,
  switched, update_found, update_budget_request, with_body, may_enable,
}
use quota_management.Api.Budgets.Update.Stored.{Writes, write_budget-Writes}

set_enabled_lem :
    (who : Option Identity) (e : Option Bool) (now : ℕ) (b c : BudgetDefinition)
    → set_enabled who e now b ≡ some c
    → (c.id ≡ b.id)
      × (c.version ≡ b.version)
      × (c.enabled ≡ true → (b.enabled ≡ true) ⊎ (may_enable who b ≡ true))
unfolding set_enabled
set_enabled_lem who none now b c h = ground arith
set_enabled_lem who (some true) now b c h = ground arith
set_enabled_lem none (some false) now b c h = ground arith
set_enabled_lem (some i) (some false) now b c h = ground arith

-- An administrator of an organisation disables the budget, and with it its children.
abbrev pub cascades : Option Identity → Option Bool → Bool
cascades none e = false
cascades (some i) none = false
cascades (some i) (some true) = false
cascades (some i) (some false) = i.is_org

-- A budget under the id of the first row that has it, with the version that the request gives or else
-- the row's, and enabled only where the row is or the caller may enable it.
abbrev pub Asked : ℕ → CreateBudgetRequest → Option Identity → Tables → BudgetDefinition → Type 0
Asked i req who t b =
    (row : BudgetDefinition) × ((find_first (has_id i) t.budgets ≡ some row)
      × ((b.id ≡ row.id)
          × ((b.version ≡ or_else row.version req.version)
              × (b.enabled ≡ true → (row.enabled ≡ true) ⊎ (may_enable who row ≡ true)))))

no_cascade :
    (i : ℕ) (who : Option Identity) (e : Option Bool) (m : M ℕ) (w : World)
    → cascades who e ≡ false
    → (cascade who e i >> m) w ≡ m w
no_cascade i none none m w h = refl
no_cascade i none (some true) m w h = refl
no_cascade i none (some false) m w h = refl
no_cascade i (some j) none m w h = refl
no_cascade i (some j) (some true) m w h = refl
no_cascade i (some j) (some false) m w h = rw h refl

may_enable_lem :
    (req : CreateBudgetRequest) (who : Option Identity) (row : BudgetDefinition)
    → may_enable who (with_flags req who (with_settings req row)) ≡ may_enable who row
unfolding with_settings
may_enable_lem req none row = refl
may_enable_lem req (some j) row = refl

module _ (i : ℕ) (req : CreateBudgetRequest) (who : Option Identity) (row : BudgetDefinition) where
  switched-Writes :
      (o : Option BudgetDefinition) (now : ℕ) (w : World)
      → set_enabled who req.enabled now (with_flags req who (with_settings req row)) ≡ o
      → find_first (has_id i) w.tables.budgets ≡ some row
      → cascades who req.enabled ≡ false
      → Writes (Asked i req who w.tables) w.tables (switched req who i o w)
  unfolding with_owners with_settings
  switched-Writes none now w e hit calm = inl (403, (refl, refl), refl)
  switched-Writes (some c) now w e hit calm =
      rw (no_cascade i who req.enabled (write_budget (with_owners req c)) w calm)
        (elim (write_budget-Writes (with_owners req c) w.tables w refl) [
          | inl kept ↦ inl kept
          | inr (b, (done, (changed, (some_hit, same)))) ↦
              inr (
                b,
                (done, (changed, (some_hit, subst (Asked i req who w.tables) (sym same) asked))),
              )
        ])
    where
      asked : Asked i req who w.tables (with_owners req c)
      asked =
          let (same_id, same_version, may) =
            set_enabled_lem who req.enabled now (with_flags req who (with_settings req row)) c e in
          (
            row,
            (hit, (same_id, (ap (λ v. or_else v req.version) same_version, λ on. by_row (may on)))),
          )
        where
          by_row :
              (row.enabled ≡ true)
                ⊎ (may_enable who (with_flags req who (with_settings req row)) ≡ true)
              → (row.enabled ≡ true) ⊎ (may_enable who row ≡ true)
          by_row (inl on) = inl on
          by_row (inr may) = inr (sym (may_enable_lem req who row) ∙ may)

  update_found-Writes :
      (w : World)
      → find_first (has_id i) w.tables.budgets ≡ some row
      → cascades who req.enabled ≡ false
      → Writes (Asked i req who w.tables) w.tables (update_found req who i row w)
  unfolding update_found
  update_found-Writes w hit calm =
      if_lem (λ (m : M ℕ). Writes (Asked i req who w.tables) w.tables (m w))
        (settings_refused req (with_settings req row)) (inl (400, (refl, refl), refl))
        (switched-Writes
          (set_enabled who req.enabled w.now (with_flags req who (with_settings req row))) w.now w
          refl hit calm)

-- Where no children are disabled with the budget, and whichever statements fail, an update responds
-- with another status than 200 and changes no committed table; or it responds with 200, and has set
-- the columns of the rows that have the id of the budget it has read and the version that the request
-- gives, or else the one it has read. There is such a row, so that a version which has moved on is
-- refused; and the budget is enabled only if it was, or the caller may enable it.
pub update_budget_request-Writes :
    (i : ℕ) (req : CreateBudgetRequest) (who : Option Identity) (w : World)
    → cascades who req.enabled ≡ false
    → Writes (Asked i req who w.tables) w.tables (update_budget_request (some i) (some req) who w)
unfolding update_budget_request
update_budget_request-Writes i req who w calm =
    answered (get_budget_by_id i w).0 (get_budget_by_id i w).1 (get_budget_by_id-tables i w)
      (get_budget_lem i w)
  where
    answered :
        (x : Result BudgetDefinition) (w' : World)
        → w'.tables ≡ w.tables
        → ((row : BudgetDefinition)
            → x ≡ ok row
            → find_first (has_id i) w.tables.budgets ≡ some row)
        → Writes (Asked i req who w.tables) w.tables (with_budget x (with_body (some req) who i) w')
    answered (ok row) w' same found =
        subst (λ t. Writes (Asked i req who t) t (update_found req who i row w')) same
          (update_found-Writes i req who row w' (rw same (found row refl)) calm)
    answered (err not_found) w' same found = inl (404, (refl, refl), same)
    answered (err optimistic_lock) w' same found = inl (500, (refl, refl), same)
    answered (err duplicate_entity) w' same found = inl (500, (refl, refl), same)
    answered (err db_failure) w' same found = inl (500, (refl, refl), same)
