-- ===== src/Api/Budgets/Delete/Gone.antt =====
-- internal/api/handlers.go: what `DeleteBudget` leaves in the store.
use quota_management.Prelude.{
  ℕ, ◌≡◌, refl, sym, ap, ◌∙◌, subst, Bool, true, false, Option, none, some, List, [], ◌∷◌, ◌++◌,
  arith, find_first, count_where, select, ◌==◌, ◌⊎◌, inl, inr, Bool-cases, if◌then◌else◌,
}
use quota_management.Models.Budget.{BudgetDefinition}
use quota_management.Db.World.{
  Error, not_found, optimistic_lock, duplicate_entity, db_failure, Result, ok, err, World, Tables,
  M, pool, ◌>>=◌, attempt,
}
use quota_management.Db.Ways.{pool_ways}
use quota_management.Db.Reads.{
  get_budget_by_id-tables, get_child_budgets-tables, get_budget_lem, get_child_budgets_lem,
}
use quota_management.Db.Budgets.{
  has_id, is_child_of, get_budget_by_id, get_child_budgets, delete_budget, delete_row,
}
use quota_management.Db.Cascade.{delete_budget_cascade, descendants}
use quota_management.Db.Cascade.Erased.{Erased, Erased-none, delete_row-Erased}
use quota_management.Db.Cascade.Total.{descendants_childless}
use quota_management.Db.Cascade.Atomic.{delete_budget_cascade_atomic}
use quota_management.Api.Approvals.{with_budget}
use quota_management.Api.Budgets.Delete.{responded, with_children, delete_budget_request}

-- The response is another than 204 and the tables are `t` still; or it is 204, and the budget and
-- all of its descendants are gone, with their reservations. Without the cascade it had none.
abbrev pub Deletes : Bool → ℕ → Tables → Result ℕ × World → Type 0
Deletes cascade i t r =
    ((code : ℕ) × ((r.0 ≡ ok code) × ((code == 204) ≡ false)) × (r.1.tables ≡ t))
    ⊎ ((ids : List ℕ) × ((r.0 ≡ ok 204)
          × (Erased (ids ++ (i ∷ [])) t r.1.tables
              × (descendants i t ≡ some ids)
              × ((cascade ≡ true) ⊎ (ids ≡ [])))))

responded-Fails {ℓ} :
    (A : Type ℓ) (e : Error) (w : World) (t : Tables) (cascade : Bool) (i : ℕ)
    → w.tables ≡ t
    → Deletes cascade i t (responded {A = A} 204 (err e) w)
responded-Fails A not_found w t cascade i same = inl (404, (refl, refl), same)
responded-Fails A optimistic_lock w t cascade i same = inl (500, (refl, refl), same)
responded-Fails A duplicate_entity w t cascade i same = inl (500, (refl, refl), same)
responded-Fails A db_failure w t cascade i same = inl (500, (refl, refl), same)

found_counts {ℓ} :
    {A : Type ℓ} (p : A → Bool) (xs : List A) {a : A}
    → find_first p xs ≡ some a
    → (count_where p xs == 0) ≡ false
found_counts p [] e = absurd (cc e)
found_counts p (x ∷ xs) e = elim (Bool-cases (p x)) [
  | inl hit ↦ rw hit (ground arith)
  | inr miss ↦ rw miss (ground (arith, found_counts p xs (rw miss at e)))
]

abbrev unless_parent : Bool → ℕ → Tables → Option (ℕ × Tables)
unless_parent childless n u = if childless then some (n, u) else none

parent_lem :
    (childless : Bool) (n k : ℕ) (u v : Tables) → unless_parent childless n u ≡ some (k, v) → n ≡ k
parent_lem true n k u v e = cc e
parent_lem false n k u v e = absurd (cc e)

module _ (i : ℕ) (t : Tables) where
  simple-Deletes :
      (cascade : Bool) (w : World) (row : BudgetDefinition)
      → w.tables ≡ t
      → find_first (has_id i) t.budgets ≡ some row
      → descendants i t ≡ some []
      → Deletes cascade i t ((attempt (delete_budget i) >>= responded 204) w)
  unfolding delete_budget
  simple-Deletes cascade w row same hit none_below = elim (pool_ways (delete_row i) w) [
    | inl (failed, kept) ↦ rw failed (inl (500, (refl, refl), kept ∙ same))
    | inr (n, u, e, done, now) ↦
        let counted : (n == 0) ≡ false =
          ap (λ k. k == 0) (sym (parent_lem _ (count_where (has_id i) w.tables.budgets) n _ u e))
          ∙ found_counts (has_id i) w.tables.budgets {a = row}
              (subst (λ v. find_first (has_id i) v.budgets ≡ some row) (sym same) hit) in
        rw (done, counted)
          (inr (
            [],
            (
              refl,
              (
                subst (λ v. Erased (i ∷ []) v (pool (delete_row i) w).1.tables) same
                    (delete_row-Erased i [] w.tables u (pool (delete_row i) w).1.tables n e
                      (subst (Erased [] u) (sym now) (Erased-none u))),
                none_below,
                inr refl,
              ),
            ),
          ))
  ]

  cascade-Deletes :
      (w : World)
      → w.tables ≡ t
      → Deletes true i t ((attempt (delete_budget_cascade i) >>= responded 204) w)
  cascade-Deletes w same = elim (delete_budget_cascade_atomic i w) [
    | inl (kept, (e, failed)) ↦
        rw failed (responded-Fails ℕ e (delete_budget_cascade i w).1 t true i (kept ∙ same))
    | inr (ids, (listed, (done, erased))) ↦ rw done (
        inr (
          ids,
          (
            refl,
            (
              subst (λ u. Erased (ids ++ (i ∷ [])) u (delete_budget_cascade i w).1.tables) same
                  erased,
              subst (λ u. descendants i u ≡ some ids) same listed,
              inl refl,
            ),
          ),
        ))
  ]

  listed-Deletes :
      (cascade : Bool) (children : Result (List BudgetDefinition)) (w : World)
      (row : BudgetDefinition)
      → w.tables ≡ t
      → find_first (has_id i) t.budgets ≡ some row
      → ((cs : List BudgetDefinition) → children ≡ ok cs → select (is_child_of i) t.budgets ≡ cs)
      → Deletes cascade i t (with_children cascade i children w)
  listed-Deletes cascade (err e) w row same hit list = inl (500, (refl, refl), same)
  listed-Deletes cascade (ok []) w row same hit list =
      simple-Deletes cascade w row same hit (descendants_childless i t (list [] refl))
  listed-Deletes true (ok (c ∷ cs)) w row same hit list = cascade-Deletes w same
  listed-Deletes false (ok (c ∷ cs)) w row same hit list = inl (409, (refl, refl), same)

-- Whichever statements fail, a request to delete a budget responds with another status than 204 and
-- changes no committed table; or it responds with 204, and exactly the budget and all of its
-- descendants are gone, with their reservations: all other budgets and reservations are there, in
-- their order. A request that does not ask for the cascade is answered with 204 only for a budget
-- that had no descendants.
pub delete_budget_request-Deletes :
    (i : ℕ) (cascade : Bool) (w : World)
    → Deletes cascade i w.tables (delete_budget_request (some i) cascade w)
unfolding delete_budget_request
delete_budget_request-Deletes i cascade w =
    answered (get_budget_by_id i w).0 (get_budget_by_id i w).1 (get_budget_by_id-tables i w)
      (get_budget_lem i w)
  where
    with_list : BudgetDefinition → M ℕ
    with_list b = do children ← attempt (get_child_budgets i); with_children cascade i children

    answered :
        (x : Result BudgetDefinition) (w' : World)
        → w'.tables ≡ w.tables
        → ((row : BudgetDefinition)
            → x ≡ ok row
            → find_first (has_id i) w.tables.budgets ≡ some row)
        → Deletes cascade i w.tables (with_budget x with_list w')
    answered (ok row) w' same found =
        listed-Deletes i w.tables cascade (get_child_budgets i w').0 (get_child_budgets i w').1 row
          (get_child_budgets-tables i w' ∙ same) (found row refl)
          (λ cs e.
            subst (λ t. select (is_child_of i) t.budgets ≡ cs) same
              (get_child_budgets_lem i w' cs e))
    answered (err not_found) w' same found = inl (404, (refl, refl), same)
    answered (err optimistic_lock) w' same found = inl (500, (refl, refl), same)
    answered (err duplicate_entity) w' same found = inl (500, (refl, refl), same)
    answered (err db_failure) w' same found = inl (500, (refl, refl), same)
