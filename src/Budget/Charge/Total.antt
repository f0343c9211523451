-- ===== src/Budget/Charge/Total.antt =====
-- The charges of a request add up to its cost.
use quota_management.Prelude.{
  ℕ, String, ◌≡◌, refl, sym, ◌∙◌, ap, subst, Bool, Option, none, some, List, [], ◌∷◌, ◌++◌, inl,
  inr, ◌⊎◌, All, find_first, select, Bool-cases, select-All,
}
use quota_management.Config.{Config}
use quota_management.Models.Budget.{
  BudgetDefinition, RequestReservation, EntityType, org, team, user,
}
use quota_management.Db.World.{
  db_failure, Result, ok, err, World, Tables, M, continue, ◌>>=◌, ◌>>◌, pure, pool, query, lift,
  begin_tx, settle, with_rollback, attempt, modify,
}
use quota_management.Db.Keeps.{continue-ok, pool-query, pool-ok}
use quota_management.Db.Hierarchy.{get_budgets_with_parent, with_parents, rows_read}
use quota_management.Db.ModelCosts.{or_not_found}
use quota_management.Db.Reservations.{get_reservation_by_request_id, for_request}
use quota_management.Budget.Pricing.{calculate_cost}
use quota_management.Budget.Reserve.{invalidate_cache}
use quota_management.Budget.Reserve.Quiet.{calculate_cost-Keeps}
use quota_management.Budget.Sort.{sort_budgets_by_hierarchy, of_type}
use quota_management.Budget.Charge.{
  Call, DecrementResult, tally_start, result_of, release, settle_charges, charge_reserved,
  charge_each, decrement_budgets,
}
use quota_management.Budget.Charge.Conserve.{tally_all, total-tally_all, total, Shares, HasRoot}
use quota_management.Budget.Charge.Settle.{get_reservation-Keeps}
use quota_management.Budget.Charge.Steps.{Tallied, charge_each-Tallied}
use quota_management.Budget.Charge.Effect.{Raised-refl}
use quota_management.Budget.Reserve.Rows.{append-All}

pub get_reservation_lem :
    (r : String) (w : World) (res : RequestReservation)
    → find_first (for_request r) w.tables.reservations ≡ some res
    → ((get_reservation_by_request_id r w).0 ≡ err db_failure)
      ⊎ ((get_reservation_by_request_id r w).0 ≡ ok res)
unfolding get_reservation_by_request_id
get_reservation_lem r w res hit = elim (pool-query found w) [
  | inl failed ↦
      inl
        (ap (λ x. (continue x (λ row. lift (or_not_found row)) (pool (query found) w).1).0) failed)
  | inr done ↦ inr (
      ap (λ x. (continue x (λ row. lift (or_not_found row)) (pool (query found) w).1).0) done
      ∙ ap or_not_found hit)
]
  where
    found : Tables → Option RequestReservation
    found t = find_first (for_request r) t.reservations

settle-ok : (r : Result DecrementResult) (w : World) → (settle r w).0 ≡ r
settle-ok (ok a) w = refl
settle-ok (err e) w = refl

settle_charges_lem :
    (c : Call) (res : RequestReservation) (cost : ℕ) (sorted : List BudgetDefinition) (w : World)
    (r : DecrementResult)
    → (settle_charges c none res cost sorted w).0 ≡ ok r
    → result_of cost (tally_all none sorted sorted (tally_start cost)) ≡ r
unfolding settle_charges Tallied
settle_charges_lem c res cost sorted w r e =
    let (tally, looped, e₁) =
      continue-ok (charge_each c none sorted sorted (tally_start cost) w).0
        (λ tally. release c res >> (modify invalidate_cache >> pure (result_of cost tally)))
        (charge_each c none sorted sorted (tally_start cost) w).1 r e in
    let (_, _, e₂) =
      continue-ok (release c res (charge_each c none sorted sorted (tally_start cost) w).1).0
        (λ _. modify invalidate_cache >> pure (result_of cost tally))
        (release c res (charge_each c none sorted sorted (tally_start cost) w).1).1 r e₁ in
    let (same, _) =
      charge_each-Tallied c none sorted w.work.budgets sorted (tally_start cost) w
        (inr (Raised-refl w.work.budgets)) tally looped in
    ap (result_of cost) (sym same) ∙ cc e₂

rows_lem :
    (i : ℕ) (w : World) (rows bs : List BudgetDefinition)
    → with_parents i w.tables ≡ some rows
    → (get_budgets_with_parent i w).0 ≡ ok bs
    → bs ≡ rows
unfolding get_budgets_with_parent
rows_lem i w rows bs known e =
    let (t, read) = pool-ok (λ t. rows_read (with_parents i t) t) w bs e in cc (rw known at read)

charge_reserved_lem :
    (c : Call) (res : RequestReservation) (cost : ℕ) (rows : List BudgetDefinition) (w : World)
    (r : DecrementResult)
    → with_parents res.budget_id w.tables ≡ some rows
    → (charge_reserved c none cost (ok res) w).0 ≡ ok r
    → result_of cost (
        tally_all none
          (sort_budgets_by_hierarchy rows)
          (sort_budgets_by_hierarchy rows)
          (tally_start cost))
      ≡ r
unfolding with_rollback
charge_reserved_lem c res cost rows w r known e =
    let (bs, found, e₁) = continue-ok rows_found.0 next rows_found.1 r e in
    let (_, _, e₂) =
      continue-ok (begin_tx rows_found.1).0 (λ _. with_rollback (charging bs))
        (begin_tx rows_found.1).1 r e₁ in
    let begun : World = (begin_tx rows_found.1).1 in
    let same : bs ≡ rows = rows_lem res.budget_id w rows bs known found in
    settle_charges_lem c res cost (sort_budgets_by_hierarchy rows) begun r (
      subst (λ xs. (charging xs begun).0 ≡ ok r) same
        (sym (settle-ok (charging bs begun).0 (charging bs begun).1) ∙ e₂))
  where
    rows_found : Result (List BudgetDefinition) × World
    rows_found = get_budgets_with_parent res.budget_id w

    charging : List BudgetDefinition → M DecrementResult
    charging bs = settle_charges c none res cost (sort_budgets_by_hierarchy bs)

    next : List BudgetDefinition → M DecrementResult
    next bs = do begin_tx; with_rollback (charging bs)

module _ (P : BudgetDefinition → Type 0) where
  sort-All : (bs : List BudgetDefinition) → All P bs → All P (sort_budgets_by_hierarchy bs)
  unfolding sort_budgets_by_hierarchy
  sort-All bs h = append-All P (select (of_type user) bs) _ (select-All P (of_type user) bs h) (
      append-All P (select (of_type team) bs) _ (select-All P (of_type team) bs h)
        (select-All P (of_type org) bs h))

HasRoot-append : (xs ys : List BudgetDefinition) → HasRoot xs ⊎ HasRoot ys → HasRoot (xs ++ ys)
HasRoot-append [] ys (inl r) = absurd r
HasRoot-append [] ys (inr r) = r
HasRoot-append (x ∷ xs) ys (inl (inl r)) = inl r
HasRoot-append (x ∷ xs) ys (inl (inr r)) = inr (HasRoot-append xs ys (inl r))
HasRoot-append (x ∷ xs) ys (inr r) = inr (HasRoot-append xs ys (inr r))

HasRoot-select :
    (p : BudgetDefinition → Bool) (b : BudgetDefinition) (bs : List BudgetDefinition)
    → HasRoot (select p bs)
    → HasRoot (select p (b ∷ bs))
HasRoot-select p b bs h = elim (Bool-cases (p b)) [
  | inl hit ↦ rw hit (inr h)
  | inr miss ↦ rw miss h
]

HasRoot-types :
    (bs : List BudgetDefinition)
    → HasRoot bs
    → HasRoot (select (of_type user) bs)
      ⊎ (HasRoot (select (of_type team) bs) ⊎ HasRoot (select (of_type org) bs))
HasRoot-types [] h = absurd h
HasRoot-types (b ∷ bs) (inl root) = by_type b.entity_type refl
  where
    by_type :
        (e : EntityType)
        → b.entity_type ≡ e
        → HasRoot (select (of_type user) (b ∷ bs))
          ⊎ (HasRoot (select (of_type team) (b ∷ bs)) ⊎ HasRoot (select (of_type org) (b ∷ bs)))
    by_type user e = inl (rw e (inl root))
    by_type team e = inr (inl (rw e (inl root)))
    by_type org e = inr (inr (rw e (inl root)))
HasRoot-types (b ∷ bs) (inr h) = elim (HasRoot-types bs h) [
  | inl r ↦ inl (HasRoot-select (of_type user) b bs r)
  | inr (inl r) ↦ inr (inl (HasRoot-select (of_type team) b bs r))
  | inr (inr r) ↦ inr (inr (HasRoot-select (of_type org) b bs r))
]

HasRoot-sort : (bs : List BudgetDefinition) → HasRoot bs → HasRoot (sort_budgets_by_hierarchy bs)
unfolding sort_budgets_by_hierarchy
HasRoot-sort bs h = HasRoot-append (select (of_type user) bs) _ (elim (HasRoot-types bs h) [
  | inl r ↦ inl r
  | inr rest ↦ inr (HasRoot-append (select (of_type team) bs) (select (of_type org) bs) rest)
])

-- A charge that no limit has been reported for, of a request that has a reservation: where the
-- budget of the reservation and its ancestors are not isolated and one of them has no parent, the
-- charges of a result add up to the actual cost.
pub total-decrement_budgets :
    (cfg : Config) (c : Call) (w : World) (res : RequestReservation) (rows : List BudgetDefinition)
    (r : DecrementResult)
    → find_first (for_request c.request_id) w.tables.reservations ≡ some res
    → with_parents res.budget_id w.tables ≡ some rows
    → All Shares rows
    → HasRoot rows
    → (decrement_budgets cfg c none w).0 ≡ ok r
    → total r.charges ≡ r.actual_cost
unfolding decrement_budgets
total-decrement_budgets cfg c w res rows r hit known shares root e =
    let (cost, priced, e₁) =
      continue-ok (calculate_cost cfg c.model_id c.input_tokens c.output_tokens w).0 next w₁ r e in
    let e₂ : (charge_reserved c none cost found.0 found.1).0 ≡ ok r = e₁ in
    elim (get_reservation_lem c.request_id w₁ res (rw tables_kept hit)) [
      | inl failed ↦ absurd (cc (rw failed at e₂))
      | inr done ↦
          let sorted : List BudgetDefinition = sort_budgets_by_hierarchy rows in
          let result : result_of cost (tally_all none sorted sorted (tally_start cost)) ≡ r =
            charge_reserved_lem c res cost rows found.1 r (rw found_kept known) (rw done at e₂) in
          rw⁻¹ result (
            total-tally_all sorted sorted cost (sort-All Shares rows shares)
              (HasRoot-sort rows root))
    ]
  where
    w₁ : World
    w₁ = (calculate_cost cfg c.model_id c.input_tokens c.output_tokens w).1

    found : Result RequestReservation × World
    found = get_reservation_by_request_id c.request_id w₁

    tables_kept : w₁.tables ≡ w.tables
    tables_kept =
        ap (λ s. s.0) (calculate_cost-Keeps cfg c.model_id c.input_tokens c.output_tokens w)

    found_kept : found.1.tables ≡ w.tables
    found_kept = ap (λ s. s.0) (get_reservation-Keeps c.request_id w₁) ∙ tables_kept

    next : ℕ → M DecrementResult
    next cost = do
      res ← attempt (get_reservation_by_request_id c.request_id)
      charge_reserved c none cost res
