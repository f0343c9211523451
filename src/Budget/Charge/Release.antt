-- ===== src/Budget/Charge/Release.antt =====
-- What `DecrementBudgets` releases: the reservations of the request and pending usage.
use quota_management.Prelude.{ℕ, ◌≡◌, refl, ◌∙◌, ap, Option, some, List, inl, inr, find_first}
use quota_management.Config.{Config}
use quota_management.Models.Budget.{BudgetDefinition, RequestReservation}
use quota_management.Db.World.{
  Result, ok, err, World, Tables, M, continue, ◌>>=◌, ◌>>◌, pure, in_tx, begin_tx, settle,
  with_rollback, attempt, modify,
}
use quota_management.Db.Keeps.{begin_tx_lem}
use quota_management.Db.Hierarchy.{get_budgets_with_parent}
use quota_management.Db.Reservations.{
  get_reservation_by_request_id, for_request, delete_reservation_in_tx,
  decrement_pending_usage_in_tx,
}
use quota_management.Budget.Pricing.{calculate_cost}
use quota_management.Budget.Reserve.{invalidate_cache}
use quota_management.Budget.Reserve.Quiet.{calculate_cost-Keeps}
use quota_management.Budget.Sort.{sort_budgets_by_hierarchy}
use quota_management.Budget.Charge.{
  Call, Tally, DecrementResult, charge_each, tally_start, result_of, release, settle_charges,
  charge_reserved, decrement_budgets,
}
use quota_management.Budget.Charge.Settle.{
  get_reservation-Keeps, get_budgets_with_parent-Keeps, release_steps,
}
use quota_management.Budget.Charge.Total.{get_reservation_lem}
use quota_management.Budget.Charge.Pending.{
  SamePending-refl, charge_each-Held, Released, release_steps-Released, commit-Released,
}

-- What every continuation that succeeds leads to, the whole leads to.
continue-leads {ℓ ℓ' κ} :
    {A : Type ℓ} {B : Type ℓ'} (P : World → Type κ) (r : Result A) (f : A → M B) (w : World) (b : B)
    → (continue r f w).0 ≡ ok b
    → ((a : A) → r ≡ ok a → (f a w).0 ≡ ok b → P (f a w).1)
    → P (continue r f w).1
continue-leads P (ok a) f w b e h = h a refl e
continue-leads P (err x) f w b e h = absurd (cc e)

settle-leads {κ} :
    (P : World → Type κ) (x : Result DecrementResult) (w : World) (r : DecrementResult)
    → (settle x w).0 ≡ ok r
    → (x ≡ ok r → P w)
    → P (settle x w).1
settle-leads P (ok a) w r e h = h e
settle-leads P (err x) w r e h = absurd (cc e)

module _ (t : Tables) (c : Call) (limit : Option ℕ) (res : RequestReservation)
    (r : DecrementResult) where
  abbrev Releases : World → Type 0
  Releases w = Released t c.request_id res w.tables

  settle_charges-Releases :
      (cost : ℕ) (sorted : List BudgetDefinition) (w : World)
      → w.work ≡ t
      → (settle_charges c limit res cost sorted w).0 ≡ ok r
      → Releases (settle_charges c limit res cost sorted w).1
  unfolding settle_charges release_steps delete_reservation_in_tx decrement_pending_usage_in_tx
      in_tx
  settle_charges-Releases cost sorted w fresh e =
      continue-leads Releases (looped w).0
        (λ tally. release c res >> (modify invalidate_cache >> pure (result_of cost tally)))
        (looped w).1 r e
        λ tally _ e₁.
          commit-Released t c res (release_steps c res (looped w).1) r
            (modify invalidate_cache >> pure (result_of cost tally)) (λ v. refl)
            (release_steps-Released t c res (looped w).1 (
              charge_each-Held t c limit sorted sorted (tally_start cost) w
                (inr (rw fresh (refl, SamePending-refl t.budgets)))))
            e₁
    where
      looped : M Tally
      looped = charge_each c limit sorted sorted (tally_start cost)

  charge_reserved-Releases :
      (cost : ℕ) (w : World)
      → w.tables ≡ t
      → (charge_reserved c limit cost (ok res) w).0 ≡ ok r
      → Releases (charge_reserved c limit cost (ok res) w).1
  unfolding with_rollback
  charge_reserved-Releases cost w kept e =
      continue-leads Releases found.0 next found.1 r e λ bs _ e₁.
        continue-leads Releases (begin_tx found.1).0 (λ _. with_rollback (charging bs))
          (begin_tx found.1).1 r e₁
          λ _ begun e₂.
            settle-leads Releases (charging bs (begin_tx found.1).1).0
              (charging bs (begin_tx found.1).1).1 r e₂
              λ e₃.
                settle_charges-Releases cost (sort_budgets_by_hierarchy bs) (begin_tx found.1).1
                  (begin_tx_lem found.1 begun
                    ∙ ap (λ s. s.0) (get_budgets_with_parent-Keeps res.budget_id w)
                    ∙ kept)
                  e₃
    where
      found : Result (List BudgetDefinition) × World
      found = get_budgets_with_parent res.budget_id w

      charging : List BudgetDefinition → M DecrementResult
      charging bs = settle_charges c limit res cost (sort_budgets_by_hierarchy bs)

      next : List BudgetDefinition → M DecrementResult
      next bs = do begin_tx; with_rollback (charging bs)

-- A charge that returns a result, of a request that has a reservation, deletes every reservation of
-- the request, and lowers the pending usage of the budget of the first one by its estimate; the
-- pending usage of every other budget stays as it was.
pub decrement_budgets-Released :
    (cfg : Config) (c : Call) (limit : Option ℕ) (w : World) (res : RequestReservation)
    (r : DecrementResult)
    → find_first (for_request c.request_id) w.tables.reservations ≡ some res
    → (decrement_budgets cfg c limit w).0 ≡ ok r
    → Released w.tables c.request_id res (decrement_budgets cfg c limit w).1.tables
unfolding decrement_budgets
decrement_budgets-Released cfg c limit w res r hit e =
    continue-leads (Releases w.tables c limit res r)
      (calculate_cost cfg c.model_id c.input_tokens c.output_tokens w).0 next w₁ r e
      λ cost _ e₁. elim (get_reservation_lem c.request_id w₁ res (rw tables_kept hit)) [
        | inl failed ↦ absurd (cc (rw failed at e₁))
        | inr done ↦
            let start : found.1.tables ≡ w.tables =
              ap (λ s. s.0) (get_reservation-Keeps c.request_id w₁) ∙ tables_kept in
            rw done
              (charge_reserved-Releases w.tables c limit res r cost found.1 start (rw done at e₁))
      ]
  where
    w₁ : World
    w₁ = (calculate_cost cfg c.model_id c.input_tokens c.output_tokens w).1

    found : Result RequestReservation × World
    found = get_reservation_by_request_id c.request_id w₁

    tables_kept : w₁.tables ≡ w.tables
    tables_kept =
        ap (λ s. s.0) (calculate_cost-Keeps cfg c.model_id c.input_tokens c.output_tokens w)

    next : ℕ → M DecrementResult
    next cost = do
      res ← attempt (get_reservation_by_request_id c.request_id)
      charge_reserved c limit cost res
