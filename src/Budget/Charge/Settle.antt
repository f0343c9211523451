-- ===== src/Budget/Charge/Settle.antt =====
-- `DecrementBudgets` as a whole: its charges reach every budget, or nothing does.
use quota_management.Prelude.{
  ℕ, String, ◌≡◌, refl, sym, ◌∙◌, ap, subst, Option, none, some, List, inl, inr, if_lem, find_first,
}
use quota_management.Config.{Config}
use quota_management.Models.Budget.{BudgetDefinition, RequestReservation}
use quota_management.Db.World.{
  Result, ok, err, World, Tables, M, continue, ◌>>=◌, ◌>>◌, in_tx, exec, pure, pool, query, lift,
  begin_tx, commit, settle, with_rollback, attempt, modify,
}
use quota_management.Db.Keeps.{
  Keeps, Keeps-in_tx, Keeps-begin_tx, Keeps-read, Keeps-query, Keeps-bind, Open, Open-in_tx,
  commit_lem, begin_tx_lem, stored,
}
use quota_management.Db.Hierarchy.{get_budgets_with_parent, with_parents, rows_read}
use quota_management.Db.ModelCosts.{or_not_found}
use quota_management.Db.Reservations.{
  drop_reservations, release_pending, delete_reservation_in_tx, decrement_pending_usage_in_tx,
  get_reservation_by_request_id, for_request,
}
use quota_management.Budget.Pricing.{calculate_cost, is_not_found}
use quota_management.Budget.Reserve.{invalidate_cache}
use quota_management.Budget.Reserve.Quiet.{calculate_cost-Keeps}
use quota_management.Budget.Sort.{sort_budgets_by_hierarchy}
use quota_management.Budget.Charge.{
  BudgetCharge, Call, Tally, DecrementResult, charge_each, tally_start, result_of, release,
  settle_charges, charge_reserved, decrement_budgets,
}
use quota_management.Budget.Charge.Effect.{
  Charged, Raised, Raised-refl, Raised-release, same_budgets,
}
use quota_management.Budget.Charge.Steps.{charge_each-Keeps, Tallied, charge_each-Tallied}

unfoldable pub release_steps : Call → RequestReservation → World → World
release_steps c res w =
    (decrement_pending_usage_in_tx res.budget_id res.estimated_cost_usd
      (delete_reservation_in_tx c.request_id w).1).1

release_steps-Keeps :
    (c : Call) (res : RequestReservation) (w : World) → (release_steps c res w).tables ≡ w.tables
unfolding release_steps delete_reservation_in_tx decrement_pending_usage_in_tx
release_steps-Keeps c res w =
    Keeps-in_tx _ (in_tx (exec (drop_reservations c.request_id)) w).1 ∙ Keeps-in_tx _ w

release_steps-Open :
    (start : List BudgetDefinition) (cs : List BudgetCharge) (c : Call) (res : RequestReservation)
    (w : World)
    → Open (Charged start cs) w
    → Open (Charged start cs) (release_steps c res w)
unfolding release_steps delete_reservation_in_tx decrement_pending_usage_in_tx
release_steps-Open start cs c res w h =
    Open-in_tx (Charged start cs) (Charged start cs)
      (exec (release_pending res.budget_id res.estimated_cost_usd)) w₁
      (λ t k a t' e.
        let e' : release_pending res.budget_id res.estimated_cost_usd t ≡ t' = cc e in
        subst (Charged start cs) e'
          (Raised-release cs res.budget_id res.estimated_cost_usd start t.budgets k))
      (same_budgets start cs (drop_reservations c.request_id) w (λ t. refl) h)
  where
    w₁ : World
    w₁ = (in_tx (exec (drop_reservations c.request_id)) w).1

-- The charges of the result have reached the budgets of `t`; after an error the tables are `t`.
abbrev pub Settles : Tables → Result DecrementResult × World → Type 0
Settles t (ok r, w) = Raised r.charges t.budgets w.tables.budgets
Settles t (err e, w) = w.tables ≡ t

continue-Settles {ℓ} :
    {A : Type ℓ} (r : Result A) (f : A → M DecrementResult) (w : World) (t : Tables)
    → w.tables ≡ t
    → ((a : A) → r ≡ ok a → Settles t (f a w))
    → Settles t (continue r f w)
continue-Settles (ok a) f w t e h = h a refl
continue-Settles (err x) f w t e h = e

settle-Settles :
    (t : Tables) (r : Result DecrementResult) (w : World)
    → Settles t (r, w)
    → Settles t (settle r w)
settle-Settles t (ok a) w h = h
settle-Settles t (err e) w h = h

release-Settles :
    (t : Tables) (c : Call) (res : RequestReservation) (cost : ℕ) (tally : Tally) (w : World)
    → w.tables ≡ t
    → Open (Charged t.budgets tally.charged) w
    → Settles t ((release c res >> (modify invalidate_cache >> pure (result_of cost tally))) w)
unfolding delete_reservation_in_tx decrement_pending_usage_in_tx in_tx release_steps
release-Settles t c res cost tally w kept h =
    elim (commit_lem (Charged t.budgets tally.charged) w₁
      (release_steps-Open t.budgets tally.charged c res w h)) [
        | inl (same, failed) ↦
            subst (λ r. Settles t (continue r after (commit w₁).1)) (sym failed)
              (same ∙ release_steps-Keeps c res w ∙ kept)
        | inr (good, done) ↦ subst (λ r. Settles t (continue r after (commit w₁).1)) (sym done) good
      ]
  where
    w₁ : World
    w₁ = release_steps c res w

    after : Unit {0} → M DecrementResult
    after _ = modify invalidate_cache >> pure (result_of cost tally)

settle_charges-Settles :
    (t : Tables) (c : Call) (limit : Option ℕ) (res : RequestReservation) (cost : ℕ)
    (sorted : List BudgetDefinition) (w : World)
    → w.tables ≡ t
    → w.work ≡ t
    → Settles t (settle_charges c limit res cost sorted w)
unfolding settle_charges Tallied
settle_charges-Settles t c limit res cost sorted w kept fresh =
    continue-Settles looped.0
      (λ tally. release c res >> (modify invalidate_cache >> pure (result_of cost tally))) looped.1
      t (charge_each-Keeps c limit sorted sorted (tally_start cost) w ∙ kept)
      λ tally e.
        let (same, charged) =
          charge_each-Tallied c limit sorted t.budgets sorted (tally_start cost) w
            (inr (rw fresh (Raised-refl t.budgets))) tally e in
        release-Settles t c res cost tally looped.1
          (charge_each-Keeps c limit sorted sorted (tally_start cost) w ∙ kept) (rw same charged)
  where
    looped : Result Tally × World
    looped = charge_each c limit sorted sorted (tally_start cost) w

rows_read_lem :
    (o : Option (List BudgetDefinition)) (t : Tables) (bs : List BudgetDefinition) (t' : Tables)
    → rows_read o t ≡ some (bs, t')
    → t' ≡ t
rows_read_lem none t bs t' e = absurd (cc e)
rows_read_lem (some rows) t bs t' e = cc e

pub get_budgets_with_parent-Keeps : (i : ℕ) → Keeps stored (get_budgets_with_parent i)
unfolding get_budgets_with_parent
get_budgets_with_parent-Keeps i = Keeps-read _ (λ t. rows_read_lem (with_parents i t) t)

pub get_reservation-Keeps : (r : String) → Keeps stored (get_reservation_by_request_id r)
unfolding get_reservation_by_request_id
get_reservation-Keeps r =
    Keeps-bind stored (pool (query (λ t. find_first (for_request r) t.reservations)))
      (λ row. lift (or_not_found row)) (Keeps-query _) (λ row w. refl)

charge_reserved-Settles :
    (c : Call) (limit : Option ℕ) (cost : ℕ) (r : Result RequestReservation) (t : Tables)
    (w : World)
    → w.tables ≡ t
    → Settles t (charge_reserved c limit cost r w)
unfolding get_budgets_with_parent with_rollback
charge_reserved-Settles c limit cost (err e) t w kept =
    if_lem (λ (m : M DecrementResult). Settles t (m w)) (is_not_found e)
      (rw kept (Raised-refl t.budgets)) kept
charge_reserved-Settles c limit cost (ok res) t w kept =
    continue-Settles found.0 next found.1 t start λ bs _.
      continue-Settles (begin_tx found.1).0 (λ _. with_rollback (charging bs)) (begin_tx found.1).1
        t (Keeps-begin_tx found.1 ∙ start)
        λ _ begun. settle-Settles t _ _ (
          settle_charges-Settles t c limit res cost (sort_budgets_by_hierarchy bs)
            (begin_tx found.1).1 (Keeps-begin_tx found.1 ∙ start)
            (begin_tx_lem found.1 begun ∙ start))
  where
    found : Result (List BudgetDefinition) × World
    found = get_budgets_with_parent res.budget_id w

    start : found.1.tables ≡ t
    start = ap (λ s. s.0) (get_budgets_with_parent-Keeps res.budget_id w) ∙ kept

    charging : List BudgetDefinition → M DecrementResult
    charging bs = settle_charges c limit res cost (sort_budgets_by_hierarchy bs)

    next : List BudgetDefinition → M DecrementResult
    next bs = do begin_tx; with_rollback (charging bs)

-- Whichever statements fail, a charge that returns a result has raised the usage of each budget by
-- the charges that the result names for it, and one that returns an error has changed no committed
-- table.
pub decrement_budgets-Settles :
    (cfg : Config) (c : Call) (limit : Option ℕ) (w : World)
    → Settles w.tables (decrement_budgets cfg c limit w)
unfolding decrement_budgets
decrement_budgets-Settles cfg c limit w =
    continue-Settles (calculate_cost cfg c.model_id c.input_tokens c.output_tokens w).0 next w₁
      w.tables
      (ap (λ s. s.0) (calculate_cost-Keeps cfg c.model_id c.input_tokens c.output_tokens w))
      λ cost _.
        charge_reserved-Settles c limit cost (get_reservation_by_request_id c.request_id w₁).0
          w.tables (get_reservation_by_request_id c.request_id w₁).1
          (ap (λ s. s.0)
            (get_reservation-Keeps c.request_id w₁
              ∙ calculate_cost-Keeps cfg c.model_id c.input_tokens c.output_tokens w))
  where
    w₁ : World
    w₁ = (calculate_cost cfg c.model_id c.input_tokens c.output_tokens w).1

    next : ℕ → M DecrementResult
    next cost = do
      res ← attempt (get_reservation_by_request_id c.request_id)
      charge_reserved c limit cost res
