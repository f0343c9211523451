-- ===== src/Budget/Reserve/Grant.antt =====
-- What `CheckAndReserveBudget` can commit: nothing, or what its loop of reservations has made of
-- the tables that it found.
use quota_management.Prelude.{
  ℕ, String, ◌≡◌, refl, sym, ◌∙◌, ap, subst, Bool, true, false, Option, none, some, List, [], ◌∷◌,
  ◌⊎◌, inl, inr, is_some, if_split,
}
use quota_management.Config.{Config}
use quota_management.Models.Budget.{BudgetDefinition}
use quota_management.Db.World.{
  Result, ok, err, World, Tables, M, ◌>>=◌, ◌>>◌, continue, begin_tx, commit, rollback,
  with_rollback, settle, gets, modify,
}
use quota_management.Db.Budgets.{enabled_budgets, get_enabled_budgets_for_update}
use quota_management.Db.Keeps.{
  Keeps, Keeps-bind, Keeps-in_tx, Keeps-begin_tx, committed, Open, commit_lem, in_tx-query,
  begin_tx_lem,
}
use quota_management.Db.Reservations.{create_reservation_in_tx, increment_pending_usage_in_tx}
use quota_management.Budget.Pricing.{estimate_cost}
use quota_management.Budget.Sort.{sort_budgets_by_hierarchy}
use quota_management.Budget.Check.{CheckResult, Scan, matching, scan_budgets, verdict}
use quota_management.Budget.Reserve.{
  reserve_one, reserve_each, reservation_for, close, granted, finish, reserve_matched,
  check_and_reserve_budget, invalidate_cache,
}
use quota_management.Budget.Reserve.Quiet.{estimate_cost-Keeps}

-- The request passes.
abbrev pub Granted : Result CheckResult → Type 0
Granted (ok r) = r.allowed ≡ true
Granted (err e) = ⊥

-- The committed tables are `t` still, or the request passes and they have the property.
abbrev pub Outcome {κ} : (Tables → Type κ) → Tables → Result CheckResult × World → Type κ
Outcome P t (r, w) = (w.tables ≡ t) ⊎ (Granted r × P w.tables)

module _ {κ} (P : Tables → Type κ) where
  continue-Outcome {ℓ} :
      {A : Type ℓ} (r : Result A) (f : A → M CheckResult) (w : World) (t : Tables)
      → w.tables ≡ t
      → ((a : A) → r ≡ ok a → Outcome P t (f a w))
      → Outcome P t (continue r f w)
  continue-Outcome (ok a) f w t e h = h a refl
  continue-Outcome (err x) f w t e h = inl e

  settle-Outcome :
      (t : Tables) (r : Result CheckResult) (w : World)
      → Outcome P t (r, w)
      → Outcome P t (settle r w)
  settle-Outcome t (ok a) w h = h
  settle-Outcome t (err e) w h = h

pub reserve_one-Keeps :
    (cfg : Config) (now : ℕ) (request : String) (est : ℕ) (b : BudgetDefinition)
    → Keeps committed (reserve_one cfg now request est b)
unfolding create_reservation_in_tx increment_pending_usage_in_tx
reserve_one-Keeps cfg now request est b =
    Keeps-bind committed (create_reservation_in_tx (reservation_for cfg now request est b))
      (λ _. increment_pending_usage_in_tx b.id est) (Keeps-in_tx _) (λ _. Keeps-in_tx _)

reserve_each-Keeps :
    (cfg : Config) (request : String) (est : ℕ) (bs : List BudgetDefinition)
    → Keeps committed (reserve_each cfg request est bs)
unfolding reserve_each
reserve_each-Keeps cfg request est [] w = refl
reserve_each-Keeps cfg request est (b ∷ bs) w =
    reserve_each-Keeps cfg request est bs _ ∙ reserve_one-Keeps cfg w.now request est b w

none_limited : (o : Option ℕ) → is_some o ≡ false → o ≡ none
none_limited none e = refl
none_limited (some i) e = absurd (cc e)

module _ {κ} (P : Tables → Type κ) (cfg : Config) (request : String) where
  granted-Outcome :
      (est : ℕ) (sorted : List BudgetDefinition) (s : Scan) (w : World)
      → s.limited_at ≡ none
      → Open P (reserve_each cfg request est sorted w).1
      → Outcome P w.tables (granted cfg request est sorted s w)
  granted-Outcome est sorted s w free h =
      continue-Outcome P (reserve_each cfg request est sorted w).0 (λ _. close est sorted s) w₁
        w.tables same
        λ _ _. elim (commit_lem P w₁ h) [
          | inl (kept, failed) ↦
              continue-Outcome P (commit w₁).0 after (commit w₁).1 w.tables (kept ∙ same)
                (λ _ e. absurd (cc (failed, e)))
          | inr (good, done) ↦
              subst (λ r. Outcome P w.tables (continue r after (commit w₁).1)) (sym done)
                (inr (rw free refl, good))
        ]
    where
      w₁ : World
      w₁ = (reserve_each cfg request est sorted w).1

      same : w₁.tables ≡ w.tables
      same = reserve_each-Keeps cfg request est sorted w

      after : Unit {0} → M CheckResult
      after _ = do modify invalidate_cache; gets (λ w. verdict w.now est sorted sorted s)

  finish-Outcome :
      (est : ℕ) (sorted : List BudgetDefinition) (s : Scan) (w : World)
      → (s.limited_at ≡ none → Open P (reserve_each cfg request est sorted w).1)
      → Outcome P w.tables (finish cfg request est sorted s w)
  unfolding rollback
  finish-Outcome est sorted s w h =
      if_split (λ (m : M CheckResult). Outcome P w.tables (m w)) (is_some s.limited_at)
        (λ _. inl refl)
        (λ e.
          granted-Outcome est sorted s w (none_limited s.limited_at e)
            (h (none_limited s.limited_at e)))

  -- What the loop of reservations does after a check that lets the request pass.
  abbrev pub Reserves : ℕ → List BudgetDefinition → Tables → Type κ
  Reserves est sorted t =
      (scan_budgets est sorted).limited_at ≡ none
      → (w : World) → w.work ≡ t
      → Open P (reserve_each cfg request est sorted w).1

  reserve_matched-Outcome :
      (model : String) (bs : List BudgetDefinition) (w : World)
      → w.work ≡ w.tables
      → ((est : ℕ) → Reserves est (sort_budgets_by_hierarchy bs) w.work)
      → Outcome P w.tables (reserve_matched cfg model request bs w)
  unfolding reserve_matched
  reserve_matched-Outcome model [] w clean h =
      inl (elim (commit_lem (λ t. t ≡ w.work) w (inr refl)) [
        | inl (same, failed) ↦ same
        | inr (good, done) ↦ good ∙ clean
      ])
  reserve_matched-Outcome model (b ∷ bs) w clean h =
      continue-Outcome P (estimate_cost cfg model w).0 next w₁ w.tables
        (ap (λ s. s.0) (estimate_cost-Keeps cfg model w))
        λ est _.
          subst (λ t. Outcome P t (next est w₁)) (ap (λ s. s.0) (estimate_cost-Keeps cfg model w))
            (finish-Outcome est (sort_budgets_by_hierarchy (b ∷ bs)) _ w₁
              λ free. h est free w₁ (ap (λ s. s.1.0) (estimate_cost-Keeps cfg model w)))
    where
      w₁ : World
      w₁ = (estimate_cost cfg model w).1

      next : ℕ → M CheckResult
      next est =
          let sorted = sort_budgets_by_hierarchy (b ∷ bs) in
          finish cfg request est sorted (scan_budgets est sorted)

  -- The outcome follows from what the loop does to the tables that the transaction begins with.
  pub check_and_reserve-Outcome :
      (evaluate : String → Option Bool) (model : String) (w : World)
      → ((est : ℕ)
          → Reserves est
              (sort_budgets_by_hierarchy (matching evaluate (enabled_budgets w.tables)))
              w.tables)
      → Outcome P w.tables (check_and_reserve_budget cfg evaluate model request w)
  unfolding check_and_reserve_budget with_rollback get_enabled_budgets_for_update
  check_and_reserve-Outcome evaluate model w h =
      continue-Outcome P (begin_tx w).0 (λ _. with_rollback body) w₁ w.tables (Keeps-begin_tx w)
        λ _ begun. settle-Outcome P w.tables (body w₁).0 (body w₁).1 (
          continue-Outcome P found.0 next found.1 w.tables (Keeps-in_tx _ w₁ ∙ Keeps-begin_tx w)
            λ bs e.
              let (rows, same) = in_tx-query enabled_budgets w₁ e in
              let start : w₁.work ≡ w.tables = begin_tx_lem w begun in
              let kept : found.1.tables ≡ w.tables = Keeps-in_tx _ w₁ ∙ Keeps-begin_tx w in
              subst (λ t. Outcome P t (next bs found.1)) kept
                (reserve_matched-Outcome model (matching evaluate bs) found.1
                  (same ∙ start ∙ sym kept) (λ est. rw (rows, same, start) (h est))))
    where
      w₁ : World
      w₁ = (begin_tx w).1

      next : List BudgetDefinition → M CheckResult
      next bs = reserve_matched cfg model request (matching evaluate bs)

      body : M CheckResult
      body = do bs ← get_enabled_budgets_for_update; next bs

      found : Result (List BudgetDefinition) × World
      found = get_enabled_budgets_for_update w₁
