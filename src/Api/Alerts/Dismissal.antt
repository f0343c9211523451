-- ===== src/Api/Alerts/Dismissal.antt =====
-- internal/api/alert_handlers.go: the number of alerts, and their dismissal.
use quota_management.Prelude.{
  ℕ, ◌≡◌, ◌⊎◌, refl, sym, ap, ◌∙◌, Bool, true, false, ◌&&◌, Option, some, List, [], ◌∷◌,
  count_where, update_where, Bool-cases, inl, inr, arith,
}
use quota_management.Models.Alert.{BudgetAlert, is_active}
use quota_management.Models.Budget.{BudgetDefinition}
use quota_management.Db.World.{World, ok, fault_now, faults_later}
use quota_management.Db.Keeps.{pool_reads}
use quota_management.Db.Ways.{pool_runs}
use quota_management.Db.Alerts.{
  update_alerts, dismiss, visible, count_active_alerts, dismiss_all_alerts,
}
use quota_management.Auth.Identity.{Identity}
use quota_management.Api.Alerts.{
  caller_org_admin, caller_org, caller_team, caller_user, count_alerts, dismiss_all_alerts_request,
}

-- The active alerts that a caller sees.
abbrev pub seen : Option Identity → List BudgetDefinition → BudgetAlert → Bool
seen who bs a =
    is_active a.status && visible (caller_org_admin who) (caller_org who) (caller_team who) bs a

-- Row by row, what fails the test is as before.
abbrev pub Untouched : (BudgetAlert → Bool) → List BudgetAlert → List BudgetAlert → Type 0
Untouched p [] [] = Unit
Untouched p [] (y ∷ ys) = ⊥
Untouched p (x ∷ xs) [] = ⊥
Untouched p (x ∷ xs) (y ∷ ys) = ((p x ≡ true) ⊎ (y ≡ x)) × Untouched p xs ys

-- Where the change makes a row fail the test, no row passes it after the update.
module _ (p : BudgetAlert → Bool) (f : BudgetAlert → BudgetAlert) where
  count-update_where :
      (xs : List BudgetAlert)
      → ((a : BudgetAlert) → p (f a) ≡ false)
      → count_where p (update_where p f xs) ≡ 0
  count-update_where [] fails = refl
  count-update_where (x ∷ xs) fails = elim (Bool-cases (p x)) [
    | inl hit ↦ ground (arith, hit, fails x, count-update_where xs fails)
    | inr miss ↦ ground (arith, miss, count-update_where xs fails)
  ]

  update_where-Untouched : (xs : List BudgetAlert) → Untouched p xs (update_where p f xs)
  update_where-Untouched [] = tt
  update_where-Untouched (x ∷ xs) = elim (Bool-cases (p x)) [
    | inl hit ↦ (inl hit, update_where-Untouched xs)
    | inr miss ↦ (inr (rw miss refl), update_where-Untouched xs)
  ]

module _ (who : Option Identity) (w : World) where
  abbrev after : List BudgetAlert
  after = update_where (seen who w.tables.budgets) (dismiss w.now (caller_user who)) w.tables.alerts

  abbrev number : ℕ
  number = count_where (seen who w.tables.budgets) w.tables.alerts

  dismissed_world :
      fault_now w.faults ≡ false
      → dismiss_all_alerts_request who w ≡ (
        ok (200, some number),
        record w { faults = faults_later w.faults; tables = record w.tables { alerts = after } },
      )
  unfolding dismiss_all_alerts_request dismiss_all_alerts
  dismissed_world calm =
      rw
        (pool_runs (λ t. update_alerts (seen who t.budgets) (dismiss w.now (caller_user who)) t) w
          number (record w.tables { alerts = after }) calm refl)
        refl

counted_lem :
    (who : Option Identity) (w : World)
    → fault_now w.faults ≡ false
    → (count_alerts who w).0
      ≡ ok (200, some (count_where (seen who w.tables.budgets) w.tables.alerts))
unfolding count_alerts count_active_alerts
counted_lem who w calm =
    rw (pool_reads (λ t. count_where (seen who t.budgets) t.alerts) w calm) refl

-- Where no statement fails, the dismissal of all alerts gives the number that the count gave before
-- it; the count after it is 0; and every alert that is not active or that the caller does not see is
-- as before.
pub dismiss_all_clears :
    (who : Option Identity) (w : World)
    → w.faults ≡ []
    → ((dismiss_all_alerts_request who w).0 ≡ (count_alerts who w).0)
      × ((count_alerts who (dismiss_all_alerts_request who w).1).0 ≡ ok (200, some 0))
      × Untouched
          (seen who w.tables.budgets)
          w.tables.alerts
          (dismiss_all_alerts_request who w).1.tables.alerts
dismiss_all_clears who w calm =
    let now : fault_now w.faults ≡ false = rw calm refl in
    let later : fault_now (faults_later w.faults) ≡ false = rw calm refl in
    let p : BudgetAlert → Bool = seen who w.tables.budgets in
    let f : BudgetAlert → BudgetAlert = dismiss w.now (caller_user who) in
    let cleared : World = record w {
      faults = faults_later w.faults;
      tables = record w.tables { alerts = after who w };
    } in
    rw (dismissed_world who w now) (
      sym (counted_lem who w now),
      counted_lem who cleared later
          ∙ ap (λ n. ok (200, some n)) (count-update_where p f w.tables.alerts (λ a. refl)),
      update_where-Untouched p f w.tables.alerts,
    )
