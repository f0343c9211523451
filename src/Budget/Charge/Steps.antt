-- ===== src/Budget/Charge/Steps.antt =====
-- internal/budget/service.go: the loop of `DecrementBudgets` over the charges.
use quota_management.Prelude.{ℕ, ◌≡◌, refl, Bool, Option, List, [], ◌∷◌, if_lem, if◌then◌else◌}
use quota_management.Models.Budget.{BudgetDefinition}
use quota_management.Db.World.{Result, ok, err, World, M, continue, in_tx, exec, pure}
use quota_management.Db.Keeps.{Keeps, Keeps-in_tx, Keeps-bind, Open, committed}
use quota_management.Db.Usage.{
  create_usage_record_in_tx, increment_usage_in_tx, insert_usage, prune_usage,
}
use quota_management.Budget.Charge.{
  Call, Tally, charge_one, charge_each, usage_record, is_charged, is_spared, charge_amount_of,
  tally_after,
}
use quota_management.Budget.Charge.Conserve.{tally_all}
use quota_management.Budget.Charge.Effect.{Charged, charge_one-Open}

create_usage-Keeps : (u : _) → Keeps committed (create_usage_record_in_tx u)
unfolding create_usage_record_in_tx
create_usage-Keeps u =
    Keeps-bind committed (in_tx (exec (insert_usage u)))
      (λ _. in_tx (exec (prune_usage u.budget_id))) (Keeps-in_tx _) (λ _. Keeps-in_tx _)

charge_one-Keeps :
    (c : Call) (now : ℕ) (spared : Bool) (b : BudgetDefinition) (amount : ℕ)
    → Keeps committed (charge_one c now spared b amount)
unfolding increment_usage_in_tx
charge_one-Keeps c now spared b amount =
    Keeps-bind committed
      (if is_charged spared amount then increment_usage_in_tx b.id amount else pure tt)
      (λ _. create_usage_record_in_tx (usage_record c now spared b amount))
      (if_lem (λ (m : M (Unit {0})). Keeps committed m) (is_charged spared amount) (Keeps-in_tx _)
        (λ w. refl))
      (λ _. create_usage-Keeps _)

module _ (c : Call) (limit : Option ℕ) (sorted : List BudgetDefinition) where
  pub charge_each-Keeps :
      (bs : List BudgetDefinition) (t : Tally) → Keeps committed (charge_each c limit sorted bs t)
  unfolding charge_each
  charge_each-Keeps [] t w = refl
  charge_each-Keeps (b ∷ bs) t w =
      Keeps-bind committed (charge_one c w.now (is_spared limit sorted b) b amount)
        (λ _. charge_each c limit sorted bs (tally_after (is_spared limit sorted b) b t))
        (charge_one-Keeps c w.now (is_spared limit sorted b) b amount)
        (λ _. charge_each-Keeps bs (tally_after (is_spared limit sorted b) b t)) w
    where
      amount : ℕ
      amount = charge_amount_of (is_spared limit sorted b) b t.left

  -- Where the loop succeeds, its tally is that of its budgets, and so is what it has charged.
  unfoldable pub Tallied : List BudgetDefinition → Tally → Result Tally × World → Type 0
  Tallied start t (r, w) = (t' : Tally) → r ≡ ok t' → (t' ≡ t) × Open (Charged start t.charged) w

  continue-Tallied :
      (start : List BudgetDefinition) (t : Tally) (r : Result (Unit {0})) (f : Unit {0} → M Tally)
      (w : World)
      → ((a : Unit {0}) → Tallied start t (f a w))
      → Tallied start t (continue r f w)
  unfolding Tallied
  continue-Tallied start t (ok a) f w h = h a
  continue-Tallied start t (err x) f w h = λ t' e. absurd (cc e)

  pub charge_each-Tallied :
      (start bs : List BudgetDefinition) (t : Tally) (w : World)
      → Open (Charged start t.charged) w
      → Tallied start (tally_all limit sorted bs t) (charge_each c limit sorted bs t w)
  unfolding charge_each Tallied tally_all
  charge_each-Tallied start [] t w h = λ t' e. (cc e, h)
  charge_each-Tallied start (b ∷ bs) t w h =
      continue-Tallied start _ (one w).0
        (λ _. charge_each c limit sorted bs (tally_after spared b t)) (one w).1
        λ _.
          charge_each-Tallied start bs (tally_after spared b t) (one w).1
            (charge_one-Open start t c w.now spared b w h)
    where
      spared : Bool
      spared = is_spared limit sorted b

      one : M (Unit {0})
      one = charge_one c w.now spared b (charge_amount_of spared b t.left)
