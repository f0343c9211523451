-- ===== src/Db/World.antt =====
-- The tables, the one connection that an operation uses, and the errors of internal/db.
-- A statement fails when the database does, which the schedule `faults` decides call by call, or
-- when it breaks a constraint. A statement that fails inside a transaction aborts it: PostgreSQL
-- refuses the statements after it, and its commit rolls back and reports an error.
use quota_management.Prelude.{
  ℕ, String, Bool, true, false, Option, none, some, List, [], ◌∷◌, if◌then◌else◌,
}
use quota_management.Models.Budget.{
  ModelCost, BudgetDefinition, UsageRecord, RequestReservation, BudgetApproval,
}
use quota_management.Models.Alert.{BudgetAlert}
use quota_management.Models.RateLimit.{RateLimitAllocation, RateLimitApproval}

pub data Error : Type 0 where
  not_found optimistic_lock duplicate_entity : Error
  -- any error that the database reports
  db_failure : Error

pub data Result {ℓ} (A : Type ℓ) : Type ℓ where
  ok : A → Result A
  err : Error → Result A

-- Budgets stand in the order of insertion; usage records, approvals and alerts newest first.
pub record Tables : Type 0 where
  pub model_costs : List ModelCost
  pub budgets : List BudgetDefinition
  pub reservations : List RequestReservation
  pub usage_records : List UsageRecord
  pub approvals : List BudgetApproval
  pub alerts : List BudgetAlert
  pub allocations : List RateLimitAllocation
  pub allocation_approvals : List RateLimitApproval

-- A cache of internal/budget: its content and the time at which it runs out.
pub record CostCache : Type 0 where
  pub costs : List (String × ModelCost)
  pub costs_expire_at : ℕ

pub record BudgetCache : Type 0 where
  pub cached : Option (List BudgetDefinition)
  pub budgets_expire_at : ℕ

-- `tables` is what is committed and `work` what an open transaction sees.
pub record World : Type 0 where
  pub tables : Tables
  pub work : Tables
  pub aborted : Bool
  pub faults : List Bool
  pub now : ℕ
  pub cost_cache : CostCache
  pub budget_cache : BudgetCache

abbrev pub M {ℓ} : Type ℓ → Type ℓ
M A = World → Result A × World

module _ {ℓ} {A : Type ℓ} where
  abbrev pub pure : A → M A
  pure a w = (ok a, w)

  abbrev pub throw : Error → M A
  throw e w = (err e, w)

  abbrev pub lift : Result A → M A
  lift r w = (r, w)

  abbrev pub gets : (World → A) → M A
  gets f w = (ok (f w), w)

  -- An error that the code handles or ignores is a value.
  abbrev pub attempt : M A → M (Result A)
  attempt m w = let (r, w') = m w in (ok r, w')

abbrev pub modify : (World → World) → M (Unit {0})
modify f w = (ok tt, f w)

module _ {ℓ κ} {A : Type ℓ} {B : Type κ} where
  infixl 5 ◌>>=◌ ◌>>◌
  abbrev pub continue : Result A → (A → M B) → M B
  continue (ok a) f w = f a w
  continue (err e) f w = (err e, w)

  abbrev pub ◌>>=◌ : M A → (A → M B) → M B
  ◌>>=◌ m f w = let (r, w') = m w in continue r f w'

  abbrev pub ◌>>◌ : M A → M B → M B
  m >> n = m >>= λ _. n

-- A statement gives its result and the tables after it, or breaks a constraint.
abbrev pub Statement {ℓ} : Type ℓ → Type ℓ
Statement A = Tables → Option (A × Tables)

abbrev pub fault_now : List Bool → Bool
fault_now [] = false
fault_now (b ∷ bs) = b

abbrev pub faults_later : List Bool → List Bool
faults_later [] = []
faults_later (b ∷ bs) = bs

module _ {ℓ} {A : Type ℓ} where
  abbrev pub run : Bool → Statement A → Tables → Option (A × Tables)
  run true s t = none
  run false s t = s t

  abbrev pub from_pool : World → Option (A × Tables) → Result A × World
  from_pool w none = (err db_failure, w)
  from_pool w (some (a, t)) = (ok a, record w { tables = t })

  -- `r.db.Pool`: one statement, committed at once.
  unfoldable pub pool : Statement A → M A
  pool s w =
      from_pool (record w { faults = faults_later w.faults }) (run (fault_now w.faults) s w.tables)

  abbrev pub from_tx : World → Option (A × Tables) → Result A × World
  from_tx w none = (err db_failure, record w { aborted = true })
  from_tx w (some (a, t)) = (ok a, record w { work = t })

  -- A statement of the open transaction.
  unfoldable pub in_tx : Statement A → M A
  in_tx s w =
      if w.aborted
      then (err db_failure, w)
      else from_tx (record w { faults = faults_later w.faults }) (run (fault_now w.faults) s w.work)

  abbrev pub query : (Tables → A) → Statement A
  query f t = some (f t, t)

-- `UPDATE`, `INSERT` and `DELETE` that break no constraint.
abbrev pub exec : (Tables → Tables) → Statement (Unit {0})
exec f t = some (tt, f t)

-- `BeginTx`
unfoldable pub begin_tx : M (Unit {0})
begin_tx w =
    let w' = record w { faults = faults_later w.faults } in
    if fault_now w.faults
    then (err db_failure, w')
    else (ok tt, record w' { work = w.tables; aborted = false })

unfoldable pub rollback : M (Unit {0})
rollback w = (ok tt, record w { work = w.tables; aborted = false })

-- The commit of an aborted transaction rolls back and reports an error.
unfoldable pub commit : M (Unit {0})
commit w =
    let w' = record w { faults = faults_later w.faults } in
    if w.aborted
    then (err db_failure, record w { work = w.tables; aborted = false })
    else if fault_now w.faults
    then (err db_failure, record w' { work = w.tables })
    else (ok tt, record w' { tables = w.work })

abbrev pub settle {ℓ} : {A : Type ℓ} → Result A → World → Result A × World
settle (ok a) w = (ok a, w)
settle (err e) w = (err e, record w { work = w.tables; aborted = false })

-- `defer func() { if err != nil { _ = tx.Rollback(ctx) } }()`
unfoldable pub with_rollback {ℓ} : {A : Type ℓ} → M A → M A
with_rollback m w = let (r, w') = m w in settle r w'
