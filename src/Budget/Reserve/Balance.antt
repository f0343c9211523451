-- ===== src/Budget/Reserve/Balance.antt =====
-- Pending usage and reservations: what a check that reserves does to their balance.
use quota_management.Prelude.{
  ℕ, String, ◌+◌, ◌≡◌, Bool, Option, List, [], ◌∷◌, ◌++◌, arith, All, update_where, Bool-cases, inl,
  inr, ◌==◌, if◌then◌else◌,
}
use quota_management.Config.{Config}
use quota_management.Models.Budget.{BudgetDefinition, RequestReservation}
use quota_management.Db.World.{World, Tables}
use quota_management.Db.Budgets.{has_id, enabled_budgets}
use quota_management.Db.Reservations.{cost_of}
use quota_management.Budget.Check.{matching}
use quota_management.Budget.Sort.{sort_budgets_by_hierarchy}
use quota_management.Budget.Reserve.{check_and_reserve_budget, reservation_for}
use quota_management.Budget.Reserve.Grant.{check_and_reserve-Outcome}
use quota_management.Budget.Reserve.Loop.{reserve_each-Open}

-- The pending usage of a budget is the sum of its reservations.
abbrev pub PendingIs : List RequestReservation → BudgetDefinition → Type 0
PendingIs vs b = b.pending_usage_usd ≡ cost_of vs b.id

abbrev pub Balanced : Tables → Type 0
Balanced t = All (PendingIs t.reservations) t.budgets

pub cost_of-append :
    (vs : List RequestReservation) (v : RequestReservation) (i : ℕ)
    → cost_of (vs ++ (v ∷ [])) i
      ≡ cost_of vs i + (if v.budget_id == i then v.estimated_cost_usd else 0)
cost_of-append [] v i = ground arith
cost_of-append (x ∷ vs) v i = ground (arith, cost_of-append vs v i)

-- Budget `i` owes `est` more than its pending usage says.
abbrev Owes : ℕ → ℕ → List RequestReservation → BudgetDefinition → Type 0
Owes i est vs b = b.pending_usage_usd + (if b.id == i then est else 0) ≡ cost_of vs b.id

Owes-insert :
    (v : RequestReservation) (vs : List RequestReservation) (bs : List BudgetDefinition)
    → All (PendingIs vs) bs
    → All (Owes v.budget_id v.estimated_cost_usd (vs ++ (v ∷ []))) bs
Owes-insert v vs [] h = tt
Owes-insert v vs (b ∷ bs) h =
    (ground (arith, cost_of-append vs v b.id, h.0), Owes-insert v vs bs h.1)

PendingIs-add :
    (i est : ℕ) (vs : List RequestReservation) (bs : List BudgetDefinition)
    → All (Owes i est vs) bs
    → All (PendingIs vs) (
        update_where
          (has_id i)
          (λ b. record b { pending_usage_usd = b.pending_usage_usd + est })
          bs)
PendingIs-add i est vs [] h = tt
PendingIs-add i est vs (b ∷ bs) h = (
  elim (Bool-cases (has_id i b)) [
    | inl hit ↦ rw hit (rw hit at h.0)
    | inr miss ↦ rw miss (ground (arith, h.0, miss))
  ],
  PendingIs-add i est vs bs h.1,
)

-- From tables where every budget's pending usage is the sum of its reservations, a check that
-- reserves leaves such tables, whatever statement of it fails.
pub check_and_reserve-Balanced :
    (cfg : Config) (evaluate : String → Option Bool) (model request : String) (w : World)
    → Balanced w.tables
    → Balanced (check_and_reserve_budget cfg evaluate model request w).1.tables
check_and_reserve-Balanced cfg evaluate model request w h =
    elim (check_and_reserve-Outcome Balanced cfg request evaluate model w λ est free w' e.
      reserve_each-Open cfg request est (λ _. Balanced)
        (λ b _ t. All (Owes b.id est t.reservations) t.budgets)
        (λ now b bs t. Owes-insert (reservation_for cfg now request est b) t.reservations t.budgets)
        (λ b bs t. PendingIs-add b.id est t.reservations t.budgets)
        (sort_budgets_by_hierarchy (matching evaluate (enabled_budgets w.tables))) w'
        (inr (rw e h))) [ inl same ↦ rw same h | inr (passes, balanced) ↦ balanced ]
