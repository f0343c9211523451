-- ===== src/Budget/Charge.antt =====
-- internal/budget/service.go: `DecrementBudgets`, which turns a reservation into charges.
pub mod Conserve
pub mod Effect
pub mod Steps
pub mod Settle
pub mod Total
pub mod Pending
pub mod Release
pub mod Unreserved
use quota_management.Prelude.{
  ℕ, zero, suc, String, ◌+◌, ◌-◌, ◌≡◌, Bool, true, false, ◌&&◌, not, Option, none, some, List, [],
  ◌∷◌, ◌++◌, find_first, is_some, ltb, ◌==◌, if◌then◌else◌,
}
use quota_management.Prelude.Int.{ℤ, pos, negsuc, ◌-ℤ◌}
use quota_management.Config.{Config}
use quota_management.Models.Budget.{BudgetDefinition, EntityType, RequestReservation, UsageRecord}
use quota_management.Db.World.{
  Error, not_found, Result, ok, err, World, M, ◌>>=◌, ◌>>◌, pure, throw, gets, modify, attempt,
  begin_tx, commit, with_rollback,
}
use quota_management.Db.Budgets.{has_id, is_child_of}
use quota_management.Db.Hierarchy.{get_budgets_with_parent}
use quota_management.Db.Reservations.{
  get_reservation_by_request_id, delete_reservation_in_tx, decrement_pending_usage_in_tx,
}
use quota_management.Db.Usage.{create_usage_record_in_tx, increment_usage_in_tx}
use quota_management.Budget.Pricing.{calculate_cost, is_not_found}
use quota_management.Budget.Sort.{sort_budgets_by_hierarchy}
use quota_management.Budget.Check.{track_minimum, unset_remaining}
use quota_management.Budget.Reserve.{invalidate_cache}

pub record BudgetCharge : Type 0 where
  pub budget_id : ℕ
  pub budget_name : String
  pub entity_type : EntityType
  pub charge_amount : ℕ

pub record DecrementResult : Type 0 where
  pub actual_cost : ℕ
  pub remaining_budget : ℤ
  pub budgets_charged : List ℕ
  pub charges : List BudgetCharge

-- What is left to charge, what has been charged, and the least amount that remains.
pub record Tally : Type 0 where
  pub left : ℕ
  pub charged : List BudgetCharge
  pub least : ℤ

-- An ancestor of the isolated budget that limited the request is not charged: another budget that
-- is the parent of one of the sorted budgets.
abbrev pub is_spared : Option ℕ → List BudgetDefinition → BudgetDefinition → Bool
is_spared none sorted b = false
is_spared (some l) sorted b =
    not (b.id == l)
    && (is_some (find_first (λ c. has_id l c && c.isolated) sorted)
        && is_some (find_first (is_child_of b.id) sorted))

-- As much as fits into the amount. Pending usage does not count here.
abbrev pub fill_up_to : ℤ → ℕ → ℕ
fill_up_to (pos zero) cost = 0
fill_up_to (pos (suc n)) cost = if ltb (suc n) cost then suc n else cost
fill_up_to (negsuc n) cost = 0

abbrev pub fills_up : BudgetDefinition → Bool
fills_up b = not b.isolated && is_some b.parent_id

-- `chargeAmount`: of a budget that is spared it is what is left.
abbrev pub charge_amount_of : Bool → BudgetDefinition → ℕ → ℕ
charge_amount_of spared b left =
    if not spared && fills_up b
    then fill_up_to (b.budget_amount_usd -ℤ pos b.current_usage_usd) left
    else left

abbrev pub is_charged : Bool → ℕ → Bool
is_charged spared amount = not spared && ltb 0 amount

abbrev pub charge_for : BudgetDefinition → ℕ → BudgetCharge
charge_for b amount = record {
  budget_id = b.id;
  budget_name = b.name;
  entity_type = b.entity_type;
  charge_amount = amount;
}

-- The tally after a budget.
unfoldable pub tally_after : Bool → BudgetDefinition → Tally → Tally
tally_after spared b t =
    let amount = charge_amount_of spared b t.left in
    record {
      left = if is_charged spared amount && not b.isolated then t.left - amount else t.left;
      charged =
          if is_charged spared amount then t.charged ++ (charge_for b amount ∷ []) else t.charged;
      least =
          track_minimum t.least (
            b.budget_amount_usd
            -ℤ pos b.current_usage_usd
            -ℤ pos amount
            -ℤ pos b.pending_usage_usd);
    }

pub record Call : Type 0 where
  pub request_id : String
  pub model_id : String
  pub input_tokens : ℕ
  pub output_tokens : ℕ

-- Every budget gets a usage record, with the amount even where it is not charged.
abbrev pub usage_record : Call → ℕ → Bool → BudgetDefinition → ℕ → UsageRecord
usage_record c now spared b amount = record {
  budget_id = b.id;
  request_id = c.request_id;
  model_id = c.model_id;
  input_tokens = c.input_tokens;
  output_tokens = c.output_tokens;
  cost_usd = amount;
  parent_charged = not spared;
  created_at = now;
}

abbrev pub charge_one : Call → ℕ → Bool → BudgetDefinition → ℕ → M (Unit {0})
charge_one c now spared b amount = do
  if is_charged spared amount then increment_usage_in_tx b.id amount else pure tt
  create_usage_record_in_tx (usage_record c now spared b amount)

unfoldable pub charge_each :
    Call → Option ℕ → List BudgetDefinition → List BudgetDefinition → Tally → M Tally
charge_each c limit sorted [] t w = pure t w
charge_each c limit sorted (b ∷ bs) t w =
    (do
      charge_one c w.now (is_spared limit sorted b) b
          (charge_amount_of (is_spared limit sorted b) b t.left)
      charge_each c limit sorted bs (tally_after (is_spared limit sorted b) b t))
      w

abbrev map_ids : List BudgetCharge → List ℕ
map_ids [] = []
map_ids (c ∷ cs) = c.budget_id ∷ map_ids cs

abbrev pub result_of : ℕ → Tally → DecrementResult
result_of cost t = record {
  actual_cost = cost;
  remaining_budget = t.least;
  budgets_charged = map_ids t.charged;
  charges = t.charged;
}

abbrev pub tally_start : ℕ → Tally
tally_start cost = record { left = cost; charged = []; least = unset_remaining }

-- The reservations of the request go, and the pending usage of the budget of `res`; that either
-- fails is logged alone.
abbrev pub release : Call → RequestReservation → M (Unit {0})
release c res = do
  attempt (delete_reservation_in_tx c.request_id)
  attempt (decrement_pending_usage_in_tx res.budget_id res.estimated_cost_usd)
  commit

unfoldable pub settle_charges :
    Call → Option ℕ → RequestReservation → ℕ → List BudgetDefinition → M DecrementResult
settle_charges c limit res cost sorted = do
  t ← charge_each c limit sorted sorted (tally_start cost)
  release c res
  modify invalidate_cache
  pure (result_of cost t)

abbrev pub charge_reserved : Call → Option ℕ → ℕ → Result RequestReservation → M DecrementResult
charge_reserved c limit cost (err e) =
    if is_not_found e
    then pure (record {
      actual_cost = cost;
      remaining_budget = pos 0;
      budgets_charged = [];
      charges = [];
    })
    else throw e
charge_reserved c limit cost (ok res) = do
  bs ← get_budgets_with_parent res.budget_id
  begin_tx
  with_rollback (settle_charges c limit res cost (sort_budgets_by_hierarchy bs))

-- A request without a reservation charges nothing.
unfoldable pub decrement_budgets : Config → Call → Option ℕ → M DecrementResult
decrement_budgets cfg c limit = do
  cost ← calculate_cost cfg c.model_id c.input_tokens c.output_tokens
  res ← attempt (get_reservation_by_request_id c.request_id)
  charge_reserved c limit cost res
