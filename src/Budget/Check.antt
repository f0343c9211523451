-- ===== src/Budget/Check.antt =====
-- internal/budget/service.go: the check of a request against the matching budgets, which
-- `CheckBudget` and `CheckAndReserveBudget` both make.
pub mod Parents
pub mod Blame
pub mod Outcome
use quota_management.Prelude.{
  ℕ, String, ◌+◌, ◌≡◌, Bool, true, false, ◌&&◌, ◌||◌, not, Option, none, some, List, [], ◌∷◌,
  find_first, is_some, ◌==◌, if◌then◌else◌,
}
use quota_management.Prelude.Int.{ℤ, pos, negsuc, ◌-ℤ◌, ltb_ℤ, leb_ℤ}
use quota_management.Models.Budget.{BudgetDefinition, calculate_remaining}
use quota_management.Models.Period.{next_period_start}
use quota_management.Db.Budgets.{has_id}

pub record CheckResult : Type 0 where
  pub allowed : Bool
  pub matched_budgets : List BudgetDefinition
  pub rate_limited_at : Option ℕ
  pub fallback_budget_id : Option ℕ
  pub estimated_cost : ℕ
  pub remaining_budget : ℤ
  pub retry_after : ℤ

abbrev pub keep_match :
    Option Bool → BudgetDefinition → List BudgetDefinition → List BudgetDefinition
keep_match none b bs = bs
keep_match (some holds) b bs = if holds then b ∷ bs else bs

-- The budgets whose CEL expression holds; one that fails to evaluate is skipped. `evaluate` is the
-- evaluator at the request's context: `none` is an error.
unfoldable pub matching : (String → Option Bool) → List BudgetDefinition → List BudgetDefinition
matching evaluate [] = []
matching evaluate (b ∷ bs) = keep_match (evaluate b.match_expression) b (matching evaluate bs)

-- The parent of a budget, where it is one of the sorted budgets.
abbrev pub parent_in : List BudgetDefinition → BudgetDefinition → Option BudgetDefinition
parent_in all b = elim b.parent_id [ none ↦ none | some p ↦ find_first (has_id p) all ]

abbrev pub with_entry :
    ℕ → Option BudgetDefinition → List (ℕ × BudgetDefinition) → List (ℕ × BudgetDefinition)
with_entry i none es = es
with_entry i (some q) es = (i, q) ∷ es

-- The map from a budget's id to its parent. A later entry overwrites an earlier one with its key,
-- so it stands in front.
abbrev pub parent_entries :
    List BudgetDefinition
    → List BudgetDefinition
    → List (ℕ × BudgetDefinition)
    → List (ℕ × BudgetDefinition)
parent_entries all [] es = es
parent_entries all (b ∷ bs) es = parent_entries all bs (with_entry b.id (parent_in all b) es)

abbrev pub lookup_parent : ℕ → List (ℕ × BudgetDefinition) → Option BudgetDefinition
lookup_parent i [] = none
lookup_parent i ((k, q) ∷ es) = if k == i then some q else lookup_parent i es

-- `parent != nil && parent.CalculateRemaining() >= estimatedCost`
abbrev pub has_capacity : ℕ → Option BudgetDefinition → Bool
has_capacity est none = false
has_capacity est (some q) = leb_ℤ (pos est) (calculate_remaining q)

abbrev pub exceeded : ℕ → BudgetDefinition → Bool
exceeded est b = ltb_ℤ (calculate_remaining b) (pos est)

abbrev pub falls_back : List (ℕ × BudgetDefinition) → ℕ → BudgetDefinition → Bool
falls_back parents est b =
    b.allow_fallback && (is_some b.parent_id && has_capacity est (lookup_parent b.id parents))

pub record Scan : Type 0 where
  pub limited_at : Option ℕ
  pub fallback_to : Option ℕ
  pub min_remaining : ℤ

-- `-1`, in quanta.
abbrev pub unset_remaining : ℤ
unset_remaining = negsuc 9_999_999_999_999_999

abbrev pub scan_start : Scan
scan_start = record { limited_at = none; fallback_to = none; min_remaining = unset_remaining }

-- A negative minimum counts as not set.
unfoldable pub track_minimum : ℤ → ℤ → ℤ
track_minimum low remaining = if ltb_ℤ low (pos 0) || ltb_ℤ remaining low then remaining else low

abbrev pub id_of : Option BudgetDefinition → Option ℕ
id_of none = none
id_of (some q) = some q.id

abbrev pub tracked : BudgetDefinition → Scan → Scan
tracked b s = record s { min_remaining = track_minimum s.min_remaining (calculate_remaining b) }

-- The loop over the sorted budgets. It breaks at an isolated budget that limits the request.
unfoldable pub scan : List (ℕ × BudgetDefinition) → ℕ → List BudgetDefinition → Scan → Scan
scan parents est [] s = s
scan parents est (b ∷ bs) s =
    let s' = tracked b s in
    let limited = record s' { limited_at = some b.id } in
    let after_limit = scan parents est bs limited in
    let after_fallback =
      scan parents est bs (record s' { fallback_to = id_of (lookup_parent b.id parents) }) in
    let after_pass = scan parents est bs s' in
    if exceeded est b
    then if falls_back parents est b
      then after_fallback
      else if b.isolated
      then limited
      else after_limit
    else after_pass

unfoldable pub scan_budgets : ℕ → List BudgetDefinition → Scan
unfolding scan
scan_budgets est bs = scan (parent_entries bs bs []) est bs scan_start

-- `time.Until(b.NextPeriodStart())` for the first of `bs` with the id, else 0.
abbrev pub retry_time : ℕ → List BudgetDefinition → ℕ → ℤ
retry_time now bs i = elim (find_first (has_id i) bs) [
  | none ↦ pos 0
  | some b ↦ pos (next_period_start b) -ℤ pos now
]

abbrev pub no_budgets : CheckResult
no_budgets = record {
  allowed = true;
  matched_budgets = [];
  rate_limited_at = none;
  fallback_budget_id = none;
  estimated_cost = 0;
  remaining_budget = pos 0;
  retry_after = pos 0;
}

-- The result of a check: of `lookup` the budget that limits the request is taken.
abbrev pub verdict : ℕ → ℕ → List BudgetDefinition → List BudgetDefinition → Scan → CheckResult
verdict now est lookup sorted s = record {
  allowed = not (is_some s.limited_at);
  matched_budgets = sorted;
  rate_limited_at = s.limited_at;
  fallback_budget_id = if is_some s.limited_at then none else s.fallback_to;
  estimated_cost = est;
  remaining_budget = s.min_remaining;
  retry_after = elim s.limited_at [ none ↦ pos 0 | some i ↦ retry_time now lookup i ];
}
