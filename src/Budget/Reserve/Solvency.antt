-- ===== src/Budget/Reserve/Solvency.antt =====
-- No budget is reserved beyond its amount.
use quota_management.Prelude.{
  ℕ, String, ◌+◌, ◌≡◌, refl, sym, ◌∙◌, subst, ap, Bool, true, Option, none, some, List, [], ◌∷◌,
  arith, All, update_where, find_first, find_first-All, Bool-cases, Option-cases, inl, inr, ◌⊎◌,
  ==_iff,
}
use quota_management.Prelude.Int.{ℤ, pos, ◌≤ℤ◌, ◌-ℤ◌, -ℤ_parts}
use quota_management.Config.{Config}
use quota_management.Models.Budget.{BudgetDefinition, calculate_remaining}
use quota_management.Db.World.{World}
use quota_management.Db.Budgets.{has_id, enabled_budgets}
use quota_management.Db.Unique.{UniqueIds}
use quota_management.Budget.Check.{matching}
use quota_management.Budget.Check.Outcome.{HasRoom, scan_budgets_allows}
use quota_management.Budget.Sort.{sort_budgets_by_hierarchy}
use quota_management.Budget.Reserve.{check_and_reserve_budget}
use quota_management.Budget.Reserve.Grant.{Reserves, check_and_reserve-Outcome}
use quota_management.Budget.Reserve.Loop.{reserve_each-Open}
use quota_management.Budget.Reserve.Rows.{sort-matching-All, sort-matching-UniqueIds}

-- The budget may fall back on its parent, or its usage, pending usage included, is within its
-- amount.
abbrev pub Solvent : BudgetDefinition → Type 0
Solvent b = (b.allow_fallback ≡ true) ⊎ (pos 0 ≤ℤ calculate_remaining b)

abbrev CanTake : ℕ → BudgetDefinition → Type 0
CanTake est b = (b.allow_fallback ≡ true) ⊎ (pos est ≤ℤ calculate_remaining b)

-- What is true of a row while the budgets `todo` wait for their reservation.
abbrev Waits : ℕ → List BudgetDefinition → BudgetDefinition → Type 0
Waits est todo b = Solvent b × ((find_first (has_id b.id) todo ≡ none) ⊎ CanTake est b)

abbrev taken : ℕ → BudgetDefinition → BudgetDefinition
taken est b = record b { pending_usage_usd = b.pending_usage_usd + est }

taken-Solvent : (est : ℕ) (b : BudgetDefinition) → CanTake est b → Solvent (taken est b)
taken-Solvent est b (inl may) = inl may
taken-Solvent est b (inr fits) =
    let left : ℤ = b.budget_amount_usd -ℤ pos b.current_usage_usd in
    inr (
      ground (
        arith,
        -ℤ_parts left (pos b.pending_usage_usd),
        -ℤ_parts left (pos (b.pending_usage_usd + est)),
        fits,
      ))

waits_now :
    (i est : ℕ) (c : BudgetDefinition) (todo : List BudgetDefinition) (b : BudgetDefinition)
    → c.id ≡ i
    → (find_first (has_id i) (c ∷ todo) ≡ none) ⊎ CanTake est b
    → CanTake est b
waits_now i est c todo b same (inl gone) = absurd (cc (rw ((==_iff c.id i).1 same) at gone))
waits_now i est c todo b same (inr can) = can

waits_later :
    (i est : ℕ) (c : BudgetDefinition) (todo : List BudgetDefinition) (b : BudgetDefinition)
    → (find_first (has_id i) (c ∷ todo) ≡ none) ⊎ CanTake est b
    → (find_first (has_id i) todo ≡ none) ⊎ CanTake est b
waits_later i est c todo b (inr can) = inr can
waits_later i est c todo b (inl gone) = elim (Bool-cases (has_id i c)) [
  | inl hit ↦ absurd (cc (rw hit at gone))
  | inr miss ↦ inl (rw miss at gone)
]

Waits-add :
    (est : ℕ) (c : BudgetDefinition) (todo bs : List BudgetDefinition)
    → find_first (has_id c.id) todo ≡ none
    → All (Waits est (c ∷ todo)) bs
    → All (Waits est todo) (update_where (has_id c.id) (taken est) bs)
Waits-add est c todo [] fresh h = tt
Waits-add est c todo (b ∷ bs) fresh ((solvent, waits), rest) = (
  elim (Bool-cases (has_id c.id b)) [
    | inl hit ↦
        let same : b.id ≡ c.id = (==_iff b.id c.id).0 hit in
        rw hit
          (taken-Solvent est b (waits_now b.id est c todo b (sym same) waits), inl (rw same fresh))
    | inr miss ↦ rw miss (solvent, waits_later b.id est c todo b waits)
  ],
  Waits-add est c todo bs fresh rest,
)

-- A row of the table, found under its id.
abbrev IsRow : List BudgetDefinition → BudgetDefinition → Type 0
IsRow all b = find_first (has_id b.id) all ≡ some b

IsRow-cons :
    (b : BudgetDefinition) (all bs : List BudgetDefinition)
    → find_first (has_id b.id) all ≡ none
    → All (IsRow all) bs
    → All (IsRow (b ∷ all)) bs
IsRow-cons b all [] fresh h = tt
IsRow-cons b all (c ∷ bs) fresh (row, rest) = (
  elim (Bool-cases (has_id c.id b)) [
    | inl hit ↦ absurd (cc (rw ((==_iff b.id c.id).0 hit) at fresh, row))
    | inr miss ↦ rw miss row
  ],
  IsRow-cons b all bs fresh rest,
)

rows_of : (bs : List BudgetDefinition) → UniqueIds bs → All (IsRow bs) bs
rows_of [] u = tt
rows_of (b ∷ bs) (fresh, u) =
    (rw ((==_iff b.id b.id).1 refl) refl, IsRow-cons b bs bs fresh (rows_of bs u))

same_row :
    (all : List BudgetDefinition) (d b : BudgetDefinition)
    → IsRow all d
    → IsRow all b
    → d.id ≡ b.id
    → d ≡ b
same_row all d b row_d row e = cc (sym row_d ∙ ap (λ i. find_first (has_id i) all) e ∙ row)

-- Before the loop: each row that is to be reserved has room for it.
Waits-start :
    (est : ℕ) (all todo bs : List BudgetDefinition)
    → All (IsRow all) todo
    → All (λ c. CanTake est c) todo
    → All (IsRow all) bs
    → All Solvent bs
    → All (Waits est todo) bs
Waits-start est all todo [] r c rows h = tt
Waits-start est all todo (b ∷ bs) r c (row, rows) (solvent, rest) = (
  (
    solvent,
    elim (Option-cases (find_first (has_id b.id) todo)) [
      | inl gone ↦ inl gone
      | inr (d, hit) ↦
          let (row_d, same) = find_first-All (IsRow all) (has_id b.id) todo r hit in
          let (can, _) = find_first-All (CanTake est) (has_id b.id) todo c hit in
          let alike : d ≡ b = same_row all d b row_d row ((==_iff d.id b.id).0 same) in
          inr (subst (CanTake est) alike can)
    ],
  ),
  Waits-start est all todo bs r c rows rest,
)

rooms-CanTake :
    (est : ℕ) (all bs : List BudgetDefinition) → All (HasRoom est all) bs → All (CanTake est) bs
rooms-CanTake est all [] h = tt
rooms-CanTake est all (b ∷ bs) (inl fits, rest) = (inr fits, rooms-CanTake est all bs rest)
rooms-CanTake est all (b ∷ bs) (inr (may, _, _, _), rest) = (inl may, rooms-CanTake est all bs rest)

Waits-end : (est : ℕ) (bs : List BudgetDefinition) → All (Waits est []) bs → All Solvent bs
Waits-end est [] h = tt
Waits-end est (b ∷ bs) ((solvent, _), rest) = (solvent, Waits-end est bs rest)

-- A check that reserves never takes a budget beyond its amount, unless the budget may fall back on
-- its parent: where usage and pending usage are within the amount before, they are after it,
-- whatever statement of it fails.
pub check_and_reserve-Solvent :
    (cfg : Config) (evaluate : String → Option Bool) (model request : String) (w : World)
    → UniqueIds w.tables.budgets
    → All Solvent w.tables.budgets
    → All Solvent (check_and_reserve_budget cfg evaluate model request w).1.tables.budgets
check_and_reserve-Solvent cfg evaluate model request w u h =
    elim (check_and_reserve-Outcome (λ t. All Solvent t.budgets) cfg request evaluate model w
      looped) [ inl same ↦ rw same h | inr (passes, solvent) ↦ solvent ]
  where
    sorted : List BudgetDefinition
    sorted = sort_budgets_by_hierarchy (matching evaluate (enabled_budgets w.tables))

    once : UniqueIds sorted
    once = sort-matching-UniqueIds evaluate w.tables u

    rows : All (IsRow w.tables.budgets) w.tables.budgets
    rows = rows_of w.tables.budgets u

    looped : (est : ℕ) → Reserves (λ t. All Solvent t.budgets) cfg request est sorted w.tables
    looped est free w' e =
        elim (reserve_each-Open cfg request est
          (λ todo t. UniqueIds todo × All (Waits est todo) t.budgets)
          (λ b todo t. UniqueIds (b ∷ todo) × All (Waits est (b ∷ todo)) t.budgets)
          (λ now b todo t p. p)
          (λ b todo t (unique, waits). (unique.1, Waits-add est b todo t.budgets unique.0 waits))
          sorted w'
          (inr (
            once,
            rw e (
                Waits-start est w.tables.budgets sorted w.tables.budgets
                  (sort-matching-All (IsRow w.tables.budgets) evaluate w.tables rows)
                  (rooms-CanTake est sorted sorted ((scan_budgets_allows est sorted once).0 free))
                  rows h),
          ))) [ inl broken ↦ inl broken | inr (_, waits) ↦ inr (Waits-end est _ waits) ]
