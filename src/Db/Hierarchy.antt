-- ===== src/Db/Hierarchy.antt =====
-- internal/db/repository.go: the recursive query of `GetBudgetsWithParent`.
use quota_management.Prelude.{
  ℕ, zero, suc, ◌≤◌, ◌<◌, ◌≡◌, refl, Option, none, some, List, [], ◌∷◌, arith, find_first, length,
  All, Option-cases, ==_iff, inl, inr, ap, find_first-All, update_where, Bool-cases,
}
use quota_management.Models.Budget.{BudgetDefinition}
use quota_management.Db.World.{Tables, Statement, M, pool}
use quota_management.Db.Budgets.{has_id}

-- A budget and its ancestors, nearest first: `none` where the parents are followed for more than
-- `fuel` rows, as they are on a cycle, where the query does not end.
abbrev onto : BudgetDefinition → Option (List BudgetDefinition) → Option (List BudgetDefinition)
onto b none = none
onto b (some rest) = some (b ∷ rest)

pub ancestors : ℕ → List BudgetDefinition → ℕ → Option (List BudgetDefinition)
ancestors zero bs i = none
ancestors (suc fuel) bs i = elim (find_first (has_id i) bs) [
  | none ↦ some []
  | some b ↦ onto b (elim b.parent_id [ none ↦ some [] | some p ↦ ancestors fuel bs p ])
]

-- A row for the budget and one for each ancestor: as many rows as there are budgets are enough
-- where the parents form no cycle.
unfoldable pub with_parents : ℕ → Tables → Option (List BudgetDefinition)
unfolding ancestors
with_parents i t = ancestors (suc (length t.budgets)) t.budgets i

abbrev pub rows_read {ℓ} : {A : Type ℓ} → Option A → Statement A
rows_read none t = none
rows_read (some a) t = some (a, t)

unfoldable pub get_budgets_with_parent : ℕ → M (List BudgetDefinition)
get_budgets_with_parent i = pool λ t. rows_read (with_parents i t) t

-- A rank that falls from each budget to its parent, and stays within the number of budgets.
abbrev pub Ranked : (ℕ → ℕ) → List BudgetDefinition → BudgetDefinition → Type 0
Ranked rank bs b = (rank b.id ≤ length bs) × ((p : ℕ) → b.parent_id ≡ some p → rank p < rank b.id)

ancestors_total :
    (rank : ℕ → ℕ) (fuel : ℕ) (bs : List BudgetDefinition) (i : ℕ)
    → All (Ranked rank bs) bs
    → rank i < fuel
    → (rows : List BudgetDefinition) × (ancestors fuel bs i ≡ some rows)
unfolding ancestors
ancestors_total rank zero bs i h k = absurd (omega arith)
ancestors_total rank (suc fuel) bs i h k = elim (Option-cases (find_first (has_id i) bs)) [
  | inl miss ↦ ([], rw (miss, ancestors))
  | inr (b, hit) ↦
      let (ranked, same) = find_first-All (Ranked rank bs) (has_id i) bs h hit in
      elim (Option-cases b.parent_id) [
        | inl root ↦ (b ∷ [], rw (hit, root, ancestors))
        | inr (p, child) ↦
            let (rows, e) = ancestors_total rank fuel bs p h (
              omega (
                arith,
                ranked.1 p child,
                (==_iff b.id i).0 same,
                ap rank ((==_iff b.id i).0 same),
              )) in
            (b ∷ rows, rw (hit, child, e, ancestors))
      ]
]

-- On parents that form no cycle the query ends: some rank falls from every budget to its parent.
pub with_parents_total :
    (rank : ℕ → ℕ) (i : ℕ) (t : Tables)
    → All (Ranked rank t.budgets) t.budgets
    → rank i ≤ length t.budgets
    → (rows : List BudgetDefinition) × (with_parents i t ≡ some rows)
unfolding with_parents
with_parents_total rank i t h k =
    ancestors_total rank (suc (length t.budgets)) t.budgets i h (omega arith)

ancestors_cycle :
    (fuel i : ℕ) (b : BudgetDefinition) (bs : List BudgetDefinition)
    → find_first (has_id i) bs ≡ some b
    → b.parent_id ≡ some i
    → ancestors fuel bs i ≡ none
unfolding ancestors
ancestors_cycle zero i b bs hit self = refl
ancestors_cycle (suc fuel) i b bs hit self =
    rw (hit, self, ancestors_cycle fuel i b bs hit self, ancestors)

-- A budget taken out from under its parent.
abbrev rooted : BudgetDefinition → BudgetDefinition
rooted b = record b { parent_id = none }

abbrev pub without_parent : ℕ → Tables → Tables
without_parent i t = record t { budgets = update_where (has_id i) rooted t.budgets }

find_first-rooted :
    (i : ℕ) (b : BudgetDefinition) (bs : List BudgetDefinition)
    → find_first (has_id i) bs ≡ some b
    → find_first (has_id i) (update_where (has_id i) rooted bs) ≡ some (rooted b)
find_first-rooted i b [] e = absurd (cc e)
find_first-rooted i b (c ∷ bs) e = elim (Bool-cases (has_id i c)) [
  | inl hit ↦ rw (hit, hit) (ap (λ x. some (rooted x)) (some_inj (rw hit at e)))
  | inr miss ↦ rw (miss, miss) (find_first-rooted i b bs (rw miss at e))
]
  where
    some_inj : {x y : BudgetDefinition} → some x ≡ some y → x ≡ y
    some_inj e = cc e

-- For a budget that is its own parent the recursive query has not ended after any number of rows;
-- without that parent it ends with the one row.
pub with_parents_cycle :
    (fuel i : ℕ) (b : BudgetDefinition) (t : Tables)
    → find_first (has_id i) t.budgets ≡ some b
    → b.parent_id ≡ some i
    → (ancestors fuel t.budgets i ≡ none)
      × (with_parents i (without_parent i t) ≡ some (record b { parent_id = none } ∷ []))
unfolding with_parents
with_parents_cycle fuel i b t hit self = (
  ancestors_cycle fuel i b t.budgets hit self,
  rw (find_first-rooted i b t.budgets hit, ancestors) refl,
)
