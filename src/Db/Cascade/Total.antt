-- ===== src/Db/Cascade/Total.antt =====
-- internal/db/repository.go: the fuel of the recursive query of `GetAllDescendants`.
use quota_management.Prelude.{
  ℕ, zero, suc, ◌+◌, ◌≤◌, ◌<◌, ◌≡◌, refl, true, Option, none, some, List, [], ◌∷◌, ◌++◌, arith,
  length, All, inl, inr, ap, Bool-cases, ==_iff, ◌==◌, false, select,
}
use quota_management.Models.Budget.{BudgetDefinition}
use quota_management.Db.World.{Tables}
use quota_management.Db.Budgets.{is_child_of}
use quota_management.Db.Hierarchy.{Ranked}
use quota_management.Db.Cascade.{descendants, levels, children_of, ids_of, behind}

-- The rank of an id is within the bound, and the fuel leads beyond it.
abbrev Within : (ℕ → ℕ) → ℕ → ℕ → ℕ → Type 0
Within rank bound fuel i = (rank i ≤ bound) × (bound < fuel + rank i)

module _ (rank : ℕ → ℕ) (bs : List BudgetDefinition) where
  child_lem : (i : ℕ) (b : BudgetDefinition) → is_child_of i b ≡ true → b.parent_id ≡ some i
  child_lem i b = given b.parent_id
    where
      given : (o : Option ℕ) → elim o [ none ↦ false | some p ↦ p == i ] ≡ true → o ≡ some i
      given none e = absurd (cc e)
      given (some p) e = ap some ((==_iff p i).0 e)

  ids_of-Within :
      (fuel i : ℕ) (cs : List BudgetDefinition)
      → All (Ranked rank bs) cs
      → length bs < suc fuel + rank i
      → All (Within rank (length bs) fuel) (ids_of (select (is_child_of i) cs))
  ids_of-Within fuel i [] h k = tt
  ids_of-Within fuel i (c ∷ cs) h k = elim (Bool-cases (is_child_of i c)) [
    | inl child ↦
        let below : rank i < rank c.id = h.0.1 i (child_lem i c child) in
        rw child ((h.0.0, omega (arith, below)), ids_of-Within fuel i cs h.1 k)
    | inr other ↦ rw other (ids_of-Within fuel i cs h.1 k)
  ]

  append-Within :
      (fuel : ℕ) (is js : List ℕ)
      → All (Within rank (length bs) fuel) is
      → All (Within rank (length bs) fuel) js
      → All (Within rank (length bs) fuel) (is ++ js)
  append-Within fuel [] js h k = k
  append-Within fuel (i ∷ is) js h k = (h.0, append-Within fuel is js h.1 k)

  children_of-Within :
      (fuel : ℕ) (is : List ℕ)
      → All (Ranked rank bs) bs
      → All (Within rank (length bs) (suc fuel)) is
      → All (Within rank (length bs) fuel) (children_of bs is)
  children_of-Within fuel [] h k = tt
  children_of-Within fuel (i ∷ is) h k =
      append-Within fuel (ids_of (select (is_child_of i) bs)) (children_of bs is)
        (ids_of-Within fuel i bs h k.0.1) (children_of-Within fuel is h k.1)

  levels_total :
      (fuel : ℕ) (is : List ℕ)
      → All (Ranked rank bs) bs
      → All (Within rank (length bs) fuel) is
      → (ids : List ℕ) × (levels fuel bs is ≡ some ids)
  unfolding levels
  levels_total zero [] h k = ([], refl)
  levels_total (suc fuel) [] h k = ([], refl)
  levels_total zero (i ∷ is) h k = absurd (omega (arith, k.0.0, k.0.1))
  levels_total (suc fuel) (i ∷ is) h k =
      let (ids, e) =
        levels_total fuel (children_of bs (i ∷ is)) h (children_of-Within fuel (i ∷ is) h k) in
      (ids ++ (i ∷ is), ap (behind (i ∷ is)) e)

-- Where some rank falls from each budget to its parent and stays within the number of budgets, the
-- recursive query for the descendants of one of them ends.
pub descendants_total :
    (rank : ℕ → ℕ) (i : ℕ) (t : Tables)
    → All (Ranked rank t.budgets) t.budgets
    → rank i ≤ length t.budgets
    → (ids : List ℕ) × (descendants i t ≡ some ids)
unfolding descendants
descendants_total rank i t h k =
    levels_total rank t.budgets (suc (length t.budgets)) (children_of t.budgets (i ∷ [])) h
      (children_of-Within rank t.budgets (suc (length t.budgets)) (i ∷ []) h ((k, omega arith), tt))

-- A budget without children has no descendants.
pub descendants_childless :
    (i : ℕ) (t : Tables) → select (is_child_of i) t.budgets ≡ [] → descendants i t ≡ some []
unfolding descendants levels
descendants_childless i t e = rw e refl
