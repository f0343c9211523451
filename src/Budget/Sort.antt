-- ===== src/Budget/Sort.antt =====
-- internal/budget/service.go: `sortBudgetsByHierarchy`, three passes over the budgets.
use mathlib.Core.List.{Perm, perm_middle, append-nil}
use mathlib.Core.List.Perm
use quota_management.Prelude.{
  ℕ, ◌≤◌, ◌≡◌, refl, Bool, true, false, List, [], ◌∷◌, ◌++◌, arith, select, Bool-cases, inl, inr,
  select-append, select_idem, select_disjoint,
}
use quota_management.Models.Budget.{BudgetDefinition, EntityType, org, team, user}
use quota_management.Db.Budgets.{same_entity}

abbrev pub of_type : EntityType → BudgetDefinition → Bool
of_type e b = same_entity b.entity_type e

unfoldable pub sort_budgets_by_hierarchy : List BudgetDefinition → List BudgetDefinition
sort_budgets_by_hierarchy bs =
    select (of_type user) bs ++ (select (of_type team) bs ++ select (of_type org) bs)

-- How far from the most specific: children before parents.
abbrev pub level : EntityType → ℕ
level user = 0
level team = 1
level org = 2

-- No budget stands before one of a more specific type.
abbrev pub IsSortedFrom : ℕ → List BudgetDefinition → Type 0
IsSortedFrom n [] = Unit
IsSortedFrom n (b ∷ bs) = (n ≤ level b.entity_type) × IsSortedFrom (level b.entity_type) bs

module _ (b : BudgetDefinition) (bs : List BudgetDefinition) where
  sort-cons-perm : Perm (sort_budgets_by_hierarchy (b ∷ bs)) (b ∷ sort_budgets_by_hierarchy bs)
  unfolding sort_budgets_by_hierarchy
  sort-cons-perm = by_type b.entity_type refl
    where
      by_type :
          (e : EntityType)
          → b.entity_type ≡ e
          → Perm (sort_budgets_by_hierarchy (b ∷ bs)) (b ∷ sort_budgets_by_hierarchy bs)
      by_type user e = rw e (Perm.refl _)
      by_type team e = rw e (perm_middle (select (of_type user) bs) _)
      by_type org e = rw e (
          Perm.trans
            (Perm.append (Perm.refl (select (of_type user) bs))
              (perm_middle (select (of_type team) bs) _))
            (perm_middle (select (of_type user) bs) _))

sort-perm_lem : (bs : List BudgetDefinition) → Perm (sort_budgets_by_hierarchy bs) bs
unfolding sort_budgets_by_hierarchy
sort-perm_lem [] = Perm.nil
sort-perm_lem (b ∷ bs) = Perm.trans (sort-cons-perm b bs) (Perm.cons b (sort-perm_lem bs))

level-same : (a e : EntityType) → same_entity a e ≡ true → level a ≡ level e
level-same org e h = ground arith
level-same team e h = ground arith
level-same user e h = ground arith

IsSortedFrom-mono :
    (n m : ℕ) (bs : List BudgetDefinition) → n ≤ m → IsSortedFrom m bs → IsSortedFrom n bs
IsSortedFrom-mono n m [] h s = s
IsSortedFrom-mono n m (b ∷ bs) h s = (omega arith, s.1)

-- One pass, before budgets that are no more specific.
select-IsSortedFrom :
    (n : ℕ) (e : EntityType) (xs ys : List BudgetDefinition)
    → n ≤ level e
    → IsSortedFrom (level e) ys
    → IsSortedFrom n (select (of_type e) xs ++ ys)
select-IsSortedFrom n e [] ys h s = IsSortedFrom-mono n (level e) ys h s
select-IsSortedFrom n e (x ∷ xs) ys h s = elim (Bool-cases (of_type e x)) [
  | inl hit ↦
      let same : level x.entity_type ≡ level e = level-same x.entity_type e hit in
      rw hit (omega arith, select-IsSortedFrom (level x.entity_type) e xs ys (omega arith) s)
  | inr miss ↦ rw miss (select-IsSortedFrom n e xs ys h s)
]

select-sorted_last :
    (e : EntityType) (xs : List BudgetDefinition) → IsSortedFrom (level e) (select (of_type e) xs)
select-sorted_last e [] = tt
select-sorted_last e (x ∷ xs) = elim (Bool-cases (of_type e x)) [
  | inl hit ↦
      let same : level x.entity_type ≡ level e = level-same x.entity_type e hit in
      rw hit (omega arith, rw same (select-sorted_last e xs))
  | inr miss ↦ rw miss (select-sorted_last e xs)
]

sort-IsSortedFrom : (bs : List BudgetDefinition) → IsSortedFrom 0 (sort_budgets_by_hierarchy bs)
unfolding sort_budgets_by_hierarchy
sort-IsSortedFrom bs = select-IsSortedFrom 0 user bs _ (omega arith) (
    select-IsSortedFrom 0 team bs _ (omega arith)
      (IsSortedFrom-mono 1 2 _ (omega arith) (select-sorted_last org bs)))

differs :
    (a d e : EntityType)
    → same_entity d e ≡ false
    → same_entity a e ≡ true
    → same_entity a d ≡ false
differs a d e = ground arith

others :
    (d e : EntityType) (bs : List BudgetDefinition)
    → same_entity d e ≡ false
    → select (of_type d) (select (of_type e) bs) ≡ []
others d e bs h =
    select_disjoint (of_type d) (of_type e) bs (λ b hit. differs b.entity_type d e h hit)

sort_stable_lem :
    (e : EntityType) (bs : List BudgetDefinition)
    → select (of_type e) (sort_budgets_by_hierarchy bs) ≡ select (of_type e) bs
unfolding sort_budgets_by_hierarchy
sort_stable_lem user bs =
    simp (select-append, select_idem, others user team bs refl, others user org bs refl, append-nil)
sort_stable_lem team bs =
    simp (select-append, select_idem, others team user bs refl, others team org bs refl, append-nil)
sort_stable_lem org bs =
    simp (select-append, select_idem, others org user bs refl, others org team bs refl, append-nil)

-- The sort keeps every budget once, puts users before teams before organisations, and leaves the
-- budgets of one type in their order.
pub sort_budgets_lem :
    (bs : List BudgetDefinition)
    → Perm (sort_budgets_by_hierarchy bs) bs
      × IsSortedFrom 0 (sort_budgets_by_hierarchy bs)
      × ((e : EntityType)
          → select (of_type e) (sort_budgets_by_hierarchy bs) ≡ select (of_type e) bs)
sort_budgets_lem bs = (sort-perm_lem bs, sort-IsSortedFrom bs, λ e. sort_stable_lem e bs)
