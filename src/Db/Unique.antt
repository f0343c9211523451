-- ===== src/Db/Unique.antt =====
-- The primary key of budget_definitions: no id stands twice, and what keeps it so.
use quota_management.Prelude.{
  ℕ, ◌+◌, ◌≤◌, ◌≡◌, refl, Bool, none, List, [], ◌∷◌, ◌++◌, arith, find_first, count_where, select,
  All, Bool-cases, inl, inr,
}
use quota_management.Models.Budget.{BudgetDefinition}
use quota_management.Db.Budgets.{has_id}
use quota_management.Db.Order.{order_by, insert_row}

-- No id stands twice in the list.
abbrev pub UniqueIds : List BudgetDefinition → Type 0
UniqueIds [] = Unit
UniqueIds (b ∷ bs) = (find_first (has_id b.id) bs ≡ none) × UniqueIds bs

abbrev pub IdsOnce : List BudgetDefinition → Type 0
IdsOnce bs = (i : ℕ) → count_where (has_id i) bs ≤ 1

none_of_count :
    (i : ℕ) (bs : List BudgetDefinition)
    → count_where (has_id i) bs ≤ 0
    → find_first (has_id i) bs ≡ none
none_of_count i [] h = refl
none_of_count i (b ∷ bs) h = ground (arith, none_of_count i bs)

count_of_none :
    (i : ℕ) (bs : List BudgetDefinition)
    → find_first (has_id i) bs ≡ none
    → count_where (has_id i) bs ≤ 0
count_of_none i [] h = omega arith
count_of_none i (b ∷ bs) h = ground (arith, count_of_none i bs)

pub UniqueIds-once : (bs : List BudgetDefinition) → IdsOnce bs → UniqueIds bs
UniqueIds-once [] h = tt
UniqueIds-once (b ∷ bs) h =
    (none_of_count b.id bs (ground (arith, h b.id)), UniqueIds-once bs (λ i. omega (arith, h i)))

pub once_of_UniqueIds : (bs : List BudgetDefinition) → UniqueIds bs → IdsOnce bs
once_of_UniqueIds [] u i = omega arith
once_of_UniqueIds (b ∷ bs) u i =
    ground (arith, count_of_none b.id bs u.0, once_of_UniqueIds bs u.1 i)

pub count-select-le :
    (p q : BudgetDefinition → Bool) (bs : List BudgetDefinition)
    → count_where p (select q bs) ≤ count_where p bs
count-select-le p q [] = omega arith
count-select-le p q (b ∷ bs) = ground (arith, count-select-le p q bs)

pub count-append :
    (p : BudgetDefinition → Bool) (xs ys : List BudgetDefinition)
    → count_where p (xs ++ ys) ≡ count_where p xs + count_where p ys
count-append p [] ys = omega arith
count-append p (x ∷ xs) ys = omega (arith, count-append p xs ys)

module _ (before : BudgetDefinition → BudgetDefinition → Bool) where
  count-insert_row :
      (p : BudgetDefinition → Bool) (b : BudgetDefinition) (bs : List BudgetDefinition)
      → count_where p (insert_row before b bs) ≡ count_where p (b ∷ bs)
  unfolding insert_row
  count-insert_row p b [] = refl
  count-insert_row p b (x ∷ bs) = ground (arith, count-insert_row p b bs)

  pub count-order_by :
      (p : BudgetDefinition → Bool) (bs : List BudgetDefinition)
      → count_where p (order_by before bs) ≡ count_where p bs
  unfolding order_by
  count-order_by p [] = refl
  count-order_by p (b ∷ bs) =
      omega (arith, count-insert_row p b (order_by before bs), count-order_by p bs)

module _ {κ} (P : BudgetDefinition → Type κ) where
  All-insert_row :
      (before : BudgetDefinition → BudgetDefinition → Bool) (b : BudgetDefinition)
      (bs : List BudgetDefinition)
      → P b
      → All P bs
      → All P (insert_row before b bs)
  unfolding insert_row
  All-insert_row before b [] h k = (h, k)
  All-insert_row before b (x ∷ bs) h k = elim (Bool-cases (before x b)) [
    | inl early ↦ rw early (k.0, All-insert_row before b bs h k.1)
    | inr late ↦ rw late (h, k)
  ]

  pub All-order_by :
      (before : BudgetDefinition → BudgetDefinition → Bool) (bs : List BudgetDefinition)
      → All P bs
      → All P (order_by before bs)
  unfolding order_by
  All-order_by before [] h = h
  All-order_by before (b ∷ bs) h =
      All-insert_row before b (order_by before bs) h.0 (All-order_by before bs h.1)
