-- ===== src/Budget/Reserve/Rows.antt =====
-- The budgets that a request reserves: rows of the table, each once.
use quota_management.Prelude.{
  String, ◌+◌, ◌≤◌, ◌≡◌, refl, Bool, true, false, Option, none, some, List, [], ◌∷◌, ◌++◌, arith,
  All, count_where, select, select-All,
}
use quota_management.Models.Budget.{BudgetDefinition, EntityType, org, team, user}
use quota_management.Db.World.{Tables}
use quota_management.Db.Budgets.{has_id, is_enforced, enabled_budgets}
use quota_management.Db.Order.{by_entity_and_name}
use quota_management.Db.Unique.{
  UniqueIds, UniqueIds-once, once_of_UniqueIds, count-select-le, count-append, count-order_by,
  All-order_by,
}
use quota_management.Budget.Check.{matching, keep_match}
use quota_management.Budget.Sort.{sort_budgets_by_hierarchy, of_type}

module _ {κ} (P : BudgetDefinition → Type κ) where
  keep_match-All :
      (o : Option Bool) (b : BudgetDefinition) (bs : List BudgetDefinition)
      → P b
      → All P bs
      → All P (keep_match o b bs)
  keep_match-All none b bs h k = k
  keep_match-All (some true) b bs h k = (h, k)
  keep_match-All (some false) b bs h k = k

  matching-All :
      (evaluate : String → Option Bool) (bs : List BudgetDefinition)
      → All P bs
      → All P (matching evaluate bs)
  unfolding matching
  matching-All evaluate [] h = tt
  matching-All evaluate (b ∷ bs) (h, k) =
      keep_match-All (evaluate b.match_expression) b (matching evaluate bs) h
        (matching-All evaluate bs k)

  pub append-All : (xs ys : List BudgetDefinition) → All P xs → All P ys → All P (xs ++ ys)
  append-All [] ys h k = k
  append-All (x ∷ xs) ys (h, t) k = (h, append-All xs ys t k)

  -- What every row of the table has, each budget that a request reserves has.
  pub sort-matching-All :
      (evaluate : String → Option Bool) (t : Tables)
      → All P t.budgets
      → All P (sort_budgets_by_hierarchy (matching evaluate (enabled_budgets t)))
  unfolding sort_budgets_by_hierarchy enabled_budgets
  sort-matching-All evaluate t h =
      append-All (select (of_type user) ms) _ (select-All P (of_type user) ms all) (
        append-All (select (of_type team) ms) _ (select-All P (of_type team) ms all)
          (select-All P (of_type org) ms all))
    where
      ms : List BudgetDefinition
      ms = matching evaluate (enabled_budgets t)

      all : All P ms
      all = matching-All evaluate (enabled_budgets t) (
          All-order_by P by_entity_and_name (select is_enforced t.budgets)
            (select-All P is_enforced t.budgets h))

count-matching-le :
    (p : BudgetDefinition → Bool) (evaluate : String → Option Bool) (bs : List BudgetDefinition)
    → count_where p (matching evaluate bs) ≤ count_where p bs
unfolding matching
count-matching-le p evaluate [] = omega arith
count-matching-le p evaluate (b ∷ bs) = omega (
  arith,
  count-keep_match-le (evaluate b.match_expression) b (matching evaluate bs),
  count-matching-le p evaluate bs,
)
  where
    count-keep_match-le :
        (o : Option Bool) (b : BudgetDefinition) (bs : List BudgetDefinition)
        → count_where p (keep_match o b bs) ≤ count_where p (b ∷ bs)
    count-keep_match-le none b bs = omega arith
    count-keep_match-le (some holds) b bs = ground arith

count-types :
    (p : BudgetDefinition → Bool) (bs : List BudgetDefinition)
    → count_where p (select (of_type user) bs)
        + (count_where p (select (of_type team) bs) + count_where p (select (of_type org) bs))
      ≡ count_where p bs
count-types p [] = refl
count-types p (b ∷ bs) = by_type b.entity_type refl (count-types p bs)
  where
    by_type :
        (e : EntityType)
        → b.entity_type ≡ e
        → count_where p (select (of_type user) bs)
            + (count_where p (select (of_type team) bs) + count_where p (select (of_type org) bs))
          ≡ count_where p bs
        → count_where p (select (of_type user) (b ∷ bs))
            + (count_where p (select (of_type team) (b ∷ bs))
                + count_where p (select (of_type org) (b ∷ bs)))
          ≡ count_where p (b ∷ bs)
    by_type user e h = rw e (omega (arith, h))
    by_type team e h = rw e (omega (arith, h))
    by_type org e h = rw e (omega (arith, h))

count-sort :
    (p : BudgetDefinition → Bool) (bs : List BudgetDefinition)
    → count_where p (sort_budgets_by_hierarchy bs) ≡ count_where p bs
unfolding sort_budgets_by_hierarchy
count-sort p bs = omega (
  arith,
  count-append p (select (of_type user) bs) (select (of_type team) bs ++ select (of_type org) bs),
  count-append p (select (of_type team) bs) (select (of_type org) bs),
  count-types p bs,
)

pub sort-matching-UniqueIds :
    (evaluate : String → Option Bool) (t : Tables)
    → UniqueIds t.budgets
    → UniqueIds (sort_budgets_by_hierarchy (matching evaluate (enabled_budgets t)))
unfolding enabled_budgets
sort-matching-UniqueIds evaluate t u = UniqueIds-once _ λ i. omega (
  arith,
  count-sort (has_id i) (matching evaluate (enabled_budgets t)),
  count-matching-le (has_id i) evaluate (enabled_budgets t),
  count-order_by by_entity_and_name (has_id i) (select is_enforced t.budgets),
  count-select-le (has_id i) is_enforced t.budgets,
  once_of_UniqueIds t.budgets u i,
)
