-- ===== src/Db/Order.antt =====
-- `ORDER BY entity_type, name`, by insertion. Names compare by code points, as in the C collation.
use Prim.Native.Nat.{Ordering}
use Prim.Native.String.{compare as compare_text}
use quota_management.Prelude.{
  ℕ, String, Bool, true, false, ◌&&◌, ◌||◌, List, [], ◌∷◌, ltb, ◌==◌, if◌then◌else◌,
}
use quota_management.Models.Budget.{BudgetDefinition, EntityType, org, team, user}

module _ {ℓ} {A : Type ℓ} (before : A → A → Bool) where
  unfoldable pub insert_row : A → List A → List A
  insert_row x [] = x ∷ []
  insert_row x (y ∷ ys) = if before y x then y ∷ insert_row x ys else x ∷ y ∷ ys

  unfoldable pub order_by : List A → List A
  unfolding insert_row
  order_by [] = []
  order_by (x ∷ xs) = insert_row x (order_by xs)

-- The enum's values in the order of their declaration.
entity_rank : EntityType → ℕ
entity_rank org = 0
entity_rank team = 1
entity_rank user = 2

name_before : String → String → Bool
name_before a b = elim (compare_text a b) [ Ordering.lt ↦ true | _ ↦ false ]

pub by_entity_and_name : BudgetDefinition → BudgetDefinition → Bool
unfolding entity_rank name_before
by_entity_and_name a b =
    ltb (entity_rank a.entity_type) (entity_rank b.entity_type)
    || ((entity_rank a.entity_type == entity_rank b.entity_type) && name_before a.name b.name)
