-- ===== src/Budget/Check/Parents.antt =====
-- The parent map of the check, where no two budgets have one id.
use quota_management.Prelude.{
  ℕ, ◌≡◌, refl, ◌∙◌, subst, Option, none, some, List, [], ◌∷◌, arith, find_first, Bool-cases, inl,
  inr, ==_iff, All, ◌==◌, if◌then◌else◌,
}
use quota_management.Models.Budget.{BudgetDefinition}
use quota_management.Db.Budgets.{has_id}
use quota_management.Db.Unique.{UniqueIds}
use quota_management.Budget.Check.{parent_in, with_entry, parent_entries, lookup_parent}

abbrev or_else : Option BudgetDefinition → Option BudgetDefinition → Option BudgetDefinition
or_else none d = d
or_else (some q) d = some q

abbrev found : List BudgetDefinition → Option BudgetDefinition → Option BudgetDefinition
found all none = none
found all (some b) = parent_in all b

lookup-with_entry :
    (i j : ℕ) (q : Option BudgetDefinition) (es : List (ℕ × BudgetDefinition))
    → lookup_parent i (with_entry j q es)
      ≡ (if j == i then or_else q (lookup_parent i es) else lookup_parent i es)
lookup-with_entry i j none es = ground arith
lookup-with_entry i j (some q) es = ground arith

lookup-parent_entries :
    (all bs : List BudgetDefinition) (es : List (ℕ × BudgetDefinition)) (i : ℕ)
    → UniqueIds bs
    → lookup_parent i (parent_entries all bs es)
      ≡ or_else (found all (find_first (has_id i) bs)) (lookup_parent i es)
lookup-parent_entries all [] es i u = refl
lookup-parent_entries all (b ∷ bs) es i u = elim (Bool-cases (b.id == i)) [
  | inl hit ↦
      let e : b.id ≡ i = (==_iff b.id i).0 hit in
      let alone : find_first (has_id i) bs ≡ none =
        subst (λ k. find_first (has_id k) bs ≡ none) e u.0 in
      lookup-parent_entries all bs (with_entry b.id (parent_in all b) es) i u.1
      ∙ rw (alone, lookup-with_entry i b.id (parent_in all b) es, hit)
  | inr miss ↦
      lookup-parent_entries all bs (with_entry b.id (parent_in all b) es) i u.1
      ∙ rw (lookup-with_entry i b.id (parent_in all b) es, miss)
]

All-imp {κ} :
    {P Q : BudgetDefinition → Type κ} (bs : List BudgetDefinition)
    → ((b : BudgetDefinition) → P b → Q b)
    → All P bs
    → All Q bs
All-imp [] f h = h
All-imp (b ∷ bs) f h = (f b h.0, All-imp bs f h.1)

abbrev FoundIn : List BudgetDefinition → BudgetDefinition → Type 0
FoundIn all b = find_first (has_id b.id) all ≡ some b

FoundIn-cons :
    (x : BudgetDefinition) (xs : List BudgetDefinition)
    → find_first (has_id x.id) xs ≡ none
    → (b : BudgetDefinition) → FoundIn xs b
    → FoundIn (x ∷ xs) b
FoundIn-cons x xs alone b h = elim (Bool-cases (x.id == b.id)) [
  | inl same ↦
      absurd (cc (subst (λ k. find_first (has_id k) xs ≡ none) ((==_iff x.id b.id).0 same) alone))
  | inr apart ↦ rw apart h
]

All-FoundIn : (bs : List BudgetDefinition) → UniqueIds bs → All (FoundIn bs) bs
All-FoundIn [] u = tt
All-FoundIn (b ∷ bs) u =
    (rw ((==_iff b.id b.id).1 refl), All-imp bs (FoundIn-cons b bs u.0) (All-FoundIn bs u.1))

-- Each of the sorted budgets finds in the map its own parent, where that is among them.
pub lookup_parent_lem :
    (all : List BudgetDefinition)
    → UniqueIds all
    → All (λ b. lookup_parent b.id (parent_entries all all []) ≡ parent_in all b) all
lookup_parent_lem all u =
    All-imp all
      (λ b h. lookup-parent_entries all all [] b.id u ∙ rw h (or_else_none (parent_in all b)))
      (All-FoundIn all u)
  where
    or_else_none : (q : Option BudgetDefinition) → or_else q none ≡ q
    or_else_none none = refl
    or_else_none (some q) = refl
