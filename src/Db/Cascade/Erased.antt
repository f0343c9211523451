-- ===== src/Db/Cascade/Erased.antt =====
-- internal/db/repository.go: the rows that the deletions of `DeleteBudgetCascade` leave.
use quota_management.Prelude.{
  ℕ, ◌==◌, ◌≡◌, refl, ◌∙◌, subst, ap, sym, Bool, true, false, ◌||◌, not, Option, none, some, List,
  [], ◌∷◌, ◌++◌, select, inl, inr, Bool-cases, if◌then◌else◌,
}
use quota_management.Models.Budget.{BudgetDefinition, RequestReservation}
use quota_management.Db.World.{Result, ok, World, Tables, M, ◌>>◌, in_tx}
use quota_management.Db.Budgets.{delete_row, without_budget}
use quota_management.Db.Keeps.{Keeps-in_tx, Keeps, committed, Keeps-bind}
use quota_management.Db.Ways.{bind-Ways, in_tx_ok}
use quota_management.Db.Cascade.{delete_each}

abbrev pub named : List ℕ → ℕ → Bool
named [] j = false
named (i ∷ is) j = (j == i) || named is j

select-named {ℓ} :
    {A : Type ℓ} (key : A → ℕ) (i : ℕ) (is : List ℕ) (xs : List A)
    → select (λ x. not (named is (key x))) (select (λ x. not (key x == i)) xs)
      ≡ select (λ x. not (named (i ∷ is) (key x))) xs
select-named key i is [] = refl
select-named key i is (x ∷ xs) = elim (Bool-cases (key x == i)) [
  | inl same ↦ rw same (select-named key i is xs)
  | inr other ↦ elim (Bool-cases (named is (key x))) [
    | inl hit ↦ rw (other, hit) (select-named key i is xs)
    | inr miss ↦ rw (other, miss, select-named key i is xs)
  ]
]

all_stay {ℓ} : {A : Type ℓ} (xs : List A) → xs ≡ select (λ x. true) xs
all_stay [] = refl
all_stay (x ∷ xs) = ap (λ ys. x ∷ ys) (all_stay xs)

-- The budgets of a list of ids are gone, with their reservations, and all others are there.
abbrev pub Erased : List ℕ → Tables → Tables → Type 0
Erased ids t u =
    (u.budgets ≡ select (λ b. not (named ids b.id)) t.budgets)
    × (u.reservations ≡ select (λ r. not (named ids r.budget_id)) t.reservations)

pub Erased-none : (t : Tables) → Erased [] t t
Erased-none t = (all_stay t.budgets, all_stay t.reservations)

without_budget-Erased :
    (i : ℕ) (is : List ℕ) (t v : Tables) → Erased is (without_budget i t) v → Erased (i ∷ is) t v
without_budget-Erased i is t v h = (
  h.0 ∙ select-named (λ (b : BudgetDefinition). b.id) i is t.budgets,
  h.1 ∙ select-named (λ (r : RequestReservation). r.budget_id) i is t.reservations,
)

abbrev deleted : Bool → ℕ × Tables → Option (ℕ × Tables)
deleted b r = if b then some r else none

pub deleted_lem : (b : Bool) (k n : ℕ) (t u : Tables) → deleted b (k, t) ≡ some (n, u) → t ≡ u
deleted_lem true k n t u e = cc e
deleted_lem false k n t u e = absurd (cc e)

pub delete_row-Erased :
    (i : ℕ) (is : List ℕ) (t u v : Tables) (n : ℕ)
    → delete_row i t ≡ some (n, u)
    → Erased is u v
    → Erased (i ∷ is) t v
delete_row-Erased i is t u v n e h =
    without_budget-Erased i is t v
      (subst (λ s. Erased is s v) (sym (deleted_lem _ _ n (without_budget i t) u e)) h)

-- One row and then others: the ids of both are erased.
module _ (i : ℕ) (is : List ℕ) (m : M (Unit {0})) where
  delete_then :
      (w : World)
      → ((w' : World) → (m w').0 ≡ ok tt → Erased is w'.work (m w').1.work)
      → ((in_tx (delete_row i) >> m) w).0 ≡ ok tt
      → Erased (i ∷ is) w.work ((in_tx (delete_row i) >> m) w).1.work
  delete_then w h e = elim (bind-Ways (in_tx (delete_row i)) (λ _. m) w) [
    | inl (x, (failed, ended)) ↦ absurd (cc)
    | inr (n, (done, next)) ↦
        subst (λ (r : Result (Unit {0}) × World). Erased (i ∷ is) w.work r.1.work) (sym next)
          (delete_row-Erased i is w.work (in_tx (delete_row i) w).1.work
            (m (in_tx (delete_row i) w).1).1.work n (in_tx_ok (delete_row i) w done)
            (h (in_tx (delete_row i) w).1
              (ap (λ (r : Result (Unit {0}) × World). r.0) (sym next) ∙ e)))
  ]

delete_each-Erased :
    (is : List ℕ) (w : World)
    → (delete_each is w).0 ≡ ok tt
    → Erased is w.work (delete_each is w).1.work
unfolding delete_each
delete_each-Erased [] w e = Erased-none w.work
delete_each-Erased (i ∷ is) w e = delete_then i is (delete_each is) w (delete_each-Erased is) e

select-named-append {ℓ} :
    {A : Type ℓ} (key : A → ℕ) (is js : List ℕ) (xs : List A)
    → select (λ x. not (named js (key x))) (select (λ x. not (named is (key x))) xs)
      ≡ select (λ x. not (named (is ++ js) (key x))) xs
select-named-append key [] js xs = ap (select (λ x. not (named js (key x)))) (sym (all_stay xs))
select-named-append key (i ∷ is) js xs =
    ap (select (λ x. not (named js (key x)))) (sym (select-named key i is xs))
    ∙ select-named-append key is js (select (λ x. not (key x == i)) xs)
    ∙ select-named key i (is ++ js) xs

Erased-trans :
    (is js : List ℕ) (t u v : Tables) → Erased is t u → Erased js u v → Erased (is ++ js) t v
Erased-trans is js t u v h k =
    let kept_budgets : List BudgetDefinition → List BudgetDefinition =
      select (λ b. not (named js b.id)) in
    let kept_reservations : List RequestReservation → List RequestReservation =
      select (λ r. not (named js r.budget_id)) in
    (
      k.0
          ∙ ap kept_budgets h.0
          ∙ select-named-append (λ (b : BudgetDefinition). b.id) is js t.budgets,
      k.1
          ∙ ap kept_reservations h.1
          ∙ select-named-append (λ (r : RequestReservation). r.budget_id) is js t.reservations,
    )

delete_each-Keeps : (is : List ℕ) → Keeps committed (delete_each is)
unfolding delete_each
delete_each-Keeps [] = λ w. refl
delete_each-Keeps (i ∷ is) =
    Keeps-bind committed (in_tx (delete_row i)) (λ _. delete_each is) (Keeps-in_tx (delete_row i))
      (λ _. delete_each-Keeps is)

-- The deletions of one transaction: those of the descendants, then that of the budget.
abbrev pub deletions : List ℕ → ℕ → M ℕ
deletions is i = delete_each is >> in_tx (delete_row i)

pub deletions-Erased :
    (is : List ℕ) (i : ℕ) (w : World) (n : ℕ)
    → (deletions is i w).0 ≡ ok n
    → Erased (is ++ (i ∷ [])) w.work (deletions is i w).1.work
deletions-Erased is i w n e = elim (bind-Ways (delete_each is) (λ _. in_tx (delete_row i)) w) [
  | inl (x, (failed, ended)) ↦ absurd (cc)
  | inr (u, (done, next)) ↦
      let last : (in_tx (delete_row i) (delete_each is w).1).0 ≡ ok n =
        ap (λ (r : Result ℕ × World). r.0) (sym next) ∙ e in
      subst (λ (r : Result ℕ × World). Erased (is ++ (i ∷ [])) w.work r.1.work) (sym next)
        (Erased-trans is (i ∷ []) w.work (delete_each is w).1.work
          (in_tx (delete_row i) (delete_each is w).1).1.work (delete_each-Erased is w done)
          (delete_row-Erased i [] (delete_each is w).1.work
            (in_tx (delete_row i) (delete_each is w).1).1.work
            (in_tx (delete_row i) (delete_each is w).1).1.work n
            (in_tx_ok (delete_row i) (delete_each is w).1 last)
            (Erased-none (in_tx (delete_row i) (delete_each is w).1).1.work)))
]

pub deletions-Keeps : (is : List ℕ) (i : ℕ) → Keeps committed (deletions is i)
deletions-Keeps is i =
    Keeps-bind committed (delete_each is) (λ _. in_tx (delete_row i)) (delete_each-Keeps is)
      (λ _. Keeps-in_tx (delete_row i))
