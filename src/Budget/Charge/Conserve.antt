-- ===== src/Budget/Charge/Conserve.antt =====
-- What the loop of charges adds up to.
use quota_management.Prelude.{
  ℕ, zero, suc, ◌+◌, ◌≤◌, ◌≡◌, refl, ◌∙◌, Bool, false, Option, none, List, [], ◌∷◌, arith, All,
  sum_by, sum_by-append, inl, inr, ◌⊎◌,
}
use quota_management.Prelude.Int.{ℤ, pos, negsuc, ◌-ℤ◌}
use quota_management.Models.Budget.{BudgetDefinition}
use quota_management.Budget.Charge.{
  Tally, BudgetCharge, tally_after, charge_amount_of, fill_up_to, is_spared, charge_for,
  tally_start,
}

-- The tallies of the loop, without its statements.
unfoldable pub tally_all : Option ℕ → List BudgetDefinition → List BudgetDefinition → Tally → Tally
tally_all limit sorted [] t = t
tally_all limit sorted (b ∷ bs) t =
    tally_all limit sorted bs (tally_after (is_spared limit sorted b) b t)

abbrev pub total : List BudgetCharge → ℕ
total = sum_by (λ c. c.charge_amount)

-- The loop goes on to the parent of a budget that is not isolated.
abbrev pub Shares : BudgetDefinition → Type 0
Shares b = b.isolated ≡ false

fill_up_to-le : (z : ℤ) (cost : ℕ) → fill_up_to z cost ≤ cost
fill_up_to-le (pos zero) cost = omega arith
fill_up_to-le (pos (suc n)) cost = ground arith
fill_up_to-le (negsuc n) cost = omega arith

charge_amount_of-le :
    (spared : Bool) (b : BudgetDefinition) (left : ℕ) → charge_amount_of spared b left ≤ left
charge_amount_of-le spared b left =
    ground (arith, fill_up_to-le (b.budget_amount_usd -ℤ pos b.current_usage_usd) left)

-- What is charged leaves what is left.
tally_after-conserves :
    (b : BudgetDefinition) (t : Tally)
    → Shares b
    → total (tally_after false b t).charged + (tally_after false b t).left
      ≡ total t.charged + t.left
unfolding tally_after
tally_after-conserves b t s =
    let amount = charge_amount_of false b t.left in
    ground (
      arith,
      s,
      charge_amount_of-le false b t.left,
      sum_by-append (λ c. c.charge_amount) t.charged (charge_for b amount ∷ []),
    )

tally_all-conserves :
    (sorted bs : List BudgetDefinition) (t : Tally)
    → All Shares bs
    → total (tally_all none sorted bs t).charged + (tally_all none sorted bs t).left
      ≡ total t.charged + t.left
unfolding tally_all
tally_all-conserves sorted [] t h = refl
tally_all-conserves sorted (b ∷ bs) t (s, h) =
    tally_all-conserves sorted bs (tally_after false b t) h ∙ tally_after-conserves b t s

tally_after-le :
    (b : BudgetDefinition) (t : Tally) → Shares b → (tally_after false b t).left ≤ t.left
unfolding tally_after
tally_after-le b t s = ground arith

tally_after-root :
    (b : BudgetDefinition) (t : Tally)
    → Shares b
    → b.parent_id ≡ none
    → (tally_after false b t).left ≡ 0
unfolding tally_after
tally_after-root b t s root = rw (s, root) (ground arith)

-- One of the budgets has no parent.
abbrev pub HasRoot : List BudgetDefinition → Type 0
HasRoot [] = ⊥
HasRoot (b ∷ bs) = (b.parent_id ≡ none) ⊎ HasRoot bs

tally_all-le :
    (sorted bs : List BudgetDefinition) (t : Tally)
    → All Shares bs
    → (tally_all none sorted bs t).left ≤ t.left
unfolding tally_all
tally_all-le sorted [] t h = omega arith
tally_all-le sorted (b ∷ bs) t (s, h) =
    omega (arith, tally_all-le sorted bs (tally_after false b t) h, tally_after-le b t s)

tally_all-root :
    (sorted bs : List BudgetDefinition) (t : Tally)
    → All Shares bs
    → HasRoot bs
    → (tally_all none sorted bs t).left ≡ 0
unfolding tally_all
tally_all-root sorted [] t h r = absurd r
tally_all-root sorted (b ∷ bs) t (s, h) (inl root) =
    omega (arith, tally_all-le sorted bs (tally_after false b t) h, tally_after-root b t s root)
tally_all-root sorted (b ∷ bs) t (s, h) (inr r) =
    tally_all-root sorted bs (tally_after false b t) h r

-- Where every budget shares and one of them is a root, the charges add up to the cost.
pub total-tally_all :
    (sorted bs : List BudgetDefinition) (cost : ℕ)
    → All Shares bs
    → HasRoot bs
    → total (tally_all none sorted bs (tally_start cost)).charged ≡ cost
total-tally_all sorted bs cost h r = omega (
  arith,
  tally_all-conserves sorted bs (tally_start cost) h,
  tally_all-root sorted bs (tally_start cost) h r,
)
