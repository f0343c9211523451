-- ===== src/Budget/Check/Blame.antt =====
-- internal/budget/service.go: what the loop over the matching budgets finds.
use quota_management.Prelude.{
  ℕ, ◌≡◌, refl, ◌⊎◌, inl, inr, Bool, true, false, ◌&&◌, not, none, some, List, [], ◌∷◌, All,
  Bool-cases, sym, ◌∙◌, if◌then◌else◌, ap,
}
use quota_management.Models.Budget.{BudgetDefinition}
use quota_management.Budget.Check.{Scan, scan, tracked, id_of, exceeded, falls_back, lookup_parent}

abbrev limited : BudgetDefinition → Scan → Scan
limited b s = record (tracked b s) { limited_at = some b.id }

abbrev pub uncovered : List (ℕ × BudgetDefinition) → ℕ → BudgetDefinition → Bool
uncovered parents est b = exceeded est b && not (falls_back parents est b)

-- Who limits the request: an uncovered budget that is isolated or has only covered ones behind it,
-- with no isolated uncovered one before it.
abbrev pub Blame : List (ℕ × BudgetDefinition) → ℕ → ℕ → List BudgetDefinition → Type 0
Blame parents est i [] = ⊥
Blame parents est i (b ∷ bs) =
    ((b.id ≡ i)
      × (uncovered parents est b ≡ true)
      × ((b.isolated ≡ true) ⊎ All (λ c. uncovered parents est c ≡ false) bs))
    ⊎ (((uncovered parents est b && b.isolated) ≡ false) × Blame parents est i bs)

module _ (parents : List (ℕ × BudgetDefinition)) (est : ℕ) where
  abbrev IsCovered : BudgetDefinition → Type 0
  IsCovered b = uncovered parents est b ≡ false

  -- A covered budget leaves what limits the request alone.
  covered-step :
      (b : BudgetDefinition) (bs : List BudgetDefinition) (s : Scan)
      → IsCovered b
      → (s' : Scan) × (s'.limited_at ≡ s.limited_at)
        × (scan parents est (b ∷ bs) s ≡ scan parents est bs s')
  unfolding scan
  covered-step b bs s h = elim (Bool-cases (exceeded est b)) [
    | inl over ↦ elim (Bool-cases (falls_back parents est b)) [
      | inl back ↦ (
        record (tracked b s) { fallback_to = id_of (lookup_parent b.id parents) },
        refl,
        rw (over, back),
      )
      | inr fails ↦ absurd (cc (over, fails))
    ]
    | inr within ↦ (tracked b s, refl, rw within)
  ]

  -- An uncovered budget limits the request, and ends the loop if it is isolated.
  uncovered-scan :
      (b : BudgetDefinition) (bs : List BudgetDefinition) (s : Scan)
      → uncovered parents est b ≡ true
      → scan parents est (b ∷ bs) s
        ≡ (if b.isolated then limited b s else scan parents est bs (limited b s))
  unfolding scan
  uncovered-scan b bs s h = elim (Bool-cases (exceeded est b)) [
    | inl over ↦ elim (Bool-cases (falls_back parents est b)) [
      | inl back ↦ absurd (cc (over, back))
      | inr fails ↦ rw (over, fails)
    ]
    | inr within ↦ absurd (cc within)
  ]

  isolated-step :
      (b : BudgetDefinition) (bs : List BudgetDefinition) (s : Scan)
      → uncovered parents est b ≡ true
      → b.isolated ≡ true
      → (scan parents est (b ∷ bs) s).limited_at ≡ some b.id
  isolated-step b bs s h alone = rw (uncovered-scan b bs s h, alone)

  open-step :
      (b : BudgetDefinition) (bs : List BudgetDefinition) (s : Scan)
      → uncovered parents est b ≡ true
      → b.isolated ≡ false
      → scan parents est (b ∷ bs) s ≡ scan parents est bs (limited b s)
  open-step b bs s h alone = rw (uncovered-scan b bs s h, alone)

  pub scan-covered :
      (bs : List BudgetDefinition) (s : Scan)
      → All IsCovered bs
      → (scan parents est bs s).limited_at ≡ s.limited_at
  unfolding scan
  scan-covered [] s h = refl
  scan-covered (b ∷ bs) s h =
      let (s', same, e) = covered-step b bs s h.0 in
      ap (λ r. r.limited_at) e ∙ scan-covered bs s' h.1 ∙ same

  pub scan-Blame :
      (bs : List BudgetDefinition) (s : Scan) (i : ℕ)
      → (scan parents est bs s).limited_at ≡ some i
      → ((s.limited_at ≡ some i) × All IsCovered bs) ⊎ Blame parents est i bs
  unfolding scan
  scan-Blame [] s i h = inl (h, tt)
  scan-Blame (b ∷ bs) s i h = elim (Bool-cases (uncovered parents est b)) [
    | inr fine ↦
        let (s', same, e) = covered-step b bs s fine in
        elim (scan-Blame bs s' i (ap (λ r. r.limited_at) (sym e) ∙ h)) [
          | inl (t, rest) ↦ inl (sym same ∙ t, (fine, rest))
          | inr blame ↦ inr (inr (rw fine, blame))
        ]
    | inl bad ↦ elim (Bool-cases b.isolated) [
      | inl alone ↦ inr (inl (cc (isolated-step b bs s bad alone), bad, inl alone))
      | inr shared ↦ elim (scan-Blame bs (limited b s) i (cc (open-step b bs s bad shared))) [
        | inl (t, rest) ↦ inr (inl (cc, bad, inr rest))
        | inr blame ↦ inr (inr (rw (bad, shared), blame))
      ]
    ]
  ]

  pub scan-none :
      (bs : List BudgetDefinition) (s : Scan)
      → (scan parents est bs s).limited_at ≡ none
      → (s.limited_at ≡ none) × All IsCovered bs
  unfolding scan
  scan-none [] s h = (h, tt)
  scan-none (b ∷ bs) s h = elim (Bool-cases (uncovered parents est b)) [
    | inr fine ↦
        let (s', same, e) = covered-step b bs s fine in
        let (t, rest) = scan-none bs s' (ap (λ r. r.limited_at) (sym e) ∙ h) in
        (sym same ∙ t, (fine, rest))
    | inl bad ↦ elim (Bool-cases b.isolated) [
      | inl alone ↦ absurd (cc (isolated-step b bs s bad alone))
      | inr shared ↦
          let (t, rest) = scan-none bs (limited b s) (cc (open-step b bs s bad shared)) in
          absurd (cc)
    ]
  ]
