-- ===== src/Budget/Check/Outcome.antt =====
-- What the check decides, against a description of each budget on its own.
use quota_management.Prelude.{
  ℕ, ◌≡◌, ◌↔◌, ◌⊎◌, inl, inr, Bool, true, false, ◌&&◌, not, none, some, List, [], ◌∷◌, arith, All,
  is_some, Bool-cases, Option-cases,
}
use quota_management.Prelude.Int.{pos, ◌≤ℤ◌, leb_ℤ→le, le→leb_ℤ, not_ltb_ℤ→le}
use quota_management.Models.Budget.{BudgetDefinition, calculate_remaining}
use quota_management.Budget.Check.{
  scan_start, scan_budgets, exceeded, falls_back, has_capacity, parent_in, parent_entries,
  lookup_parent,
}
use quota_management.Budget.Check.Parents.{lookup_parent_lem}
use quota_management.Db.Unique.{UniqueIds}
use quota_management.Budget.Check.Blame.{uncovered, Blame, scan-covered, scan-Blame, scan-none}

-- The budget has room for the estimate, or it may fall back and its parent among the sorted
-- budgets has.
abbrev pub HasRoom : ℕ → List BudgetDefinition → BudgetDefinition → Type 0
HasRoom est all b =
    (pos est ≤ℤ calculate_remaining b)
    ⊎ ((b.allow_fallback ≡ true)
        × (q : BudgetDefinition) × (parent_in all b ≡ some q)
        × (pos est ≤ℤ calculate_remaining q))

-- Budget `i` limits the request: it has no room, and it is isolated or all budgets behind it have
-- room; those before it have room or are not isolated.
abbrev pub Limits : ℕ → List BudgetDefinition → ℕ → List BudgetDefinition → Type 0
Limits est all i [] = ⊥
Limits est all i (b ∷ bs) =
    ((b.id ≡ i) × (¬ HasRoom est all b) × ((b.isolated ≡ true) ⊎ All (HasRoom est all) bs))
    ⊎ ((HasRoom est all b ⊎ (b.isolated ≡ false)) × Limits est all i bs)

blocked :
    (over allow child room : Bool)
    → over ≡ true
    → room ≡ false
    → (over && not (allow && (child && room))) ≡ false
    → ⊥
blocked over allow child room o r h = ground arith

blocked_off : (a b : Bool) → b ≡ true → (a && not b) ≡ false
blocked_off a b h = ground arith

module _ (est : ℕ) (all : List BudgetDefinition) where
  abbrev Knows : BudgetDefinition → Type 0
  Knows b = lookup_parent b.id (parent_entries all all []) ≡ parent_in all b

  abbrev lacks : BudgetDefinition → Bool
  lacks = uncovered (parent_entries all all []) est

  -- A parent among the sorted budgets is a parent.
  capacity_of :
      (b : BudgetDefinition)
      → Knows b
      → has_capacity est (lookup_parent b.id (parent_entries all all [])) ≡ true
      → (q : BudgetDefinition) × (parent_in all b ≡ some q) × (pos est ≤ℤ calculate_remaining q)
  capacity_of b k h = elim (Option-cases (parent_in all b)) [
    | inl lone ↦ absurd (cc (rw (k, lone) at h))
    | inr (q, e) ↦ (q, e, leb_ℤ→le (pos est) (calculate_remaining q) (rw (k, e) at h))
  ]

  falls_back_of :
      (b : BudgetDefinition) (q : BudgetDefinition)
      → Knows b
      → b.allow_fallback ≡ true
      → parent_in all b ≡ some q
      → pos est ≤ℤ calculate_remaining q
      → falls_back (parent_entries all all []) est b ≡ true
  falls_back_of b q k allow e room = elim (Option-cases b.parent_id) [
    | inl root ↦ absurd (cc (rw root at e))
    | inr (p, child) ↦ rw (allow, child, k, e) (le→leb_ℤ (pos est) (calculate_remaining q) room)
  ]

  room_of : (b : BudgetDefinition) → Knows b → lacks b ≡ false → HasRoom est all b
  room_of b k h = elim (Bool-cases (exceeded est b)) [
    | inr within ↦ inl (not_ltb_ℤ→le (calculate_remaining b) (pos est) within)
    | inl over ↦ elim (Bool-cases b.allow_fallback) [
      | inr never ↦ absurd (cc (rw (over, never) at h))
      | inl allow ↦
          elim (Bool-cases (has_capacity est (lookup_parent b.id (parent_entries all all [])))) [
            | inl room ↦ inr (let (q, e, r) = capacity_of b k room in (allow, q, e, r))
            | inr full ↦
                absurd
                  (blocked (exceeded est b) b.allow_fallback (is_some b.parent_id) _ over full h)
          ]
    ]
  ]

  no_room_of : (b : BudgetDefinition) → Knows b → lacks b ≡ true → ¬ HasRoom est all b
  no_room_of b k h (inl fits) = absurd (ground arith)
  no_room_of b k h (inr (allow, q, e, room)) =
      cc (blocked_off (exceeded est b) _ (falls_back_of b q k allow e room))

  rooms :
      (bs : List BudgetDefinition)
      → All Knows bs
      → All (λ b. lacks b ≡ false) bs
      → All (HasRoom est all) bs
  rooms [] k h = tt
  rooms (b ∷ bs) k h = (room_of b k.0 h.0, rooms bs k.1 h.1)

  no_lacks :
      (bs : List BudgetDefinition)
      → All Knows bs
      → All (HasRoom est all) bs
      → All (λ b. lacks b ≡ false) bs
  no_lacks [] k h = tt
  no_lacks (b ∷ bs) k h = (
    elim (Bool-cases (lacks b)) [ inl bad ↦ absurd (no_room_of b k.0 bad h.0) | inr fine ↦ fine ],
    no_lacks bs k.1 h.1,
  )

  passes :
      (b : BudgetDefinition)
      → Knows b
      → (lacks b && b.isolated) ≡ false
      → HasRoom est all b ⊎ (b.isolated ≡ false)
  passes b k h = elim (Bool-cases (lacks b)) [
    | inr fine ↦ inl (room_of b k fine)
    | inl bad ↦ inr (rw bad at h)
  ]

  Blame-Limits :
      (bs : List BudgetDefinition) (i : ℕ)
      → All Knows bs
      → Blame (parent_entries all all []) est i bs
      → Limits est all i bs
  Blame-Limits [] i k h = h
  Blame-Limits (b ∷ bs) i k (inl (e, bad, reason)) = inl (
    e,
    no_room_of b k.0 bad,
    elim reason [ inl alone ↦ inl alone | inr rest ↦ inr (rooms bs k.1 rest) ],
  )
  Blame-Limits (b ∷ bs) i k (inr (passed, rest)) =
      inr (passes b k.0 passed, Blame-Limits bs i k.1 rest)

-- The check of the sorted budgets, whose ids are distinct, lets the request pass exactly if every
-- one of them has room: its remaining amount covers the estimate, or it allows the fallback and its
-- parent among them covers the estimate.
pub scan_budgets_allows :
    (est : ℕ) (bs : List BudgetDefinition)
    → UniqueIds bs
    → ((scan_budgets est bs).limited_at ≡ none) ↔ All (HasRoom est bs) bs
unfolding scan_budgets
scan_budgets_allows est bs u =
    let k = lookup_parent_lem bs u in
    let parents = parent_entries bs bs [] in
    (
      λ h. rooms est bs bs k (scan-none parents est bs scan_start h).1,
      λ h. scan-covered parents est bs scan_start (no_lacks est bs bs k h),
    )

-- The budget that the check reports as the limit is one without room, and isolated or with room in
-- every budget behind it; each budget before it has room or is not isolated.
pub scan_budgets_blames :
    (est : ℕ) (bs : List BudgetDefinition) (i : ℕ)
    → UniqueIds bs
    → (scan_budgets est bs).limited_at ≡ some i
    → Limits est bs i bs
unfolding scan_budgets
scan_budgets_blames est bs i u h =
    elim (scan-Blame (parent_entries bs bs []) est bs scan_start i h) [
      | inl (e, _) ↦ absurd (cc e)
      | inr blame ↦ Blame-Limits est bs bs i (lookup_parent_lem bs u) blame
    ]
