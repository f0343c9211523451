-- ===== src/RateLimit/Lookup/Ranked.antt =====
-- internal/db/ratelimit_repository.go and internal/extproc/ratelimit_server.go: the order of the
-- allocations of a lookup, and what its loop takes of them.
use quota_management.Prelude.{
  ℕ, String, ◌≤◌, ◌≡◌, refl, Bool, true, false, ◌&&◌, not, Option, none, some, List, [], ◌∷◌, arith,
  All, find_first, select, Bool-cases, inl, inr, ltb, subst, str_eq, Memᴰ, All_of, find_first-All,
  select-All,
}
use quota_management.Db.Order.{order_by, insert_row}
use quota_management.Models.RateLimit.{RateLimitAllocation, has_token_limit, has_request_limit}
use quota_management.RateLimit.Lookup.{
  RateLimitMetadata, RateLimitValue, merge, take_limits, is_monitoring, token_value, request_value,
  rank, more_specific, applies, get_allocations_for_team_model,
}
use quota_management.Models.Budget.{approved}
use quota_management.Db.Budgets.{is_approved}
use quota_management.RateLimit.Pattern.{matches_model}

abbrev pub gives_tokens : RateLimitAllocation → Bool
gives_tokens a = not (is_monitoring a.enforcement) && has_token_limit a

abbrev pub gives_requests : RateLimitAllocation → Bool
gives_requests a = not (is_monitoring a.enforcement) && has_request_limit a

abbrev pub value_of :
    (RateLimitAllocation → RateLimitValue) → Option RateLimitAllocation → Option RateLimitValue
value_of f none = none
value_of f (some a) = some (f a)

-- What is set already, else the first that gives it.
abbrev or_first : Option RateLimitValue → Option RateLimitValue → Option RateLimitValue
or_first none found = found
or_first (some v) found = some v

-- The loop keeps what is set, and takes the rest from the first allocations that give it.
pub merge_lem :
    (rows : List RateLimitAllocation) (m : RateLimitMetadata)
    → ((merge rows m).token
        ≡ or_first m.token (value_of token_value (find_first gives_tokens rows)))
      × ((merge rows m).request
          ≡ or_first m.request (value_of request_value (find_first gives_requests rows)))
unfolding merge
merge_lem [] m = (ground arith, ground arith)
merge_lem (a ∷ rows) m = ground (
  arith,
  (merge_lem rows m).0,
  (merge_lem rows m).1,
  (merge_lem rows (take_limits a m)).0,
  (merge_lem rows (take_limits a m)).1,
)

module _ {κ} (model : String) (P : RateLimitAllocation → Type κ) where
  insert-All :
      (a : RateLimitAllocation) (rows : List RateLimitAllocation)
      → P a
      → All P rows
      → All P (insert_row (more_specific model) a rows)
  unfolding insert_row
  insert-All a [] h k = (h, k)
  insert-All a (b ∷ rows) h (k, ks) = elim (Bool-cases (more_specific model b a)) [
    | inl early ↦ rw early (k, insert-All a rows h ks)
    | inr late ↦ rw late (h, (k, ks))
  ]

  -- What all inserted rows have, the row and the others have.
  uninsert-All :
      (a : RateLimitAllocation) (rows : List RateLimitAllocation)
      → All P (insert_row (more_specific model) a rows)
      → P a × All P rows
  unfolding insert_row
  uninsert-All a [] h = h
  uninsert-All a (b ∷ rows) h = elim (Bool-cases (more_specific model b a)) [
    | inl early ↦
        let (k, ks) : P b × All P (insert_row (more_specific model) a rows) = rw early at h in
        let (here, rest) = uninsert-All a rows ks in (here, (k, rest))
    | inr late ↦ rw late at h
  ]

  pub order_by-All :
      (rows : List RateLimitAllocation) → All P (order_by (more_specific model) rows) → All P rows
  unfolding order_by
  order_by-All [] h = tt
  order_by-All (a ∷ rows) h =
      let (here, rest) = uninsert-All a (order_by (more_specific model) rows) h in
      (here, order_by-All rows rest)

  pub order_by-keeps :
      (rows : List RateLimitAllocation) → All P rows → All P (order_by (more_specific model) rows)
  unfolding order_by
  order_by-keeps [] h = tt
  order_by-keeps (a ∷ rows) (h, hs) =
      insert-All a (order_by (more_specific model) rows) h (order_by-keeps rows hs)

pub select_passes :
    (p : RateLimitAllocation → Bool) (rows : List RateLimitAllocation)
    → All (λ a. p a ≡ true) (select p rows)
select_passes p [] = tt
select_passes p (a ∷ rows) = elim (Bool-cases (p a)) [
  | inl hit ↦ rw hit (hit, select_passes p rows)
  | inr miss ↦ rw miss (select_passes p rows)
]

pub select_reflects {κ} :
    (Q : RateLimitAllocation → Type κ) (p : RateLimitAllocation → Bool)
    (rows : List RateLimitAllocation)
    → All Q (select p rows)
    → All (λ a. p a ≡ true → Q a) rows
select_reflects Q p [] h = tt
select_reflects Q p (a ∷ rows) h = elim (Bool-cases (p a)) [
  | inl hit ↦
      let (q, qs) : Q a × All Q (select p rows) = rw hit at h in
      ((λ _. q), select_reflects Q p rows qs)
  | inr miss ↦ ((λ e. absurd (cc (miss, e))), select_reflects Q p rows (rw miss at h))
]

module _ (model : String) where
  -- No row stands before a more specific one.
  abbrev Sorted : List RateLimitAllocation → Type 0
  Sorted [] = Unit
  Sorted (a ∷ rows) = All (λ b. rank model a ≤ rank model b) rows × Sorted rows

  no_less :
      (n m : ℕ) (rows : List RateLimitAllocation)
      → n ≤ m
      → All (λ b. m ≤ rank model b) rows
      → All (λ b. n ≤ rank model b) rows
  no_less n m [] h k = tt
  no_less n m (b ∷ rows) h (k, ks) = (omega arith, no_less n m rows h ks)

  le_of_ltb : (n m : ℕ) → ltb n m ≡ true → n ≤ m
  le_of_ltb n m h = ground arith

  le_of_not_ltb : (n m : ℕ) → ltb n m ≡ false → m ≤ n
  le_of_not_ltb n m h = ground arith

  insert-Sorted :
      (a : RateLimitAllocation) (rows : List RateLimitAllocation)
      → Sorted rows
      → Sorted (insert_row (more_specific model) a rows)
  unfolding insert_row
  insert-Sorted a [] s = (tt, tt)
  insert-Sorted a (b ∷ rows) (first, s) = elim (Bool-cases (more_specific model b a)) [
    | inl early ↦ rw early (
      insert-All model (λ c. rank model b ≤ rank model c) a rows
          (le_of_ltb (rank model b) (rank model a) early) first,
      insert-Sorted a rows s,
    )
    | inr late ↦
        let le : rank model a ≤ rank model b = le_of_not_ltb (rank model b) (rank model a) late in
        rw late ((le, no_less (rank model a) (rank model b) rows le first), (first, s))
  ]

  pub order_by-Sorted :
      (rows : List RateLimitAllocation) → Sorted (order_by (more_specific model) rows)
  unfolding order_by
  order_by-Sorted [] = tt
  order_by-Sorted (a ∷ rows) =
      insert-Sorted a (order_by (more_specific model) rows) (order_by-Sorted rows)

  pub first_is_least :
      (g : RateLimitAllocation → Bool) (rows : List RateLimitAllocation) (a : RateLimitAllocation)
      → Sorted rows
      → find_first g rows ≡ some a
      → All (λ b. g b ≡ true → rank model a ≤ rank model b) rows
  first_is_least g [] a s e = tt
  first_is_least g (b ∷ rows) a (first, s) e = elim (Bool-cases (g b)) [
    | inl hit ↦
        let same : b ≡ a = cc (rw hit at e) in
        subst (λ x. All (λ b. g b ≡ true → rank model x ≤ rank model b) (b ∷ rows)) same
          ((λ _. omega arith), weaken (λ b. rank model b) (rank model b) rows first)
    | inr miss ↦ ((λ h. absurd (cc (miss, h))), first_is_least g rows a s (rw miss at e))
  ]
    where
      weaken :
          (f : RateLimitAllocation → ℕ) (n : ℕ) (rows : List RateLimitAllocation)
          → All (λ b. n ≤ f b) rows
          → All (λ b. g b ≡ true → n ≤ f b) rows
      weaken f n [] h = tt
      weaken f n (c ∷ cs) (h, hs) = ((λ _. h), weaken f n cs hs)

  pub first_none :
      (g : RateLimitAllocation → Bool) (rows : List RateLimitAllocation)
      → find_first g rows ≡ none
      → All (λ b. g b ≡ false) rows
  first_none g [] e = tt
  first_none g (b ∷ rows) e = elim (Bool-cases (g b)) [
    | inl hit ↦ absurd (cc (rw hit at e))
    | inr miss ↦ (miss, first_none g rows (rw miss at e))
  ]

-- An enabled and approved allocation of the team, whose pattern matches the model.
abbrev pub Serves : String → String → RateLimitAllocation → Type 0
Serves team model a =
    (str_eq a.team_id team ≡ true)
    × (a.enabled ≡ true)
    × (a.approval_status ≡ approved)
    × (matches_model a.model_pattern model ≡ true)

module _ (team model : String) where
  approved_lem :
      (a : RateLimitAllocation)
      → is_approved a.approval_status ≡ true
      → a.approval_status ≡ approved
  approved_lem a h = ground arith

  pub applies-Serves : (a : RateLimitAllocation) → applies team model a ≡ true → Serves team model a
  applies-Serves a h = ground arith

  pub Serves-applies : (a : RateLimitAllocation) → Serves team model a → applies team model a ≡ true
  Serves-applies a (same, on, granted, matches) = rw (same, on, granted, matches) refl

  -- The row that the search among the ordered allocations finds.
  pub found_row :
      (gives : RateLimitAllocation → Bool) (rows : List RateLimitAllocation)
      (a : RateLimitAllocation)
      → find_first gives (get_allocations_for_team_model team model rows) ≡ some a
      → Memᴰ a rows × Serves team model a × (gives a ≡ true)
  unfolding get_allocations_for_team_model
  found_row gives rows a e =
      let passed : List RateLimitAllocation = select (applies team model) rows in
      let (here, given) =
        find_first-All (λ b. applies team model b ≡ true) gives _
          (order_by-keeps model (λ b. applies team model b ≡ true) passed
            (select_passes (applies team model) rows))
          e in
      let (among, _) =
        find_first-All (λ b. Memᴰ b rows) gives _
          (order_by-keeps model (λ b. Memᴰ b rows) passed
            (select-All (λ b. Memᴰ b rows) (applies team model) rows
              (All_of (λ b. Memᴰ b rows) rows (λ b m. m))))
          e in
      (among, applies-Serves a here, given)
