-- ===== src/Budget/Charge/Unreserved.antt =====
-- A charge of a request without a reservation.
use quota_management.Prelude.{
  ℕ, String, ◌≡◌, refl, ◌∙◌, ap, Bool, not, Option, none, some, List, [], ◌∷◌, find_first, select,
  if_lem, inl, inr, Bool-cases,
}
use quota_management.Config.{Config}
use quota_management.Models.Budget.{RequestReservation}
use quota_management.Db.World.{
  Result, ok, err, World, Tables, M, ◌>>=◌, continue, attempt, lift, pool, query,
}
use quota_management.Db.Keeps.{pool-query}
use quota_management.Db.ModelCosts.{or_not_found}
use quota_management.Db.Reservations.{for_request, get_reservation_by_request_id}
use quota_management.Budget.Pricing.{calculate_cost, is_not_found}
use quota_management.Budget.Reserve.Quiet.{calculate_cost-Keeps}
use quota_management.Budget.Charge.{Call, DecrementResult, charge_reserved, decrement_budgets}
use quota_management.Budget.Charge.Settle.{get_reservation-Keeps}

abbrev pub Unreserved : String → Tables → Type 0
Unreserved r t = find_first (for_request r) t.reservations ≡ none

-- What a search for a test finds among the rows that fail it: nothing.
pub find_first-select {ℓ} :
    {A : Type ℓ} (p : A → Bool) (xs : List A) → find_first p (select (λ x. not (p x)) xs) ≡ none
find_first-select p [] = refl
find_first-select p (x ∷ xs) = elim (Bool-cases (p x)) [
  | inl hit ↦ rw hit (find_first-select p xs)
  | inr miss ↦ rw (miss, miss) (find_first-select p xs)
]

not_ok :
    (o : Option RequestReservation) (w : World) (res : RequestReservation)
    → o ≡ none
    → (lift (or_not_found o) w).0 ≡ ok res
    → ⊥
not_ok none w res h e = cc e
not_ok (some x) w res h e = cc h

get_reservation-misses :
    (r : String) (w : World) (res : RequestReservation)
    → Unreserved r w.tables
    → (get_reservation_by_request_id r w).0 ≡ ok res
    → ⊥
unfolding get_reservation_by_request_id
get_reservation-misses r w res h e =
    elim (pool-query (λ t. find_first (for_request r) t.reservations) w) [
      | inl failed ↦ cc (rw failed at e)
      | inr found ↦
          not_ok (find_first (for_request r) w.tables.reservations)
            (pool (query (λ t. find_first (for_request r) t.reservations)) w).1 res h
            (rw found at e)
    ]

charge_reserved_quiet :
    (c : Call) (limit : Option ℕ) (cost : ℕ) (x : Result RequestReservation) (w : World)
    → ((res : RequestReservation) → x ≡ ok res → ⊥)
    → (charge_reserved c limit cost x w).1.tables ≡ w.tables
charge_reserved_quiet c limit cost (ok res) w h = absurd (h res refl)
charge_reserved_quiet c limit cost (err e) w h =
    if_lem (λ (m : M DecrementResult). (m w).1.tables ≡ w.tables) (is_not_found e) refl refl

-- Such a charge changes no committed table, whether it fails or not.
pub decrement_budgets-Unreserved :
    (cfg : Config) (c : Call) (limit : Option ℕ) (w : World)
    → Unreserved c.request_id w.tables
    → (decrement_budgets cfg c limit w).1.tables ≡ w.tables
unfolding decrement_budgets
decrement_budgets-Unreserved cfg c limit w h =
    charged (calculate_cost cfg c.model_id c.input_tokens c.output_tokens w).0 ∙ kept
  where
    w₁ : World
    w₁ = (calculate_cost cfg c.model_id c.input_tokens c.output_tokens w).1

    kept : w₁.tables ≡ w.tables
    kept = ap (λ s. s.0) (calculate_cost-Keeps cfg c.model_id c.input_tokens c.output_tokens w)

    next : ℕ → M DecrementResult
    next cost = do
      res ← attempt (get_reservation_by_request_id c.request_id)
      charge_reserved c limit cost res

    charged : (r : Result ℕ) → (continue r next w₁).1.tables ≡ w₁.tables
    charged (err e) = refl
    charged (ok cost) =
        charge_reserved_quiet c limit cost (get_reservation_by_request_id c.request_id w₁).0
          (get_reservation_by_request_id c.request_id w₁).1
          (λ res e. get_reservation-misses c.request_id w₁ res (rw kept h) e)
        ∙ ap (λ s. s.0) (get_reservation-Keeps c.request_id w₁)
