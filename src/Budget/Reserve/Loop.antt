-- ===== src/Budget/Reserve/Loop.antt =====
-- The loop of reservations: a property that each budget's two statements carry on holds at its end,
-- unless one of them has failed.
use quota_management.Prelude.{
  ℕ, String, ◌≡◌, refl, subst, true, Option, some, List, [], ◌∷◌, ◌++◌, inl, is_some, if_split,
  find_first,
}
use quota_management.Config.{Config}
use quota_management.Models.Budget.{BudgetDefinition, RequestReservation}
use quota_management.Db.World.{Result, ok, err, World, Tables, Statement, continue, in_tx, exec}
use quota_management.Db.Keeps.{Open, Open-in_tx, in_tx-err}
use quota_management.Db.Reservations.{
  create_reservation_in_tx, increment_pending_usage_in_tx, insert_reservation, add_pending,
  holds_for,
}
use quota_management.Budget.Reserve.{reserve_one, reserve_each, reservation_for}

abbrev pub with_reservation : RequestReservation → Tables → Tables
with_reservation r t = record t { reservations = t.reservations ++ (r ∷ []) }

insert_reservation_lem :
    (r : RequestReservation) (t : Tables) (u : Unit {0}) (t' : Tables)
    → insert_reservation r t ≡ some (u, t')
    → with_reservation r t ≡ t'
insert_reservation_lem r t u t' =
    if_split (λ (o : Option (Unit {0} × Tables)). o ≡ some (u, t') → with_reservation r t ≡ t')
      (is_some (find_first (holds_for r) t.reservations)) (λ _ e. absurd (cc e)) (λ _ e. cc e)

module _ {κ κ'} (cfg : Config) (request : String) (est : ℕ)
    (P : List BudgetDefinition → Tables → Type κ)
    (Q : BudgetDefinition → List BudgetDefinition → Tables → Type κ')
    (after_insert : (now : ℕ) (b : BudgetDefinition) (bs : List BudgetDefinition) (t : Tables)
      → P (b ∷ bs) t
      → Q b bs (with_reservation (reservation_for cfg now request est b) t))
    (after_add : (b : BudgetDefinition) (bs : List BudgetDefinition) (t : Tables)
      → Q b bs t
      → P bs (add_pending b.id est t)) where
  add-Open :
      (b : BudgetDefinition) (bs : List BudgetDefinition) (w : World)
      → Open (Q b bs) w
      → Open (P bs) (increment_pending_usage_in_tx b.id est w).1
  unfolding increment_pending_usage_in_tx
  add-Open b bs w =
      Open-in_tx (Q b bs) (P bs) (exec (add_pending b.id est)) w
        (λ t q a t' e. subst (P bs) (cc e) (after_add b bs t q))

  continue-Open :
      (b : BudgetDefinition) (bs : List BudgetDefinition) (r : Result (Unit {0})) (w : World)
      → ((x : _) → r ≡ err x → w.aborted ≡ true)
      → Open (Q b bs) w
      → Open (P bs) (continue r (λ _. increment_pending_usage_in_tx b.id est) w).1
  continue-Open b bs (ok a) w failed h = add-Open b bs w h
  continue-Open b bs (err x) w failed h = inl (failed x refl)

  reserve_one-Open :
      (b : BudgetDefinition) (bs : List BudgetDefinition) (now : ℕ) (w : World)
      → Open (P (b ∷ bs)) w
      → Open (P bs) (reserve_one cfg now request est b w).1
  unfolding create_reservation_in_tx
  reserve_one-Open b bs now w h =
      continue-Open b bs (in_tx insert w).0 (in_tx insert w).1 (λ x. in_tx-err insert w)
        (Open-in_tx (P (b ∷ bs)) (Q b bs) insert w
          (λ t p a t' e.
            subst (Q b bs) (insert_reservation_lem (reservation_for cfg now request est b) t a t' e)
              (after_insert now b bs t p))
          h)
    where
      insert : Statement (Unit {0})
      insert = insert_reservation (reservation_for cfg now request est b)

  pub reserve_each-Open :
      (bs : List BudgetDefinition) (w : World)
      → Open (P bs) w
      → Open (P []) (reserve_each cfg request est bs w).1
  unfolding reserve_each
  reserve_each-Open [] w h = h
  reserve_each-Open (b ∷ bs) w h = reserve_each-Open bs _ (reserve_one-Open b bs w.now w h)
