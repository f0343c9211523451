-- ===== src/Db/Reservations.antt =====
-- internal/db/repository.go: the statements on request_reservations, and pending usage.
use quota_management.Prelude.{
  ℕ, String, ◌+◌, ◌-◌, Bool, ◌&&◌, not, none, some, List, [], ◌∷◌, ◌++◌, find_first, select,
  update_where, count_where, sum_by, is_some, leb, ◌==◌, if◌then◌else◌, str_eq,
}
use quota_management.Models.Budget.{RequestReservation}
use quota_management.Db.World.{
  Tables, M, Statement, ◌>>=◌, ◌>>◌, lift, pure, pool, in_tx, query, exec,
}
use quota_management.Db.ModelCosts.{or_not_found}
use quota_management.Db.Budgets.{has_id}

abbrev pub for_request : String → RequestReservation → Bool
for_request r v = str_eq v.request_id r

abbrev pub for_budget : ℕ → RequestReservation → Bool
for_budget i v = v.budget_id == i

abbrev pub holds_for : RequestReservation → RequestReservation → Bool
holds_for r v = (v.budget_id == r.budget_id) && str_eq v.request_id r.request_id

-- New rows go to the end, so that the list is in the order of created_at. A budget has one
-- reservation for a request at most.
abbrev pub insert_reservation : RequestReservation → Statement (Unit {0})
insert_reservation r t =
    if is_some (find_first (holds_for r) t.reservations)
    then none
    else some (tt, record t { reservations = t.reservations ++ (r ∷ []) })

abbrev pub add_pending : ℕ → ℕ → Tables → Tables
add_pending i cost t = record t {
  budgets =
      update_where (has_id i) (λ b. record b { pending_usage_usd = b.pending_usage_usd + cost })
        t.budgets;
}

-- `GREATEST(0, pending_usage_usd - cost)`
abbrev pub release_pending : ℕ → ℕ → Tables → Tables
release_pending i cost t = record t {
  budgets =
      update_where (has_id i) (λ b. record b { pending_usage_usd = b.pending_usage_usd - cost })
        t.budgets;
}

abbrev pub drop_reservations : String → Tables → Tables
drop_reservations r t = record t {
  reservations = select (λ v. not (for_request r v)) t.reservations;
}

-- `CreateReservation`: two statements, each committed at once.
pub create_reservation : RequestReservation → M (Unit {0})
create_reservation r = do
  pool (insert_reservation r)
  pool (exec (add_pending r.budget_id r.estimated_cost_usd))

unfoldable pub create_reservation_in_tx : RequestReservation → M (Unit {0})
create_reservation_in_tx r = in_tx (insert_reservation r)

unfoldable pub increment_pending_usage_in_tx : ℕ → ℕ → M (Unit {0})
increment_pending_usage_in_tx i cost = in_tx (exec (add_pending i cost))

unfoldable pub decrement_pending_usage_in_tx : ℕ → ℕ → M (Unit {0})
decrement_pending_usage_in_tx i cost = in_tx (exec (release_pending i cost))

unfoldable pub delete_reservation_in_tx : String → M (Unit {0})
delete_reservation_in_tx r = in_tx (exec (drop_reservations r))

-- The first that was created.
unfoldable pub get_reservation_by_request_id : String → M RequestReservation
get_reservation_by_request_id r = do
  row ← pool (query (λ t. find_first (for_request r) t.reservations))
  lift (or_not_found row)

pub delete_reservation : String → M (Unit {0})
delete_reservation r = do
  res ← get_reservation_by_request_id r
  pool (exec (drop_reservations r))
  pool (exec (release_pending res.budget_id res.estimated_cost_usd))

abbrev pub has_run_out : ℕ → RequestReservation → Bool
has_run_out now v = leb v.expires_at now

abbrev pub cost_of : List RequestReservation → ℕ → ℕ
cost_of vs i = sum_by (λ v. v.estimated_cost_usd) (select (for_budget i) vs)

-- The budgets of the rows, each once: `GROUP BY budget_id`.
abbrev pub group_ids : List RequestReservation → List ℕ
group_ids [] = []
group_ids (v ∷ vs) =
    let rest = group_ids vs in
    if is_some (find_first (for_budget v.budget_id) vs) then rest else v.budget_id ∷ rest

unfoldable pub release_all : List RequestReservation → List ℕ → M (Unit {0})
release_all vs [] w = pure tt w
release_all vs (i ∷ is) w = (pool (exec (release_pending i (cost_of vs i))) >> release_all vs is) w

-- `CleanupExpiredReservations`: the sums by budget, the deletion, and one update for each budget,
-- each committed at once.
unfoldable pub cleanup_expired_reservations : M ℕ
cleanup_expired_reservations w =
    (do
      vs ← pool (query (λ t. select (has_run_out w.now) t.reservations))
      n ← pool λ t. some (
        count_where (has_run_out w.now) t.reservations,
        record t { reservations = select (λ v. not (has_run_out w.now v)) t.reservations },
      )
      release_all vs (group_ids vs)
      pure n)
      w
