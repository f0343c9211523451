-- ===== src/Db/Ways.antt =====
-- Operations in sequence by their results: what an operation that returns has done.
use quota_management.Prelude.{
  ◌≡◌, refl, Bool, true, false, Option, none, some, if_lem, ◌⊎◌, inl, inr,
}
use quota_management.Db.World.{
  db_failure, exec, pool, from_pool, Error, Result, ok, err, World, Tables, M, Statement, ◌>>=◌,
  continue, in_tx, with_rollback, fault_now, faults_later, run, from_tx, settle,
}

from_tx_given {ℓ} :
    {A : Type ℓ} (w : World) (o : Option (A × Tables)) {a : A}
    → (from_tx w o).0 ≡ ok a
    → o ≡ some (a, (from_tx w o).1.work)
from_tx_given w none e = absurd (cc e)
from_tx_given w (some (x, t)) e = cc e

from_tx_ok {ℓ} :
    {A : Type ℓ} (b : Bool) (s : Statement A) (w : World) {a : A}
    → (from_tx w (run b s w.work)).0 ≡ ok a
    → s w.work ≡ some (a, (from_tx w (run b s w.work)).1.work)
from_tx_ok true s w e = absurd (cc e)
from_tx_ok false s w e = from_tx_given w (s w.work) e

-- A statement of the transaction that returns has run on what the transaction saw.
pub in_tx_ok {ℓ} :
    {A : Type ℓ} (s : Statement A) (w : World) {a : A}
    → (in_tx s w).0 ≡ ok a
    → s w.work ≡ some (a, (in_tx s w).1.work)
unfolding in_tx
in_tx_ok {A = A} s w {a} =
    if_lem (λ (r : Result A × World). r.0 ≡ ok a → s w.work ≡ some (a, r.1.work)) w.aborted
      (λ e. absurd (cc e)) (from_tx_ok (fault_now w.faults) s _)

-- The first of two operations fails, or the second runs on its result.
abbrev pub Ways {ℓ κ} :
    {A : Type ℓ} {B : Type κ} → (A → M B) → Result A × World → Result B × World → Type (ℓ ⊔ κ)
Ways f r s =
    ((e : Error) × ((r.0 ≡ err e) × (s ≡ (err e, r.1))))
    ⊎ ((a : _) × ((r.0 ≡ ok a) × (s ≡ f a r.1)))

pub bind-Ways {ℓ κ} :
    {A : Type ℓ} {B : Type κ} (m : M A) (f : A → M B) (w : World) → Ways f (m w) ((m >>= f) w)
bind-Ways {A = A} {B = B} m f w = ways (m w).0 (m w).1
  where
    ways : (r : Result A) (w' : World) → Ways f (r, w') (continue r f w')
    ways (ok a) w' = inr (a, (refl, refl))
    ways (err e) w' = inl (e, (refl, refl))

-- A transaction that returns has not been rolled back.
pub with_rollback_ok {ℓ} :
    {A : Type ℓ} (m : M A) (w : World) {a : A}
    → (with_rollback m w).0 ≡ ok a
    → ((m w).0 ≡ ok a) × ((with_rollback m w).1 ≡ (m w).1)
unfolding with_rollback
with_rollback_ok {A = A} m w {a} = settled (m w).0 (m w).1
  where
    settled :
        (r : Result A) (w' : World) → (settle r w').0 ≡ ok a → (r ≡ ok a) × ((settle r w').1 ≡ w')
    settled (ok x) w' e = (e, refl)
    settled (err x) w' e = absurd (cc e)

from_pool_ways {ℓ} :
    {A : Type ℓ} (b : Bool) (s : Statement A) (t : Tables) (w : World)
    → let r = from_pool w (run b s t) in
      ((r.0 ≡ err db_failure) × (r.1.tables ≡ w.tables))
      ⊎ ((a : A) × (t' : Tables) × (s t ≡ some (a, t')) × (r.0 ≡ ok a) × (r.1.tables ≡ t'))
from_pool_ways true s t w = inl (refl, refl)
from_pool_ways {A = A} false s t w = by_answer (s t)
  where
    by_answer :
        (o : Option (A × Tables))
        → ((from_pool w o).0 ≡ err db_failure) × ((from_pool w o).1.tables ≡ w.tables)
          ⊎ ((a : A) × (t' : Tables) × (o ≡ some (a, t'))
              × ((from_pool w o).0 ≡ ok a)
              × ((from_pool w o).1.tables ≡ t'))
    by_answer none = inl (refl, refl)
    by_answer (some (a, t')) = inr (a, t', refl, refl, refl)

-- A statement of its own fails and changes nothing, or its result and its tables are committed.
pub pool_ways {ℓ} :
    {A : Type ℓ} (s : Statement A) (w : World)
    → ((pool s w).0 ≡ err db_failure) × ((pool s w).1.tables ≡ w.tables)
      ⊎ ((a : A) × (t : Tables) × (s w.tables ≡ some (a, t))
          × ((pool s w).0 ≡ ok a)
          × ((pool s w).1.tables ≡ t))
unfolding pool
pool_ways s w = from_pool_ways (fault_now w.faults) s w.tables _

from_pool_runs {ℓ} :
    {A : Type ℓ} (b : Bool) (s : Statement A) (w : World) (a : A) (t : Tables)
    → b ≡ false
    → s w.tables ≡ some (a, t)
    → from_pool w (run b s w.tables) ≡ (ok a, record w { tables = t })
from_pool_runs true s w a t h e = absurd (cc h)
from_pool_runs false s w a t h e = rw e refl

-- Where the next statement does not fail, it gives its result and its tables are committed.
pub pool_runs {ℓ} :
    {A : Type ℓ} (s : Statement A) (w : World) (a : A) (t : Tables)
    → fault_now w.faults ≡ false
    → s w.tables ≡ some (a, t)
    → pool s w ≡ (ok a, record w { faults = faults_later w.faults; tables = t })
unfolding pool
pool_runs s w a t h e =
    from_pool_runs (fault_now w.faults) s (record w { faults = faults_later w.faults }) a t h e

-- Where the transaction is not aborted and its next statement does not fail, the statement runs.
pub in_tx_runs :
    (f : Tables → Tables) (w : World)
    → w.aborted ≡ false
    → fault_now w.faults ≡ false
    → in_tx (exec f) w ≡ (ok tt, record w { faults = faults_later w.faults; work = f w.work })
unfolding in_tx
in_tx_runs f w open_still h = rw (open_still, h) refl
