-- ===== src/Db/Keeps.antt =====
-- What an operation leaves as it is, whatever the schedule of faults: the committed tables, or a
-- property of what an open transaction sees.
use quota_management.Prelude.{
  ◌≡◌, refl, ap, ◌∙◌, Bool, true, false, Option, none, some, ◌⊎◌, inl, inr, if_lem, if_split,
}
use quota_management.Db.World.{
  Error, db_failure, Result, ok, err, World, Tables, M, Statement, ◌>>=◌, continue, pool, in_tx,
  query, begin_tx, rollback, commit, with_rollback, fault_now, faults_later, run, from_pool,
  from_tx, settle,
}

-- What `look` sees of the world stays.
abbrev pub Keeps {ℓ ℓ'} : {A : Type ℓ} {X : Type ℓ'} → (World → X) → M A → Type ℓ'
Keeps look m = (w : World) → look (m w).1 ≡ look w

abbrev pub committed : World → Tables
committed w = w.tables

-- All that a transaction depends on.
abbrev pub stored : World → Tables × (Tables × Bool)
stored w = (w.tables, (w.work, w.aborted))

module _ {ℓ κ ℓ'} {A : Type ℓ} {B : Type κ} {X : Type ℓ'} (look : World → X) where
  Keeps-continue :
      (f : A → M B) (r : Result A) (w : World)
      → ((a : A) → Keeps look (f a))
      → look (continue r f w).1 ≡ look w
  Keeps-continue f (ok a) w k = k a w
  Keeps-continue f (err x) w k = refl

  pub Keeps-bind :
      (m : M A) (f : A → M B) → Keeps look m → ((a : A) → Keeps look (f a)) → Keeps look (m >>= f)
  Keeps-bind m f h k w = Keeps-continue f (m w).0 (m w).1 k ∙ h w

run_lem {ℓ} :
    {A : Type ℓ} (b : Bool) (s : Statement A) (t : Tables) {r : A × Tables}
    → run b s t ≡ some r
    → s t ≡ some r
run_lem true s t e = absurd (cc e)
run_lem false s t e = e

module _ {ℓ} {A : Type ℓ} where
  from_pool-stored :
      (w : World) (o : Option (A × Tables))
      → ((a : A) (t : Tables) → o ≡ some (a, t) → t ≡ w.tables)
      → stored (from_pool w o).1 ≡ stored w
  from_pool-stored w none h = refl
  from_pool-stored w (some (a, t)) h = ap (λ u. (u, (w.work, w.aborted))) (h a t refl)

  -- A statement that only reads.
  pub Keeps-read :
      (s : Statement A)
      → ((t : Tables) (a : A) (t' : Tables) → s t ≡ some (a, t') → t' ≡ t)
      → Keeps stored (pool s)
  unfolding pool
  Keeps-read s h w =
      from_pool-stored _ (run (fault_now w.faults) s w.tables)
        (λ a t e. h w.tables a t (run_lem (fault_now w.faults) s w.tables e))

  pub Keeps-query : (f : Tables → A) → Keeps stored (pool (query f))
  Keeps-query f = Keeps-read (query f) (λ t a t' e. cc e)

  from_tx-tables : (w : World) (o : Option (A × Tables)) → (from_tx w o).1.tables ≡ w.tables
  from_tx-tables w none = refl
  from_tx-tables w (some a) = refl

  pub Keeps-in_tx : (s : Statement A) → Keeps committed (in_tx s)
  unfolding in_tx
  Keeps-in_tx s w =
      if_lem (λ (r : Result A × World). r.1.tables ≡ w.tables) w.aborted refl
        (from_tx-tables _ (run (fault_now w.faults) s w.work))

  settle-tables : (r : Result A) (w : World) → (settle r w).1.tables ≡ w.tables
  settle-tables (ok a) w = refl
  settle-tables (err e) w = refl

  pub Keeps-with_rollback : (m : M A) → Keeps committed m → Keeps committed (with_rollback m)
  unfolding with_rollback
  Keeps-with_rollback m h w = settle-tables (m w).0 (m w).1 ∙ h w

pub Keeps-begin_tx : Keeps committed begin_tx
unfolding begin_tx
Keeps-begin_tx w =
    if_lem (λ (r : Result (Unit {0}) × World). r.1.tables ≡ w.tables) (fault_now w.faults) refl refl

pub Keeps-rollback : Keeps committed rollback
unfolding rollback
Keeps-rollback w = refl

-- A query in the transaction gives what the transaction sees, or an error.
from_tx-query {ℓ} :
    {A : Type ℓ} (b : Bool) (f : Tables → A) (w : World) {a : A}
    → (from_tx w (run b (query f) w.work)).0 ≡ ok a
    → (a ≡ f w.work) × ((from_tx w (run b (query f) w.work)).1.work ≡ w.work)
from_tx-query true f w e = absurd (cc e)
from_tx-query false f w e = (cc e, refl)

pub in_tx-query {ℓ} :
    {A : Type ℓ} (f : Tables → A) (w : World) {a : A}
    → (in_tx (query f) w).0 ≡ ok a
    → (a ≡ f w.work) × ((in_tx (query f) w).1.work ≡ w.work)
unfolding in_tx
in_tx-query {A = A} f w {a} =
    if_lem (λ (r : Result A × World). r.0 ≡ ok a → (a ≡ f w.work) × (r.1.work ≡ w.work)) w.aborted
      (λ e. absurd (cc e)) (from_tx-query (fault_now w.faults) f _)

pub begin_tx_lem : (w : World) → (begin_tx w).0 ≡ ok tt → (begin_tx w).1.work ≡ w.tables
unfolding begin_tx
begin_tx_lem w =
    if_lem (λ (r : Result (Unit {0}) × World). r.0 ≡ ok tt → r.1.work ≡ w.tables)
      (fault_now w.faults) (λ e. absurd (cc e)) (λ e. refl)

-- The transaction is aborted, or what it sees has the property.
abbrev pub Open {κ} : (Tables → Type κ) → World → Type κ
Open P w = (w.aborted ≡ true) ⊎ P w.work

module _ {κ} (P : Tables → Type κ) where
  from_tx-Open {ℓ} :
      {A : Type ℓ} (w : World) (o : Option (A × Tables))
      → ((a : A) (t : Tables) → o ≡ some (a, t) → P t)
      → Open P (from_tx w o).1
  from_tx-Open w none h = inl refl
  from_tx-Open w (some (a, t)) h = inr (h a t refl)

  -- A commit of what has the property changes nothing and fails, or commits that.
  pub commit_lem :
      (w : World)
      → Open P w
      → (((commit w).1.tables ≡ w.tables) × ((commit w).0 ≡ err db_failure))
        ⊎ (P (commit w).1.tables × ((commit w).0 ≡ ok tt))
  unfolding commit
  commit_lem w h =
      if_split Result_of w.aborted (λ a. inl (refl, refl))
        λ a.
          if_lem Result_of (fault_now w.faults) (inl (refl, refl))
            (inr (elim h [ inl b ↦ absurd (cc) | inr k ↦ k ], refl))
    where
      Result_of : Result (Unit {0}) × World → Type κ
      Result_of r =
          ((r.1.tables ≡ w.tables) × (r.0 ≡ err db_failure)) ⊎ (P r.1.tables × (r.0 ≡ ok tt))

-- A statement that leads from the property to another does so in the transaction, unless it
-- fails.
pub Open-in_tx {ℓ κ κ'} :
    {A : Type ℓ} (P : Tables → Type κ) (Q : Tables → Type κ') (s : Statement A) (w : World)
    → ((t : Tables) → P t → (a : A) (t' : Tables) → s t ≡ some (a, t') → Q t')
    → Open P w
    → Open Q (in_tx s w).1
unfolding in_tx
Open-in_tx {A = A} P Q s w keeps h =
    if_split (λ (r : Result A × World). Open Q r.1) w.aborted (λ a. inl a)
      λ a. from_tx-Open Q _ (run (fault_now w.faults) s w.work) λ x t' e.
        keeps w.work (elim h [ inl b ↦ absurd (cc) | inr k ↦ k ]) x t'
          (run_lem (fault_now w.faults) s w.work e)

from_tx-err {ℓ} :
    {A : Type ℓ} (w : World) (o : Option (A × Tables)) {x : Error}
    → (from_tx w o).0 ≡ err x
    → (from_tx w o).1.aborted ≡ true
from_tx-err w none e = refl
from_tx-err w (some (a, t)) e = absurd (cc e)

-- A statement fails in an aborted transaction, or aborts it.
pub in_tx-err {ℓ} :
    {A : Type ℓ} (s : Statement A) (w : World) {x : Error}
    → (in_tx s w).0 ≡ err x
    → (in_tx s w).1.aborted ≡ true
unfolding in_tx
in_tx-err {A = A} s w {x} =
    if_split (λ (r : Result A × World). r.0 ≡ err x → r.1.aborted ≡ true) w.aborted (λ a _. a)
      (λ _. from_tx-err _ (run (fault_now w.faults) s w.work))

-- After an error that has aborted the transaction, or a continuation that has the property.
pub continue-Open {ℓ ℓ' κ} :
    {A : Type ℓ} {B : Type ℓ'} (P : Tables → Type κ) (r : Result A) (f : A → M B) (w : World)
    → ((x : Error) → r ≡ err x → w.aborted ≡ true)
    → ((a : A) → Open P (f a w).1)
    → Open P (continue r f w).1
continue-Open P (ok a) f w failed h = h a
continue-Open P (err x) f w failed h = inl (failed x refl)

-- A continuation that succeeds has a result to go on from.
pub continue-ok {ℓ ℓ'} :
    {A : Type ℓ} {B : Type ℓ'} (r : Result A) (f : A → M B) (w : World) (b : B)
    → (continue r f w).0 ≡ ok b
    → (a : A) × (r ≡ ok a) × ((f a w).0 ≡ ok b)
continue-ok (ok a) f w b e = (a, refl, e)
continue-ok (err x) f w b e = absurd (cc e)

from_pool-query {ℓ} :
    {A : Type ℓ} (b : Bool) (f : Tables → A) (w : World)
    → ((from_pool w (run b (query f) w.tables)).0 ≡ err db_failure)
      ⊎ ((from_pool w (run b (query f) w.tables)).0 ≡ ok (f w.tables))
from_pool-query true f w = inl refl
from_pool-query false f w = inr refl

-- A query fails, or gives what is committed.
pub pool-query {ℓ} :
    {A : Type ℓ} (f : Tables → A) (w : World)
    → ((pool (query f) w).0 ≡ err db_failure) ⊎ ((pool (query f) w).0 ≡ ok (f w.tables))
unfolding pool
pool-query f w = from_pool-query (fault_now w.faults) f _

from_pool_reads {ℓ} :
    {A : Type ℓ} (b : Bool) (f : Tables → A) (w : World)
    → b ≡ false
    → from_pool w (run b (query f) w.tables) ≡ (ok (f w.tables), w)
from_pool_reads true f w e = absurd (cc e)
from_pool_reads false f w e = refl

-- Where the next statement does not fail, a query gives what is committed.
pub pool_reads {ℓ} :
    {A : Type ℓ} (f : Tables → A) (w : World)
    → fault_now w.faults ≡ false
    → pool (query f) w ≡ (ok (f w.tables), record w { faults = faults_later w.faults })
unfolding pool
pool_reads f w e =
    from_pool_reads (fault_now w.faults) f (record w { faults = faults_later w.faults }) e

from_pool-ok {ℓ} :
    {A : Type ℓ} (b : Bool) (s : Statement A) (t : Tables) (w : World) (a : A)
    → (from_pool w (run b s t)).0 ≡ ok a
    → (t' : Tables) × (s t ≡ some (a, t'))
from_pool-ok true s t w a e = absurd (cc e)
from_pool-ok {A = A} false s t w a e = from_answer (s t) e
  where
    from_answer :
        (o : Option (A × Tables)) → (from_pool w o).0 ≡ ok a → (t' : Tables) × (o ≡ some (a, t'))
    from_answer none e = absurd (cc e)
    from_answer (some (x, t')) e = (t', cc e)

-- A statement that succeeds has given the result.
pub pool-ok {ℓ} :
    {A : Type ℓ} (s : Statement A) (w : World) (a : A)
    → (pool s w).0 ≡ ok a
    → (t : Tables) × (s w.tables ≡ some (a, t))
unfolding pool
pool-ok s w a e = from_pool-ok (fault_now w.faults) s w.tables _ a e

from_pool-tables {ℓ} :
    {A : Type ℓ} (w : World) (o : Option (A × Tables))
    → ((from_pool w o).1.tables ≡ w.tables)
      ⊎ ((a : A) × (t : Tables) × (o ≡ some (a, t)) × ((from_pool w o).1.tables ≡ t))
from_pool-tables w none = inl refl
from_pool-tables w (some (a, t)) = inr (a, t, refl, refl)

-- A statement commits what it gives, or nothing.
pub pool-tables {ℓ} :
    {A : Type ℓ} (s : Statement A) (w : World)
    → ((pool s w).1.tables ≡ w.tables)
      ⊎ ((a : A) × (t : Tables) × (s w.tables ≡ some (a, t)) × ((pool s w).1.tables ≡ t))
unfolding pool
pool-tables s w = elim (from_pool-tables _ (run (fault_now w.faults) s w.tables)) [
  | inl same ↦ inl same
  | inr (a, t, e, done) ↦ inr (a, t, run_lem (fault_now w.faults) s w.tables e, done)
]
