-- ===== src/Db/Cascade/Atomic.antt =====
-- internal/db/repository.go: the outcomes of `DeleteBudgetCascade`.
use quota_management.Prelude.{
  ℕ, suc, ◌==◌, ◌≡◌, refl, ◌∙◌, subst, ap, sym, Bool, Option, none, some, List, [], ◌∷◌, ◌++◌,
  length, if_lem, ◌⊎◌, inl, inr,
}
use quota_management.Db.World.{
  Error, db_failure, Result, ok, err, World, Tables, M, ◌>>=◌, ◌>>◌, continue, not_found, pure,
  begin_tx, commit, with_rollback, settle,
}
use quota_management.Db.Hierarchy.{rows_read}
use quota_management.Db.Keeps.{
  pool-ok, Keeps-read, stored, Keeps-begin_tx, begin_tx_lem, commit_lem, Keeps-with_rollback, Keeps,
}
use quota_management.Db.Ways.{bind-Ways, with_rollback_ok}
use quota_management.Db.Cascade.Erased.{Erased, deletions, deletions-Erased, deletions-Keeps}
use quota_management.Db.Cascade.{
  descendants, get_all_descendants, delete_budget_cascade, commit_deleted,
}

-- Nothing has changed and there is an error, or the ids are erased and the count is returned.
abbrev Whole : List ℕ → ℕ → Tables → Result ℕ × World → Type 0
Whole ids count t r =
    ((r.1.tables ≡ t) × ((e : Error) × (r.0 ≡ err e)))
    ⊎ ((r.0 ≡ ok count) × Erased ids t r.1.tables)

after_commit :
    (ids : List ℕ) (count : ℕ) (t : Tables) (r : Result (Unit {0})) (w : World)
    → ((w.tables ≡ t) × (r ≡ err db_failure)) ⊎ (Erased ids t w.tables × (r ≡ ok tt))
    → Whole ids count t (continue (settle r w).0 (λ _. pure count) (settle r w).1)
after_commit ids count t (ok a) w h = elim h [
  | inl (same, e) ↦ absurd (cc e)
  | inr (erased, _) ↦ inr (refl, erased)
]
after_commit ids count t (err x) w h = elim h [
  | inl (same, _) ↦ inl (same, (x, refl))
  | inr (_, e) ↦ absurd (cc e)
]

commit_deleted-Whole :
    (ids : List ℕ) (count n : ℕ) (t : Tables) (w : World)
    → w.tables ≡ t
    → Erased ids t w.work
    → Whole ids count t (commit_deleted count n w)
unfolding with_rollback
commit_deleted-Whole ids count n t w same erased =
    if_lem (λ (m : M ℕ). Whole ids count t (m w)) (n == 0) (inl (same, (not_found, refl)))
      (after_commit ids count t (commit w).0 (commit w).1
        (elim (commit_lem (Erased ids t) w (inr erased)) [
          | inl (stays, e) ↦ inl (stays ∙ same, e)
          | inr x ↦ inr x
        ]))

-- What follows the reading of the ids.
abbrev transaction : List ℕ → ℕ → M ℕ
transaction ids i = with_rollback (deletions ids i) >>= commit_deleted (suc (length ids))

transaction-Whole :
    (ids : List ℕ) (i : ℕ) (t : Tables) (w : World)
    → w.tables ≡ t
    → w.work ≡ t
    → Whole (ids ++ (i ∷ [])) (suc (length ids)) t (transaction ids i w)
transaction-Whole ids i t w same seen =
    elim (bind-Ways (with_rollback (deletions ids i)) (commit_deleted (suc (length ids))) w) [
      | inl (x, (failed, ended)) ↦
          subst (Whole (ids ++ (i ∷ [])) (suc (length ids)) t) (sym ended) (inl (stays, (x, refl)))
      | inr (n, (done, next)) ↦
          let (inner, world) = with_rollback_ok (deletions ids i) w done in
          subst (Whole (ids ++ (i ∷ [])) (suc (length ids)) t) (sym next) (
            commit_deleted-Whole (ids ++ (i ∷ [])) (suc (length ids)) n t
              (with_rollback (deletions ids i) w).1 stays
              (subst (λ (v : World). Erased (ids ++ (i ∷ [])) t v.work) (sym world)
                (subst (λ u. Erased (ids ++ (i ∷ [])) u (deletions ids i w).1.work) seen
                  (deletions-Erased ids i w n inner))))
    ]
  where
    stays : (with_rollback (deletions ids i) w).1.tables ≡ t
    stays = Keeps-with_rollback (deletions ids i) (deletions-Keeps ids i) w ∙ same

begun-Whole :
    (ids : List ℕ) (i : ℕ) (t : Tables) (w : World)
    → w.tables ≡ t
    → Whole (ids ++ (i ∷ [])) (suc (length ids)) t ((begin_tx >> transaction ids i) w)
begun-Whole ids i t w same = elim (bind-Ways begin_tx (λ _. transaction ids i) w) [
  | inl (x, (failed, ended)) ↦
      subst (Whole (ids ++ (i ∷ [])) (suc (length ids)) t) (sym ended)
        (inl (Keeps-begin_tx w ∙ same, (x, refl)))
  | inr (u, (done, next)) ↦ subst (Whole (ids ++ (i ∷ [])) (suc (length ids)) t) (sym next) (
      transaction-Whole ids i t (begin_tx w).1 (Keeps-begin_tx w ∙ same)
        (begin_tx_lem w done ∙ same))
]

rows_read_lem {ℓ} :
    {A : Type ℓ} (o : Option A) (t : Tables) {a : A} {t' : Tables}
    → rows_read o t ≡ some (a, t')
    → (o ≡ some a) × (t' ≡ t)
rows_read_lem none t e = absurd (cc e)
rows_read_lem (some x) t e = (cc e, cc e)

get_all_descendants-Keeps : (i : ℕ) → Keeps stored (get_all_descendants i)
unfolding get_all_descendants
get_all_descendants-Keeps i =
    Keeps-read (λ t. rows_read (descendants i t) t)
      (λ t a t' e. (rows_read_lem (descendants i t) t e).1)

get_all_descendants_ok :
    (i : ℕ) (w : World) (ids : List ℕ)
    → (get_all_descendants i w).0 ≡ ok ids
    → descendants i w.tables ≡ some ids
unfolding get_all_descendants
get_all_descendants_ok i w ids e =
    let (t, read) = pool-ok (λ t. rows_read (descendants i t) t) w ids e in
    (rows_read_lem (descendants i w.tables) w.tables read).0

-- Whichever statements fail, the deletion of a budget with its descendants changes no committed
-- table and returns an error, or it returns one more than the number of the budget's descendants,
-- and exactly these and the budget are gone, with their reservations.
pub delete_budget_cascade_atomic :
    (i : ℕ) (w : World)
    → (((delete_budget_cascade i w).1.tables ≡ w.tables)
        × ((e : Error) × ((delete_budget_cascade i w).0 ≡ err e)))
      ⊎ ((ids : List ℕ) × ((descendants i w.tables ≡ some ids)
            × (((delete_budget_cascade i w).0 ≡ ok (suc (length ids)))
                × Erased (ids ++ (i ∷ [])) w.tables (delete_budget_cascade i w).1.tables)))
unfolding delete_budget_cascade
delete_budget_cascade_atomic i w =
    elim (bind-Ways (get_all_descendants i) (λ ids. begin_tx >> transaction ids i) w) [
      | inl (x, (failed, ended)) ↦ subst (Cascaded i w.tables) (sym ended) (inl (stays, (x, refl)))
      | inr (ids, (done, next)) ↦
          subst (Cascaded i w.tables) (sym next)
            (elim (begun-Whole ids i w.tables (get_all_descendants i w).1 stays) [
              | inl unchanged ↦ inl unchanged
              | inr whole ↦ inr (ids, (get_all_descendants_ok i w ids done, whole))
            ])
    ]
  where
    stays : (get_all_descendants i w).1.tables ≡ w.tables
    stays = ap (λ (s : Tables × (Tables × Bool)). s.0) (get_all_descendants-Keeps i w)

    Cascaded : ℕ → Tables → Result ℕ × World → Type 0
    Cascaded i t r =
        ((r.1.tables ≡ t) × ((e : Error) × (r.0 ≡ err e)))
        ⊎ ((ids : List ℕ) × ((descendants i t ≡ some ids)
              × ((r.0 ≡ ok (suc (length ids))) × Erased (ids ++ (i ∷ [])) t r.1.tables)))
