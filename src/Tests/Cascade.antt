-- ===== src/Tests/Cascade.antt =====
-- Deletions of a budget with its descendants.
use quota_management.Prelude.{ℕ, suc, arith, ◌≡◌, refl, ◌⊎◌, some, List, [], ◌∷◌, ◌++◌, length}
use quota_management.Db.World.{
  Error, not_found, ok, err, pool, in_tx, begin_tx, commit, with_rollback,
}
use quota_management.Db.Cascade.{
  descendants, delete_budget_cascade, get_all_descendants, delete_each, levels,
}
use quota_management.Db.Cascade.Erased.{Erased}
use quota_management.Db.Cascade.Atomic.{delete_budget_cascade_atomic}
use quota_management.Db.Cascade.Total.{descendants_total}
use quota_management.Tests.{store}
use quota_management.Tests.Records.{rank}

-- The user's budget stands below the team's, which stands below the organisation's.
deepest_first : descendants 1 store.tables ≡ some (3 ∷ 2 ∷ [])
unfolding descendants levels
deepest_first = refl

deletes_all_three : (delete_budget_cascade 1 store).0 ≡ ok 3
unfolding delete_budget_cascade get_all_descendants descendants levels delete_each pool begin_tx
    with_rollback in_tx commit
deletes_all_three = refl

-- A missing budget is reported, and the transaction is left open.
missing_budget : (delete_budget_cascade 9 store).0 ≡ err not_found
unfolding delete_budget_cascade get_all_descendants descendants levels delete_each pool begin_tx
    with_rollback in_tx commit
missing_budget = refl

delete_budget_cascade_atomic_example :
    (((delete_budget_cascade 2 store).1.tables ≡ store.tables)
      × ((e : Error) × ((delete_budget_cascade 2 store).0 ≡ err e)))
    ⊎ ((ids : List ℕ) × ((descendants 2 store.tables ≡ some ids)
          × (((delete_budget_cascade 2 store).0 ≡ ok (suc (length ids)))
              × Erased (ids ++ (2 ∷ [])) store.tables (delete_budget_cascade 2 store).1.tables)))
delete_budget_cascade_atomic_example = delete_budget_cascade_atomic 2 store

descendants_total_example : (ids : List ℕ) × (descendants 1 store.tables ≡ some ids)
descendants_total_example =
    descendants_total rank 1 store.tables
      (
        (omega arith, λ p e. absurd (cc e)),
        (
          (omega arith, λ p e. let same : 1 ≡ p = cc e in omega arith),
          ((omega arith, λ p e. let same : 2 ≡ p = cc e in omega arith), tt),
        ),
      )
      (omega arith)
