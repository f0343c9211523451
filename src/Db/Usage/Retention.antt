-- ===== src/Db/Usage/Retention.antt =====
-- internal/db/repository.go: what `CreateUsageRecordInTx` keeps.
use quota_management.Prelude.{
  ℕ, zero, suc, ◌≡◌, refl, ap, ◌∙◌, Bool, true, false, not, List, [], ◌∷◌, take, select, Bool-cases,
  inl, inr, ==_iff,
}
use quota_management.Models.Budget.{UsageRecord}
use quota_management.Db.World.{World, ok, fault_now, faults_later}
use quota_management.Db.Ways.{in_tx_runs}
use quota_management.Db.Usage.{
  keep_newest, usage_of, insert_usage, prune_usage, create_usage_record_in_tx,
}

abbrev of_others : ℕ → UsageRecord → Bool
of_others i u = not (usage_of i u)

keep_newest-others :
    (n i : ℕ) (us : List UsageRecord)
    → select (of_others i) (keep_newest n i us) ≡ select (of_others i) us
keep_newest-others n i [] = refl
keep_newest-others zero i (u ∷ us) = elim (Bool-cases (usage_of i u)) [
  | inl mine ↦ rw mine (keep_newest-others zero i us)
  | inr other ↦ rw (other, other, keep_newest-others zero i us) refl
]
keep_newest-others (suc n) i (u ∷ us) = elim (Bool-cases (usage_of i u)) [
  | inl mine ↦ rw (mine, mine) (keep_newest-others n i us)
  | inr other ↦ rw (other, other, keep_newest-others (suc n) i us) refl
]

keep_newest-mine :
    (n i : ℕ) (us : List UsageRecord)
    → select (usage_of i) (keep_newest n i us) ≡ take n (select (usage_of i) us)
keep_newest-mine zero i [] = refl
keep_newest-mine (suc n) i [] = refl
keep_newest-mine zero i (u ∷ us) = elim (Bool-cases (usage_of i u)) [
  | inl mine ↦ rw mine (keep_newest-mine zero i us)
  | inr other ↦ rw (other, other) (keep_newest-mine zero i us)
]
keep_newest-mine (suc n) i (u ∷ us) = elim (Bool-cases (usage_of i u)) [
  | inl mine ↦ rw (mine, mine) (ap (λ rest. u ∷ rest) (keep_newest-mine n i us))
  | inr other ↦ rw (other, other) (keep_newest-mine (suc n) i us)
]

-- The table is one with the record added and the records of its budget cut to the newest 30.
abbrev pub Retains : UsageRecord → List UsageRecord → List UsageRecord → Type 0
Retains u old new =
    (select (usage_of u.budget_id) new ≡ take 30 (u ∷ select (usage_of u.budget_id) old))
    × (select (λ v. not (usage_of u.budget_id v)) new
        ≡ select (λ v. not (usage_of u.budget_id v)) old)

pruned-Retains :
    (u : UsageRecord) (us : List UsageRecord) → Retains u us (keep_newest 30 u.budget_id (u ∷ us))
pruned-Retains u us = (
  keep_newest-mine 30 u.budget_id (u ∷ us) ∙ ap (take 30) with_it,
  keep_newest-others 30 u.budget_id (u ∷ us) ∙ without_it,
)
  where
    mine : usage_of u.budget_id u ≡ true
    mine = (==_iff u.budget_id u.budget_id).1 refl

    with_it : select (usage_of u.budget_id) (u ∷ us) ≡ u ∷ select (usage_of u.budget_id) us
    with_it = rw mine refl

    without_it : select (of_others u.budget_id) (u ∷ us) ≡ select (of_others u.budget_id) us
    without_it = rw mine refl

-- Where the transaction is not aborted and the next two statements do not fail, the creation of a
-- usage record in it returns, commits nothing yet, and leaves to the transaction all other tables as
-- they were, the usage records of the record's budget cut to the newest 30 of them, with the record
-- first and the others in their order, and every record of the other budgets.
pub create_usage_record_in_tx-Retains :
    (u : UsageRecord) (w : World)
    → w.aborted ≡ false
    → fault_now w.faults ≡ false
    → fault_now (faults_later w.faults) ≡ false
    → let r = create_usage_record_in_tx u w in
      (r.0 ≡ ok tt)
      × (r.1.tables ≡ w.tables)
      × (r.1.work ≡ record w.work { usage_records = r.1.work.usage_records })
      × Retains u w.work.usage_records r.1.work.usage_records
unfolding create_usage_record_in_tx
create_usage_record_in_tx-Retains u w open_still first second =
    rw
      (
        in_tx_runs (insert_usage u) w open_still first,
        in_tx_runs (prune_usage u.budget_id)
            (record w { faults = faults_later w.faults; work = insert_usage u w.work }) open_still
            second,
      )
      (refl, refl, refl, pruned-Retains u w.work.usage_records)
