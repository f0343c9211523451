-- ===== src/Budget/Reserve/Atomic.antt =====
-- A check that does not let the request pass leaves no trace in the database.
use quota_management.Prelude.{String, ◌≡◌, Bool, Option, ◌⊎◌, inl, inr}
use quota_management.Config.{Config}
use quota_management.Db.World.{World}
use quota_management.Budget.Reserve.{check_and_reserve_budget}
use quota_management.Budget.Reserve.Grant.{Granted, check_and_reserve-Outcome}

-- Whichever statements fail, a check that reserves changes no committed table, or it returns a
-- result that lets the request pass: an error or a denial commits nothing.
pub check_and_reserve_atomic :
    (cfg : Config) (evaluate : String → Option Bool) (model request : String) (w : World)
    → ((check_and_reserve_budget cfg evaluate model request w).1.tables ≡ w.tables)
      ⊎ Granted (check_and_reserve_budget cfg evaluate model request w).0
check_and_reserve_atomic cfg evaluate model request w =
    elim (check_and_reserve-Outcome (λ _. Unit {0}) cfg request evaluate model w
      λ est free w' e. inr tt) [ inl same ↦ inl same | inr (passes, _) ↦ inr passes ]
