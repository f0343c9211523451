-- ===== src/Budget/Maintenance.antt =====
-- internal/budget/service.go: `CleanupExpiredReservations` and `ResetExpiredBudgets`, which timers
-- call. The metrics that they update are not modelled.
pub mod Cleanup
use quota_management.Prelude.{ℕ, Bool, ltb, if◌then◌else◌}
use quota_management.Db.World.{World, M, Result, ◌>>=◌, ◌>>◌, pure, modify}
use quota_management.Db.Reservations.{cleanup_expired_reservations}
use quota_management.Db.Budgets.{reset_expired_budgets}
use quota_management.Budget.Reserve.{invalidate_cache}

abbrev pub cleanup_expired : M ℕ
cleanup_expired = cleanup_expired_reservations

unfoldable reset_expired : M ℕ
reset_expired = do
  n ← reset_expired_budgets
  modify (λ w. if ltb 0 n then invalidate_cache w else w)
  pure n
