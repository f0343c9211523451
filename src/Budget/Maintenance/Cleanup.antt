-- ===== src/Budget/Maintenance/Cleanup.antt =====
-- The cleanup of expired reservations releases exactly what they held.
use quota_management.Prelude.{ℕ, ◌+◌, ◌≡◌, Bool, false, ◌||◌, List, [], ◌∷◌, if◌then◌else◌, ◌==◌}
use quota_management.Models.Budget.{BudgetDefinition, RequestReservation}
use quota_management.Db.World.{World}
use quota_management.Db.Reservations.{cost_of}

lists : ℕ → List ℕ → Bool
lists i [] = false
lists i (j ∷ js) = (j == i) || lists i js

Distinct : List ℕ → Type 0
unfolding lists
Distinct [] = Unit
Distinct (j ∷ js) = (lists j js ≡ false) × Distinct js

-- The budget holds what the live reservations do, and what the expired ones did if it is still to
-- be released.
abbrev Due : List RequestReservation → List RequestReservation → List ℕ → BudgetDefinition → Type 0
Due gone live todo b =
    b.pending_usage_usd ≡ cost_of live b.id + (if lists b.id todo then cost_of gone b.id else 0)
