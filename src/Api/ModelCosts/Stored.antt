-- ===== src/Api/ModelCosts/Stored.antt =====
-- internal/api/handlers.go: a price that is written is read again.
use quota_management.Prelude.{ℕ, String, ◌≡◌, Bool, true, false, Option, some, find_first, ◌==◌}
use quota_management.Models.Budget.{ModelCost}
use quota_management.Db.World.{Result, ok, err, World, M}
use quota_management.Db.ModelCosts.{has_model}
use quota_management.Auth.Identity.{Identity}
use quota_management.Api.ModelCosts.{
  CreateModelCostRequest, cost_of, create_model_cost_request, update_model_cost_request,
}

-- A response with the code leaves the price in the table.
abbrev has_code : ℕ → Result ℕ → Bool
has_code code (ok n) = n == code
has_code code (err e) = false

abbrev Stores : ℕ → ModelCost → M ℕ → World → Type 0
Stores code c m w =
    has_code code (m w).0 ≡ true
    → find_first (has_model c.model_id) (m w).1.tables.model_costs ≡ some c

-- A request that writes a price: its handler, the code of its success, and the price.
pub data Change : Type 0 where
  create : CreateModelCostRequest → Change
  update : String → CreateModelCostRequest → Change

abbrev pub handle : Change → Option Identity → M ℕ
handle (create req) who = create_model_cost_request (some req) who
handle (update model req) who = update_model_cost_request model (some req) who

abbrev pub done_code : Change → ℕ
done_code (create req) = 201
done_code (update model req) = 200

abbrev pub price : Change → ModelCost
price (create req) = cost_of req.model_id req
price (update model req) = cost_of model req
