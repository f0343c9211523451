-- ===== src/Api/ModelCosts.antt =====
-- internal/api/handlers.go: the requests on the prices of models.
pub mod Stored
use quota_management.Prelude.{ℕ, String, Bool, true, false, Option, none, some, if◌then◌else◌}
use quota_management.Models.Budget.{ModelCost}
use quota_management.Db.World.{Result, ok, err, not_found, M, ◌>>=◌, pure, attempt}
use quota_management.Db.ModelCosts.{
  get_model_cost_by_id, create_model_cost, update_model_cost, delete_model_cost,
}
use quota_management.Auth.Identity.{Identity}
use quota_management.Auth.Rbac.{is_empty}
use quota_management.Api.Budgets.{is_regular_user}

-- The columns for cached tokens and the pattern, which no handler copies, are left out.
pub record CreateModelCostRequest : Type 0 where
  pub model_id : String
  pub provider : String
  pub input_cost_per_million : ℕ
  pub output_cost_per_million : ℕ

-- `requireOrgAdmin`, and the check on regular users, whom it has refused.
abbrev pub require_org_admin : Option Identity → M ℕ → M ℕ
require_org_admin none m = pure 401
require_org_admin (some i) m =
    if i.is_org then (if is_regular_user (some i) then pure 403 else m) else pure 403

abbrev pub cost_of : String → CreateModelCostRequest → ModelCost
cost_of model req = record {
  model_id = model;
  provider = req.provider;
  input_cost_per_million = req.input_cost_per_million;
  output_cost_per_million = req.output_cost_per_million;
}

abbrev pub cost_created : Result (Unit {0}) → M ℕ
cost_created (ok _) = pure 201
cost_created (err e) = pure 500

abbrev pub create_cost : Option CreateModelCostRequest → M ℕ
create_cost none = pure 400
create_cost (some req) =
    if is_empty req.model_id
    then pure 400
    else if is_empty req.provider
    then pure 400
    else (do done ← attempt (create_model_cost (cost_of req.model_id req)); cost_created done)

unfoldable pub create_model_cost_request : Option CreateModelCostRequest → Option Identity → M ℕ
create_model_cost_request body who = require_org_admin who (create_cost body)

abbrev pub cost_changed : ℕ → Result (Unit {0}) → M ℕ
cost_changed code (ok _) = pure code
cost_changed code (err not_found) = pure 404
cost_changed code (err e) = pure 500

-- The name in the path counts, not the one in the body.
abbrev pub update_cost : String → Option CreateModelCostRequest → M ℕ
update_cost model none = pure 400
update_cost model (some req) = do
  done ← attempt (update_model_cost (cost_of model req))
  cost_changed 200 done

unfoldable pub update_model_cost_request :
    String → Option CreateModelCostRequest → Option Identity → M ℕ
update_model_cost_request model body who = require_org_admin who (update_cost model body)

unfoldable pub delete_model_cost_request : String → Option Identity → M ℕ
delete_model_cost_request model who =
    require_org_admin who (do done ← attempt (delete_model_cost model); cost_changed 204 done)

abbrev pub cost_shown : Result ModelCost → M (ℕ × Option ModelCost)
cost_shown (ok c) = pure (200, some c)
cost_shown (err not_found) = pure (404, none)
cost_shown (err e) = pure (500, none)

-- The status and the price.
unfoldable pub get_model_cost_request : String → Option Identity → M (ℕ × Option ModelCost)
get_model_cost_request model none = pure (401, none)
get_model_cost_request model (some i) =
    if is_regular_user (some i)
    then pure (403, none)
    else (do found ← attempt (get_model_cost_by_id model); cost_shown found)
