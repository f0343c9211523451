-- ===== src/Api/Budgets/Create.antt =====
-- internal/api/handlers.go: `CreateBudget`.
pub mod Rows
pub mod Adds
use quota_management.Prelude.{
  ℕ, String, ◌≡◌, Bool, true, false, ◌&&◌, ◌||◌, not, Option, none, some, is_some, if◌then◌else◌,
}
use quota_management.Models.Budget.{
  BudgetDefinition, BudgetPeriod, BudgetApproval, EntityType, org, user, ApprovalStatus, pending,
  approved,
}
use quota_management.Db.World.{Result, ok, err, World, M, ◌>>=◌, ◌>>◌, pure, attempt}
use quota_management.Db.Budgets.{
  get_budget_by_id, get_budget_by_entity, get_budget_by_match_expression, create_budget,
}
use quota_management.Db.Approvals.{create_budget_approval}
use quota_management.Auth.Identity.{Identity}
use quota_management.Auth.Rbac.{is_empty, get_ownership_from_identity}
use quota_management.Api.Approvals.{text_or_empty, is_pending}
use quota_management.Api.Budgets.{
  CreateBudgetRequest, is_regular_user, caller_is_org, or_else, non_empty, too_short,
  exceeds_parent,
}

abbrev pub is_user : EntityType → Bool
is_user user = true
is_user _ = false

abbrev pub is_org_type : EntityType → Bool
is_org_type org = true
is_org_type _ = false

abbrev for_user : Option EntityType → Bool
for_user none = false
for_user (some e) = is_user e

-- A regular user may create budgets of users alone.
abbrev pub is_barred : Option Identity → CreateBudgetRequest → Bool
is_barred who req = is_regular_user who && not (for_user req.entity_type)

abbrev pub is_incomplete : CreateBudgetRequest → BudgetPeriod → Bool
is_incomplete req p =
    is_empty req.name || (is_empty req.match_expression || too_short p req.custom_period_seconds)

-- What the request sets, where the caller may set it, or what the parent gives.
abbrev pub setting : Option Identity → EntityType → Option Bool → Bool → Bool
setting who e asked inherited =
    if is_org_type e || caller_is_org who then or_else inherited asked else inherited

abbrev given_text : Option String → Option String → Option String
given_text none before = before
given_text (some s) before = if is_empty s then before else some s

abbrev parent_team : EntityType → Option BudgetDefinition → Option String
parent_team e none = none
parent_team e (some p) = if is_user e then p.owner_team_id else none

pub record Owners : Type 0 where
  pub org_owner : Option String
  pub team_owner : Option String
  pub user_owner : Option String

-- Where the request names no organisation and no team, the caller's are taken: the team alone for a
-- budget without a parent.
abbrev from_identity : Option Identity → Bool → Owners → Owners
from_identity none has_parent o = o
from_identity (some i) has_parent o =
    if is_some o.org_owner || is_some o.team_owner
    then o
    else if not has_parent && not (is_empty i.team_id)
    then record o { team_owner = some i.team_id }
    else record o { org_owner = non_empty i.org_id; team_owner = non_empty i.team_id }

abbrev own_user : EntityType → Option Identity → Owners → Owners
own_user e none o = o
own_user e (some i) o =
    if is_user e && not (is_empty i.subject) then record o { user_owner = some i.subject } else o

abbrev pub owners :
    CreateBudgetRequest → EntityType → Option Identity → Option BudgetDefinition → Owners
owners req e who parent = own_user e who (
    from_identity who (is_some req.parent_id) (record {
      org_owner = given_text req.owner_org_id none;
      team_owner = given_text req.owner_team_id (parent_team e parent);
      user_owner = given_text req.owner_user_id none;
    }))

-- A child that another than an organisation's administrator creates has to be approved.
abbrev pub initial_status : Option Identity → Bool → ApprovalStatus
initial_status none has_parent = approved
initial_status (some i) has_parent = if not i.is_org && has_parent then pending else approved

abbrev subject_of : Option Identity → Option String
subject_of none = none
subject_of (some i) = non_empty i.subject

abbrev email_of : Option Identity → Option String
email_of none = none
email_of (some i) = non_empty i.email

abbrev inherited : (BudgetDefinition → Bool) → Option BudgetDefinition → Bool
inherited f none = false
inherited f (some p) = f p

-- The budget that the request asks for.
unfoldable pub draft :
    ℕ
    → CreateBudgetRequest
    → EntityType
    → BudgetPeriod
    → Option Identity
    → Option ℕ
    → Option BudgetDefinition
    → BudgetDefinition
draft i req e p who parent_id parent =
    let o = owners req e who parent in
    record {
      id = i;
      entity_type = e;
      name = req.name;
      match_expression = req.match_expression;
      budget_amount_usd = req.budget_amount_usd;
      period = p;
      custom_period_seconds = req.custom_period_seconds;
      warning_threshold_pct = or_else 80 req.warning_threshold_pct;
      parent_id = parent_id;
      isolated = setting who e req.isolated (inherited (λ q. q.isolated) parent);
      allow_fallback = setting who e req.allow_fallback (inherited (λ q. q.allow_fallback) parent);
      enabled = or_else true req.enabled;
      disabled_by_user_id = none;
      disabled_by_email = none;
      disabled_by_is_org = false;
      disabled_at = none;
      current_period_start = 0;
      current_usage_usd = 0;
      pending_usage_usd = 0;
      description = req.description;
      owner_org_id = o.org_owner;
      owner_team_id = o.team_owner;
      owner_user_id = o.user_owner;
      approval_status = initial_status who (is_some parent_id);
      created_by_user_id = subject_of who;
      created_by_email = email_of who;
      rejection_count = 0;
      version = 0;
    }

abbrev submission : BudgetDefinition → BudgetApproval
submission b = record {
  budget_id = b.id;
  attempt_number = 1;
  action = "submitted";
  actor_user_id = text_or_empty b.created_by_user_id;
  actor_email = text_or_empty b.created_by_email;
  reason = "";
}

-- The record of a submission is written after the row, and its failure is ignored.
abbrev pub submitted : BudgetDefinition → Result (Unit {0}) → M ℕ
submitted b (err e) = pure 500
submitted b (ok _) =
    if is_pending b.approval_status
    then attempt (create_budget_approval (submission b)) >> pure 201
    else pure 201

-- A budget that the search finds is in the way; an error of the search is not.
abbrev pub unless_found : Result BudgetDefinition → M ℕ → M ℕ
unless_found (ok b) m = pure 409
unless_found (err e) m = m

unfoldable pub insert_draft : BudgetDefinition → M ℕ
insert_draft b = do
  named ← attempt (get_budget_by_entity b.entity_type b.name)
  unless_found named do
    matching ← attempt (get_budget_by_match_expression b.entity_type b.match_expression)
    unless_found matching do done ← attempt (create_budget b); submitted b done

abbrev pub checked_draft : Option BudgetDefinition → BudgetDefinition → M ℕ
checked_draft parent b = if exceeds_parent parent b then pure 400 else insert_draft b

abbrev pub found_parent : Result BudgetDefinition → Option BudgetDefinition
found_parent (ok p) = some p
found_parent (err e) = none

-- An error of the search for the parent is not reported: the budget then has nothing to inherit, and
-- its amount is not compared.
unfoldable pub create_with_parent :
    ℕ → CreateBudgetRequest → Option Identity → EntityType → BudgetPeriod → Option (Option ℕ) → M ℕ
create_with_parent i req who e p none = checked_draft none (draft i req e p who none none)
create_with_parent i req who e p (some none) = pure 400
create_with_parent i req who e p (some (some q)) = do
  found ← attempt (get_budget_by_id q)
  checked_draft (found_parent found) (draft i req e p who (some q) (found_parent found))

abbrev pub with_fields :
    Option EntityType → Option BudgetPeriod → (EntityType → BudgetPeriod → M ℕ) → M ℕ
with_fields none p f = pure 400
with_fields (some e) none f = pure 400
with_fields (some e) (some p) f = f e p

-- `CreateBudget`, under the id that the new row is given.
unfoldable pub create_budget_request : ℕ → Option CreateBudgetRequest → Option Identity → M ℕ
create_budget_request i none who = pure 400
create_budget_request i (some req) who =
    if is_barred who req
    then pure 403
    else with_fields req.entity_type req.period (λ e p.
      if is_incomplete req p then pure 400 else create_with_parent i req who e p req.parent_id)
