-- ===== src/Auth/Rbac.antt =====
-- internal/auth/rbac.go: the checks on an identity. `none` is a caller without one.
use quota_management.Prelude.{
  ℕ, String, arith, ◌≡◌, Bool, true, false, ◌&&◌, not, Option, none, some, List, [], ◌∷◌, str_eq,
  if◌then◌else◌,
}
use quota_management.Auth.Identity.{Identity}

abbrev pub is_empty : String → Bool
is_empty s = str_eq s ""

-- Both names are given, and they are equal.
abbrev pub is_same : String → String → Bool
is_same a b = not (is_empty a) && str_eq a b

abbrev pub can_view_budget : Option Identity → String → String → Bool
can_view_budget none org team = false
can_view_budget (some i) org team =
    if i.is_org && is_same i.org_id org
    then true
    else if is_same i.team_id team
    then true
    else is_empty org && is_empty team

abbrev pub can_manage_budget : Option Identity → String → String → Bool
can_manage_budget = can_view_budget

abbrev pub can_view_user_budget : Option Identity → String → String → Bool
can_view_user_budget none user team = false
can_view_user_budget (some i) user team =
    if i.is_org
    then true
    else if i.is_team_admin && is_same i.team_id team
    then true
    else is_same i.subject user

abbrev pub can_create_budget_for_org : Option Identity → String → Bool
can_create_budget_for_org none org = false
can_create_budget_for_org (some i) org = i.is_org && str_eq i.org_id org

abbrev pub can_create_budget_for_team : Option Identity → String → String → Bool
can_create_budget_for_team none org team = false
can_create_budget_for_team (some i) org team =
    if i.is_org && str_eq i.org_id org then true else not i.is_org && is_same i.org_id org

pub record BudgetOwnership : Type 0 where
  pub index : ℕ
  pub owner_org_id : String
  pub owner_team_id : String

abbrev pub filter_budgets_by_identity : Option Identity → List BudgetOwnership → List ℕ
filter_budgets_by_identity who [] = []
filter_budgets_by_identity who (b ∷ bs) =
    let rest = filter_budgets_by_identity who bs in
    if can_view_budget who b.owner_org_id b.owner_team_id then b.index ∷ rest else rest

abbrev pub get_ownership_from_identity : Option Identity → String × String
get_ownership_from_identity none = ("", "")
get_ownership_from_identity (some i) = (i.org_id, i.team_id)

abbrev pub can_approve_or_reject : Option Identity → String → String → Bool
can_approve_or_reject none org team = false
can_approve_or_reject (some i) org team =
    if i.is_org && is_same i.org_id org then true else i.is_team_admin && is_same i.team_id team

abbrev pub can_resubmit : Option Identity → String → Bool
can_resubmit none creator = false
can_resubmit (some i) creator = is_same i.subject creator

-- Who may decide on a budget with an owner may also view and manage it.
pub can_approve_or_reject_views :
    (who : Option Identity) (org team : String)
    → can_approve_or_reject who org team ≡ true
    → (can_view_budget who org team ≡ true) × (can_manage_budget who org team ≡ true)
can_approve_or_reject_views none org team h = (h, h)
can_approve_or_reject_views (some i) org team h = (ground arith, ground arith)
