-- ===== src/Api/Listings/Approvals.antt =====
-- internal/api/approval_handlers.go: `ListPendingApprovals`, `CountPendingApprovals` and
-- `ListApprovalHistory`.
use quota_management.Prelude.{
  ℕ, String, ◌+◌, ◌-◌, Option, none, some, List, [], length, take, drop, ltb, if◌then◌else◌,
}
use quota_management.Models.Budget.{BudgetDefinition, BudgetApproval}
use quota_management.Models.Pagination.{
  PaginationParams, parse_pagination, offset, new_pagination_meta,
}
use quota_management.Db.World.{Result, ok, err, M, ◌>>=◌, pure, attempt}
use quota_management.Db.Listings.{
  list_pending_approvals, count_pending_approvals, list_all_approval_history, list_approval_history,
}
use quota_management.Auth.Identity.{Identity}
use quota_management.Auth.Rbac.{is_empty}
use quota_management.Api.Budgets.{is_regular_user}
use quota_management.Api.Listings.{Answer, shown, refused, show_page}

unfoldable pub list_pending : Option ℕ → Option ℕ → Option Identity → M (Answer BudgetDefinition)
list_pending page size none = pure (shown [] (new_pagination_meta (parse_pagination page size) 0))
list_pending page size (some i) =
    if is_regular_user (some i)
    then pure (refused 403)
    else if is_empty i.org_id
    then pure (shown [] (new_pagination_meta (parse_pagination page size) 0))
    else show_page (parse_pagination page size) (list_pending_approvals i.org_id)

abbrev count_shown : Result ℕ → M (ℕ × Option ℕ)
count_shown (ok n) = pure (200, some n)
count_shown (err e) = pure (500, none)

unfoldable pub count_pending : Option Identity → M (ℕ × Option ℕ)
count_pending none = pure (200, some 0)
count_pending (some i) =
    if is_regular_user (some i)
    then pure (403, none)
    else if is_empty i.org_id
    then pure (200, some 0)
    else (do n ← attempt (count_pending_approvals i.org_id); count_shown n)

-- An administrator of an organisation asks by organisation, another caller by team; a caller without
-- an identity, and a team administrator without a team, see the records of all.
abbrev pub history_org : Option Identity → String
history_org none = ""
history_org (some i) = if i.is_org then i.org_id else ""

abbrev pub history_team : Option Identity → String
history_team none = ""
history_team (some i) = if i.is_org then "" else i.team_id

abbrev at_most : ℕ → ℕ → ℕ
at_most n k = if ltb n k then n else k

-- The records of one budget are cut by the handler.
abbrev sliced : PaginationParams → Result (List BudgetApproval) → M (Answer BudgetApproval)
sliced p (err e) = pure (refused 500)
sliced p (ok rows) =
    let start : ℕ = at_most (length rows) (offset p) in
    let end : ℕ = at_most (length rows) (offset p + p.page_size) in
    pure (shown (take (end - start) (drop start rows)) (new_pagination_meta p (length rows)))

-- The query is absent, no id, or the id of a budget.
abbrev history_of :
    PaginationParams → Option Identity → Option (Option ℕ) → M (Answer BudgetApproval)
history_of p who none = show_page p (list_all_approval_history (history_org who) (history_team who))
history_of p who (some none) = pure (refused 400)
history_of p who (some (some b)) = do rows ← attempt (list_approval_history b); sliced p rows

unfoldable pub list_history :
    Option ℕ → Option ℕ → Option (Option ℕ) → Option Identity → M (Answer BudgetApproval)
list_history page size b who =
    if is_regular_user who
    then pure (refused 403)
    else history_of (parse_pagination page size) who b
