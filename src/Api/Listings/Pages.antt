-- ===== src/Api/Listings/Pages.antt =====
-- internal/api/handlers.go: the pages of a listing, one after the other.
use quota_management.Prelude.{
  ℕ, zero, suc, ◌≡◌, Bool, Option, none, some, List, [], ◌++◌, take, drop, if◌then◌else◌, select,
  true, false, ◌⊎◌,
}
use quota_management.Models.Budget.{BudgetDefinition, approved}
use quota_management.Models.Pagination.{PaginationParams, parse_pagination, offset}
use quota_management.Db.World.{World, Tables, Result, ok, err}
use quota_management.Db.Listings.{is_pending_of, paginated}
use quota_management.Auth.Identity.{Identity}
use quota_management.Auth.Rbac.{is_empty}
use quota_management.Api.Budgets.{is_regular_user}
use quota_management.Api.Listings.{Answer, shown, refused, show_page}

abbrev pub rows_of {ℓ} : {A : Type ℓ} → Result (Answer A) → List A
rows_of (ok (shown rows m)) = rows
rows_of (ok (refused n)) = []
rows_of (err e) = []

-- How many pages the response counts.
abbrev pub pages_of {ℓ} : {A : Type ℓ} → Result (Answer A) → ℕ
pages_of (ok (shown rows m)) = m.total_pages
pages_of (ok (refused n)) = 0
pages_of (err e) = 0

-- The rows of the pages from 1 to `n`.
abbrev pub walk {ℓ} : {A : Type ℓ} → (ℕ → List A) → ℕ → List A
walk page zero = []
walk page (suc n) = walk page n ++ page (suc n)

-- Where neither statement fails, a listing gives its page and the number of all rows.
module _ {ℓ} {A : Type ℓ} (rows : Tables → List A) (order : List A → List A) where
  abbrev page_at : Tables → PaginationParams → List A
  page_at t p = take p.page_size (drop (offset p) (order (rows t)))

  abbrev answered : Option ℕ → Option ℕ → World → Result (Answer A)
  answered page size w = (show_page (parse_pagination page size) (paginated rows order) w).0

-- The budgets that wait for the approval of the caller's organisation.
abbrev pub awaiting : Option Identity → List BudgetDefinition → List BudgetDefinition
awaiting none bs = []
awaiting (some i) bs =
    if is_regular_user (some i)
    then []
    else if is_empty i.org_id
    then []
    else select (is_pending_of i.org_id) bs

-- Approved, and enabled if the request asks for that.
abbrev pub Open : Bool → BudgetDefinition → Type 0
Open enabled b = (b.approval_status ≡ approved) × ((enabled ≡ false) ⊎ (b.enabled ≡ true))
