-- ===== src/Api/Approvals/History.antt =====
-- Any sequence of approval requests keeps every budget within the workflow.
use quota_management.Prelude.{
  ℕ, String, ◌+◌, ◌≤◌, ◌≡◌, refl, Bool, true, false, not, Option, none, some, List, [], ◌∷◌, arith,
  leb, find_first, All, if_split, if_lem, ◌||◌, inl, inr, Bool-cases,
}
use quota_management.Models.Budget.{
  BudgetDefinition, ApprovalStatus, pending, approved, rejected, closed,
}
use quota_management.Db.World.{World, M}
use quota_management.Db.Budgets.{has_id}
use quota_management.Db.Approvals.{with_status}
use quota_management.Db.Unique.{UniqueIds}
use quota_management.Auth.Identity.{Identity}
use quota_management.Auth.Rbac.{can_resubmit, is_empty}
use quota_management.Api.Approvals.{
  approve_found, reject_found, resubmit_found, approve_budget, reject_budget, resubmit_budget,
  status_after_rejection, is_pending, is_rejected, may_decide, text_or_empty,
}
use quota_management.Api.Approvals.Workflow.{
  Moves, stays, approves, rejects, closes, resubmits, AllMove, AllMove-refl, move-AllMove,
  decided-AllMove, is_pending-eq, is_rejected-eq,
}

is_true_of_negation : (b : Bool) → not b ≡ false → b ≡ true
is_true_of_negation b h = ground arith

rejected-Moves :
    (b : BudgetDefinition)
    → b.approval_status ≡ pending
    → Moves b (with_status (status_after_rejection (b.rejection_count + 1)) true b)
rejected-Moves b p =
    if_split (λ (s : ApprovalStatus). Moves b (with_status s true b))
      (leb 3 (b.rejection_count + 1)) (λ e. closes p (ground arith)) (λ e. rejects p (ground arith))

-- The budgets of `w` may only move when `m` runs.
abbrev Moving : World → M ℕ → Type 0
Moving w m = AllMove w.tables.budgets (m w).1.tables.budgets

module _ (who : Identity) (i : ℕ) (b : BudgetDefinition) (w : World)
    (u : UniqueIds w.tables.budgets) (hit : find_first (has_id i) w.tables.budgets ≡ some b) where
  approve_found-Moving : Moving w (approve_found who i b)
  approve_found-Moving =
      if_split (Moving w) (not (may_decide who b)) (λ _. AllMove-refl w.tables.budgets)
        λ _.
          if_split (Moving w) (not (is_pending b.approval_status))
            (λ _. AllMove-refl w.tables.budgets)
            λ e. move-AllMove i approved false _ b w u hit (
              approves (
                is_pending-eq b.approval_status
                  (is_true_of_negation (is_pending b.approval_status) e)))

  reject_found-Moving : (reason : String) → Moving w (reject_found who i reason b)
  reject_found-Moving reason =
      if_split (Moving w) (not (may_decide who b)) (λ _. AllMove-refl w.tables.budgets)
        λ _.
          if_split (Moving w) (not (is_pending b.approval_status))
            (λ _. AllMove-refl w.tables.budgets)
            λ e. move-AllMove i (status_after_rejection (b.rejection_count + 1)) true _ b w u hit (
              rejected-Moves b (
                is_pending-eq b.approval_status
                  (is_true_of_negation (is_pending b.approval_status) e)))

  resubmit_found-Moving : Moving w (resubmit_found who i b)
  resubmit_found-Moving =
      if_split (Moving w) (not (is_rejected b.approval_status)) (λ _. AllMove-refl w.tables.budgets)
        λ e.
          if_split (Moving w) (leb 3 b.rejection_count) (λ _. AllMove-refl w.tables.budgets)
            λ few.
              if_split (Moving w)
                (not (can_resubmit (some who) (text_or_empty b.created_by_user_id)))
                (λ _. AllMove-refl w.tables.budgets)
                λ _. move-AllMove i pending false _ b w u hit (
                  resubmits
                    (is_rejected-eq b.approval_status
                      (is_true_of_negation (is_rejected b.approval_status) e))
                    (ground arith))

-- A request to the approval endpoints, with the caller that the token names.
pub data Request : Type 0 where
  approve_request : Option ℕ → Option Identity → Request
  reject_request : Option ℕ → Option Identity → Option String → Request
  resubmit_request : Option ℕ → Option Identity → Request

abbrev pub handle : Request → M ℕ
handle (approve_request i who) = approve_budget i who
handle (reject_request i who reason) = reject_budget i who reason
handle (resubmit_request i who) = resubmit_budget i who

-- Whatever the request, and whichever statements fail, each budget stays as it is or makes one
-- transition of the workflow: a pending one is approved, rejected while it has fewer than three
-- rejections, or closed at the third, and a rejected one with fewer than three is pending again.
pub handle-AllMove :
    (r : Request) (w : World)
    → UniqueIds w.tables.budgets
    → AllMove w.tables.budgets (handle r w).1.tables.budgets
unfolding approve_budget reject_budget resubmit_budget
handle-AllMove (approve_request none who) w u = AllMove-refl w.tables.budgets
handle-AllMove (approve_request (some i) none) w u = AllMove-refl w.tables.budgets
handle-AllMove (approve_request (some i) (some who)) w u =
    if_lem (Moving w) (not (who.is_org || who.is_team_admin)) (AllMove-refl w.tables.budgets)
      (decided-AllMove i (approve_found who i) (approve_found-Moving who i) w u)
handle-AllMove (reject_request none who reason) w u = AllMove-refl w.tables.budgets
handle-AllMove (reject_request (some i) none reason) w u = AllMove-refl w.tables.budgets
handle-AllMove (reject_request (some i) (some who) reason) w u =
    if_lem (Moving w) (not (who.is_org || who.is_team_admin)) (AllMove-refl w.tables.budgets) (
      if_lem (Moving w) (is_empty (text_or_empty reason)) (AllMove-refl w.tables.budgets) (
        decided-AllMove i (reject_found who i (text_or_empty reason))
          (λ b w u hit. reject_found-Moving who i b w u hit (text_or_empty reason)) w u))
handle-AllMove (resubmit_request none who) w u = AllMove-refl w.tables.budgets
handle-AllMove (resubmit_request (some i) none) w u = AllMove-refl w.tables.budgets
handle-AllMove (resubmit_request (some i) (some who)) w u =
    decided-AllMove i (resubmit_found who i) (resubmit_found-Moving who i) w u

-- A budget that is not closed has at most two rejections, a rejected one at least one, and a closed
-- one three.
abbrev StatusOk : ApprovalStatus → ℕ → Type 0
StatusOk pending n = n ≤ 2
StatusOk approved n = n ≤ 2
StatusOk rejected n = (1 ≤ n) × (n ≤ 2)
StatusOk closed n = n ≡ 3

abbrev pub InWorkflow : BudgetDefinition → Type 0
InWorkflow b = StatusOk b.approval_status b.rejection_count

move-InWorkflow : (b c : BudgetDefinition) → Moves b c → InWorkflow b → InWorkflow c
move-InWorkflow b c stays h = h
move-InWorkflow b c (approves p) h = rw p at h
move-InWorkflow b c (rejects p few) h = omega arith
move-InWorkflow b c (closes p many) h = let k : b.rejection_count ≤ 2 = rw p at h in omega arith
move-InWorkflow b c (resubmits p few) h = omega arith

moves-InWorkflow :
    (bs cs : List BudgetDefinition) → AllMove bs cs → All InWorkflow bs → All InWorkflow cs
moves-InWorkflow [] [] m h = tt
moves-InWorkflow [] (c ∷ cs) m h = absurd m
moves-InWorkflow (b ∷ bs) [] m h = tt
moves-InWorkflow (b ∷ bs) (c ∷ cs) (m, ms) (h, hs) =
    (move-InWorkflow b c m h, moves-InWorkflow bs cs ms hs)

move-id : (b c : BudgetDefinition) → Moves b c → c.id ≡ b.id
move-id b c stays = refl
move-id b c (approves p) = refl
move-id b c (rejects p few) = refl
move-id b c (closes p many) = refl
move-id b c (resubmits p few) = refl

moves-fresh :
    (i : ℕ) (bs cs : List BudgetDefinition)
    → AllMove bs cs
    → find_first (has_id i) bs ≡ none
    → find_first (has_id i) cs ≡ none
moves-fresh i [] [] m h = refl
moves-fresh i [] (c ∷ cs) m h = absurd m
moves-fresh i (b ∷ bs) [] m h = refl
moves-fresh i (b ∷ bs) (c ∷ cs) (m, ms) h = elim (Bool-cases (has_id i b)) [
  | inl hit ↦ absurd (cc (rw hit at h))
  | inr miss ↦ rw (move-id b c m, miss) (moves-fresh i bs cs ms (rw miss at h))
]

moves-UniqueIds : (bs cs : List BudgetDefinition) → AllMove bs cs → UniqueIds bs → UniqueIds cs
moves-UniqueIds [] [] m u = tt
moves-UniqueIds [] (c ∷ cs) m u = absurd m
moves-UniqueIds (b ∷ bs) [] m u = tt
moves-UniqueIds (b ∷ bs) (c ∷ cs) (m, ms) (fresh, u) =
    (rw (move-id b c m) (moves-fresh b.id bs cs ms fresh), moves-UniqueIds bs cs ms u)

-- The requests, one after the other.
abbrev pub handle_all : List Request → World → World
handle_all [] w = w
handle_all (r ∷ rs) w = handle_all rs (handle r w).1

-- Where the budgets have distinct ids and each is in the workflow before (one that is not closed has
-- at most two rejections, a rejected one at least one, and a closed one exactly three), each is in the
-- workflow after any sequence of requests, whichever statements fail.
pub handle_all-InWorkflow :
    (rs : List Request) (w : World)
    → UniqueIds w.tables.budgets
    → All InWorkflow w.tables.budgets
    → All InWorkflow (handle_all rs w).tables.budgets
handle_all-InWorkflow [] w u h = h
handle_all-InWorkflow (r ∷ rs) w u h =
    let m = handle-AllMove r w u in
    handle_all-InWorkflow rs (handle r w).1 (moves-UniqueIds w.tables.budgets _ m u)
      (moves-InWorkflow w.tables.budgets _ m h)
