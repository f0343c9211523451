-- ===== src/Lib.antt =====
-- Quota management: budgets in US dollars and rate limits for requests to language models.
--
-- The parts of the program and how they interact. The gateway calls two external processors
-- (internal/extproc). For a request the budget processor asks the budget service
-- (internal/budget/service.go) whether the matching budgets have room for an estimate of its cost;
-- the service locks the enabled budgets, decides, and reserves the estimate in one transaction.
-- After the response it charges the actual cost to the budget of the reservation and its ancestors.
-- The administrators' API (internal/api) edits budgets, prices and rate limits, takes budgets and
-- rate limits through an approval workflow, and lists what there is; internal/auth says what a
-- caller may do. All state is in PostgreSQL (internal/db).
--
-- Files.
--   Prelude          names of the libraries, Boolean tests, lists, signed amounts
--   Config           the settings of internal/config/config.go that the model reads
--   Models           internal/models: Budget (records, CalculateRemaining), Calendar and Period
--                    (NextPeriodStart, ShouldReset), Pagination (with internal/api/pagination.go),
--                    Alert, RateLimit
--   Db               internal/db. World has the tables, the transaction (BeginTx, Commit, Rollback)
--                    and the monad of operations; ModelCosts, Budgets, Hierarchy (the recursive query
--                    of GetBudgetsWithParent), Reservations, Usage, Approvals and Alerts have a
--                    definition for each method of the repository that is modelled, Cascade has
--                    GetAllDescendants and DeleteBudgetCascade; Order is ORDER BY. Unique is the
--                    primary key; Listings has the queries by pages. Keeps is what operations leave
--                    alone, Holds what they preserve, Ways what they have done, Reads the searches.
--   Budget           internal/budget/service.go: ModelName (the version suffix), Pricing
--                    (GetModelCost, CalculateCost, EstimateCost), Sort (sortBudgetsByHierarchy), Check
--                    (the decision), Reserve (CheckBudget, CheckAndReserveBudget, CreateReservation),
--                    Charge (DecrementBudgets), each with its proofs in child modules, and
--                    Maintenance (CleanupExpiredReservations, ResetExpiredBudgets)
--   Auth             internal/auth: Identity (ParseJWT), Rbac
--   Api              internal/api: Approvals (ApproveBudget, RejectBudget, ResubmitBudget), Budgets
--                    (CreateBudget, UpdateBudget, DeleteBudget, ResetBudget), ModelCosts (the requests
--                    on prices), Listings (pages of budgets, prices, usage and approvals), Alerts
--                    (internal/api/alert_handlers.go), RateLimits
--                    (internal/api/ratelimit_handlers.go: the requests that change allocations)
--   Alert            internal/alert/service.go (CheckAndUpdateAlerts and its conditions)
--   RateLimit        Store, Records and Lifecycle (the statements of
--                    internal/db/ratelimit_repository.go on allocations and on the records of their
--                    approval, Sanctioned with which of them approve), Pattern and Lookup (its
--                    GetAllocationsForTeamModel, and lookupRateLimitAllocation of
--                    internal/extproc/ratelimit_server.go)
--   ExtProc          internal/extproc: Json (how encoding/json fills a struct), Tokens (the counts and
--                    the model of a body), Envoy (messages, answers, common.go), Context (the
--                    context of an expression), BudgetServer and RateLimitServer (Process of the two
--                    processors, each with its proofs)
--   Tests            a small store and runs on it
--
-- State and operations. `World` holds the committed tables, what an open transaction sees, whether
-- a failed statement has aborted it, the time, and the two caches of the service. An operation is
-- a function from a world to a result or an error and the world after it. Which statements the
-- database fails is a schedule, `faults`, one Boolean for each call: any schedule, unless a
-- theorem restricts it. Concurrent requests are taken as sequences of whole operations.
-- CheckAndReserveBudget locks the budgets in its transaction before it reads them; other
-- operations read before they write without a lock, and their interleavings with others are not
-- modelled: DecrementBudgets reads the reservation and the budgets from the pool before it begins
-- its transaction, the handlers read a budget before they change it, and the descendants of a
-- budget are read before the transaction that deletes them.
--
-- Numbers. A UUID is a natural number and text is `String`. The handlers give the status of their
-- response. Money is a whole number of quanta of 10^-16 USD, and a price of 10^-10 USD per million
-- tokens, so that a cost is exact; rounding of floats and of DECIMAL columns is not modelled.
-- Usage, pending usage, prices and token counts are natural numbers, and a budget's amount is an
-- integer. Time is in seconds since the Unix epoch.
--
-- Bounds. The recursive query takes as fuel one more than the number of budgets: a chain of parents
-- without a cycle has no more rows than there are budgets; the query for descendants has the same
-- fuel for its levels. The calendar takes one year of fuel for every 365 days.
--
-- Not modelled: the evaluation of CEL expressions, the decoding of tokens, the syntax of JSON and
-- of base64, which are parameters; a negative count of tokens, which counts as none, and overflow
-- of int64; field names of JSON in another case; in the body of a request to the API, texts
-- outside an enum and negative numbers, but for a budget's amount; logs, metrics, the audit trail,
-- HTTP and gRPC plumbing (with the errors of Send and Recv), and the start-up and the timers of
-- the programs; the ids of reservations, usage records and approvals, which nothing modelled
-- reads; the order of rows that were created at one time, which are read in the order of their
-- insertion; the forecasts, and the listings of allocations.
pub mod Prelude
pub mod Config
pub mod Models
pub mod Db
pub mod Auth
pub mod Budget
pub mod Api
pub mod Alert
pub mod RateLimit
pub mod ExtProc
pub mod Tests
