-- ===== src/Tests/Listings.antt =====
-- internal/api/handlers.go: an administrator walks through the listing of budgets.
