-- ===== src/Tests/Prices.antt =====
-- internal/api/handlers.go: an administrator changes a price.
use quota_management.Prelude.{true}
use quota_management.Auth.Identity.{Identity}
use quota_management.Api.ModelCosts.Stored.{Change, update}
use quota_management.Tests.Budgets.{bob}

abbrev pub root : Identity
root = record bob { is_org = true }

abbrev cheaper : Change
cheaper = update "gpt-4o" (record {
  model_id = "gpt-4o";
  provider = "openai";
  input_cost_per_million = 5;
  output_cost_per_million = 6;
})
