-- ===== src/Config.antt =====
-- internal/config/config.go: the settings that the modelled code reads. The estimation multiplier
-- is in hundredths; times are in seconds.
use quota_management.Prelude.{ℕ, String}

pub record Config : Type 0 where
  pub model_cost_cache_ttl : ℕ
  pub budget_cache_ttl : ℕ
  pub reservation_ttl : ℕ
  pub default_estimation_multiplier : ℕ
  pub default_estimated_input_tokens : ℕ
  pub default_estimated_output_tokens : ℕ
  pub org_id_header : String
  pub team_id_header : String
  pub user_id_header : String
  pub model_header : String
  pub org_id_claim : String
  pub team_id_claim : String

abbrev pub default_config : Config
default_config = record {
  model_cost_cache_ttl = 60;
  budget_cache_ttl = 30;
  reservation_ttl = 300;
  default_estimation_multiplier = 150;
  default_estimated_input_tokens = 1000;
  default_estimated_output_tokens = 1000;
  org_id_header = "x-gw-org-id";
  team_id_header = "x-gw-team-id";
  user_id_header = "x-user-id";
  model_header = "x-gateway-model-name";
  org_id_claim = "org_id";
  team_id_claim = "team_id";
}
