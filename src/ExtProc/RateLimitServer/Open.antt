-- ===== src/ExtProc/RateLimitServer/Open.antt =====
-- internal/extproc/ratelimit_server.go: the limits that the answer to the request headers carries.
use quota_management.Prelude.{String, ◌≡◌, true, Option, List, str_eq, ◌⊎◌}
use quota_management.Config.{Config}
use quota_management.Db.World.{db_failure, Result, ok, err, World}
use quota_management.Models.RateLimit.{RateLimitAllocation}
use quota_management.RateLimit.Lookup.Specificity.{Chosen}
use quota_management.RateLimit.Lookup.Ranked.{gives_tokens, gives_requests}
use quota_management.RateLimit.Lookup.{RateLimitMetadata, no_limits, token_value, request_value}
use quota_management.ExtProc.Envoy.{HeaderValue}
use quota_management.ExtProc.RateLimitServer.{
  Outside, start_state, build_dynamic_metadata, all_allocations, named_header,
}

-- Why a request gets no limits: it has no team or no model, or the query has failed.
abbrev pub Unlimited : String → String → World → Type 0
Unlimited team model w =
    (str_eq team "" ≡ true) ⊎ (str_eq model "" ≡ true) ⊎ ((all_allocations w).0 ≡ err db_failure)

-- The limits of the two kinds are those of most specific allocations.
abbrev pub Limits : String → String → List RateLimitAllocation → RateLimitMetadata → Type 0
Limits team model rows m =
    Chosen team model rows gives_tokens token_value m.token
    × Chosen team model rows gives_requests request_value m.request

abbrev FoundOrNot : String → String → World → Result (Option RateLimitMetadata) → Type 0
FoundOrNot team model w (err e) = ⊥
FoundOrNot team model w (ok o) =
    ((build_dynamic_metadata o ≡ no_limits) × Unlimited team model w)
    ⊎ Limits team model w.tables.allocations (build_dynamic_metadata o)

-- The model that the headers name.
abbrev pub model_of : Config → Outside → String → List HeaderValue → String
model_of cfg out d hs = named_header (start_state cfg out d hs).headers cfg.model_header
