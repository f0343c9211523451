-- ===== src/ExtProc/Context.antt =====
-- internal/extproc/budget_server.go: the context of an expression (`buildEvalContext`), with the record
-- of internal/cel/evaluator.go, and what is read of the headers.
use quota_management.Prelude.{String, ◌||◌, List, [], ◌∷◌, ◌++◌, str_eq, if◌then◌else◌}
use quota_management.Prelude.Text.{Bytes, codes, to_lower, same_text}
use quota_management.Config.{Config}
use quota_management.ExtProc.Json.{Json, text, Fields, no_fields, field}
use quota_management.ExtProc.Envoy.{HeaderValue, get_header_value, header_key}

pub record EvalContext : Type 0 where
  pub headers : List (Bytes × String)
  pub path : String
  pub method : String
  pub host : String
  pub metadata : List (Bytes × Json)

abbrev empty_context : EvalContext
empty_context = record { headers = []; path = ""; method = ""; host = ""; metadata = [] }

abbrev put_metadata : String → String → EvalContext → EvalContext
put_metadata k v ctx = record ctx { metadata = (codes k, text v) ∷ ctx.metadata }

-- The `switch` on the lower-case name of a header. The names of the settings keep their case.
abbrev context_switch : Config → Bytes → String → EvalContext → EvalContext
context_switch cfg key v ctx =
    if same_text key (codes ":path")
    then record ctx { path = v }
    else if same_text key (codes ":method")
    then record ctx { method = v }
    else if same_text key (codes ":authority") || same_text key (codes "host")
    then record ctx { host = v }
    else if same_text key (codes cfg.org_id_header)
    then put_metadata "org_id" v ctx
    else if same_text key (codes cfg.team_id_header)
    then put_metadata "team_id" v ctx
    else if same_text key (codes cfg.user_id_header)
    then put_metadata "user_id" v ctx
    else ctx

abbrev context_headers : Config → List HeaderValue → EvalContext → EvalContext
context_headers cfg [] ctx = ctx
context_headers cfg (h ∷ hs) ctx = context_headers cfg hs (
    context_switch cfg (header_key h) (get_header_value h)
      (record ctx { headers = (header_key h, get_header_value h) ∷ ctx.headers }))

abbrev filter_fields : Bytes → Fields → EvalContext → EvalContext
filter_fields ns no_fields ctx = ctx
filter_fields ns (field k v rest) ctx =
    filter_fields ns rest
      (record ctx { metadata = (ns ++ (codes "." ++ codes k), v) ∷ ctx.metadata })

abbrev context_filters : List (Bytes × Fields) → EvalContext → EvalContext
context_filters [] ctx = ctx
context_filters ((ns, fs) ∷ rest) ctx = context_filters rest (filter_fields ns fs ctx)

abbrev pub build_eval_context : Config → List HeaderValue → List (Bytes × Fields) → EvalContext
build_eval_context cfg hs filters = context_filters filters (context_headers cfg hs empty_context)

-- The first header of one of the two names, empty where there is none.
abbrev pub get_request_id : List HeaderValue → String
get_request_id [] = ""
get_request_id (h ∷ hs) =
    if same_text (header_key h) (codes "x-request-id")
      || same_text (header_key h) (codes "x-budget-request-id")
    then get_header_value h
    else get_request_id hs

abbrev team_header : Config → String
team_header cfg = if str_eq cfg.team_id_header "" then "x-gw-team-id" else cfg.team_id_header

abbrev pub extract_team_id : Config → List HeaderValue → String
extract_team_id cfg [] = ""
extract_team_id cfg (h ∷ hs) =
    if same_text (header_key h) (to_lower (codes (team_header cfg)))
    then get_header_value h
    else extract_team_id cfg hs
