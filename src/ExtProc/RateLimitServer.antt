-- ===== src/ExtProc/RateLimitServer.antt =====
-- internal/extproc/ratelimit_server.go: `Process`, which adds the limits of a team to a request, and
-- the claims of internal/extproc/common.go that it reads.
pub mod Open
use quota_management.Prelude.{
  ℕ, String, ◌%◌, ◌≡◌, Bool, true, false, ◌&&◌, ◌||◌, not, Option, none, some, List, [], ◌∷◌, ◌++◌,
  length, ◌==◌, str_eq, if◌then◌else◌, map,
}
use quota_management.Prelude.Text.{
  Bytes, codes, to_lower, same_text, has_prefix, trim_prefix, split, trim_space,
}
use quota_management.Config.{Config}
use quota_management.Models.RateLimit.{RateLimitAllocation}
use quota_management.Db.World.{Result, ok, err, World, M, ◌>>=◌, pure, attempt, pool, query}
use quota_management.RateLimit.Lookup.{RateLimitMetadata, lookup_rate_limit_allocation, no_limits}
use quota_management.ExtProc.Json.{Json, text, object, Fields, no_fields, field}
use quota_management.ExtProc.Tokens.{header_of, extract_model}
use quota_management.ExtProc.Envoy.{
  HeaderValue, Request, request_headers, request_body, response_headers, response_body, unknown,
  HeaderContent, content_text, Reply, continue_headers, continue_body, continue_response_headers,
  continue_response_body, get_header_value, header_key, headers_map,
}
use quota_management.ExtProc.BudgetServer.{request_id_of, store, delete, onto_replies}

-- The code outside the repository: the syntax of JSON, the two alphabets of base64, and the text
-- that `fmt` gives a value which is no text.
pub record Outside : Type 0 where
  pub unmarshal : Bytes → Option Json
  pub base64_url : Bytes → Option Bytes
  pub base64_std : Bytes → Option Bytes
  pub format : Json → String

abbrev padded : Bytes → Bytes
padded cs =
    if length cs % 4 == 2
    then cs ++ codes "=="
    else if length cs % 4 == 3
    then cs ++ codes "="
    else cs

abbrev std_letter : ℕ → ℕ
std_letter c = if c == b'-' then b'+' else if c == b'_' then b'/' else c

-- The URL alphabet, or else the standard one with its letters put in.
abbrev pub decode_payload : Outside → Bytes → Option Bytes
decode_payload out cs = elim (out.base64_url (padded cs)) [
  | some bs ↦ some bs
  | none ↦ out.base64_std (padded (map std_letter cs))
]

-- A token has three parts, and its second is the text of an object.
abbrev payload_of : Outside → List Bytes → Option Bytes
payload_of out (header ∷ payload ∷ signature ∷ []) = decode_payload out payload
payload_of out _ = none

abbrev object_fields : Option Json → Option Fields
object_fields (some (object fs)) = some fs
object_fields _ = none

unfoldable pub extract_jwt_claims : Outside → String → Option Fields
extract_jwt_claims out header =
    if has_prefix (codes "bearer ") (to_lower (codes header))
    then elim (payload_of out (split b'.' (trim_space (drop_bearer (codes header))))) [
      | none ↦ none
      | some bs ↦ object_fields (out.unmarshal bs)
    ]
    else none
  where
    -- The text after its first seven characters.
    drop_bearer : Bytes → Bytes
    drop_bearer (_ ∷ _ ∷ _ ∷ _ ∷ _ ∷ _ ∷ _ ∷ cs) = cs
    drop_bearer _ = []

abbrev claim_text : Outside → Json → String
claim_text out (text s) = s
claim_text out j = out.format j

-- A later field of a name overwrites an earlier one.
abbrev claim_from : Outside → String → Fields → String → String
claim_from out key no_fields found = found
claim_from out key (field k v rest) found =
    claim_from out key rest (if str_eq k key then claim_text out v else found)

abbrev pub get_claim_string : Outside → Option Fields → String → String
get_claim_string out none key = ""
get_claim_string out (some fs) key = if str_eq key "" then "" else claim_from out key fs ""

abbrev pub get_request_id : List HeaderValue → String
get_request_id [] = ""
get_request_id (h ∷ hs) =
    if same_text (header_key h) (codes "x-request-id")
    then get_header_value h
    else get_request_id hs

pub record RateLimitRequestState : Type 0 where
  pub request_id : String
  pub team_id : String
  pub org_id : String
  pub headers : List (Bytes × String)
  pub request_body : Bytes

pub record Session : Type 0 where
  pub request_id : String
  pub state : Option RateLimitRequestState
  pub request_states : List String

abbrev pub named_header : List (Bytes × String) → String → String
named_header m name = header_of (to_lower (codes name)) m

-- The header's value, or the claim where it is empty.
abbrev or_claim : Outside → List (Bytes × String) → String → String → String
or_claim out m value name =
    if str_eq value ""
    then get_claim_string out (extract_jwt_claims out (named_header m "authorization")) name
    else value

unfoldable pub start_state : Config → Outside → String → List HeaderValue → RateLimitRequestState
start_state cfg out drawn hs =
    let m = headers_map hs [] in
    record {
      request_id = if str_eq (get_request_id hs) "" then drawn else get_request_id hs;
      team_id = or_claim out m (named_header m cfg.team_id_header) cfg.team_id_claim;
      org_id = or_claim out m (named_header m cfg.org_id_header) cfg.org_id_claim;
      headers = m;
      request_body = [];
    }

-- Both keys are there; an empty struct stands for no limit.
abbrev pub build_dynamic_metadata : Option RateLimitMetadata → RateLimitMetadata
build_dynamic_metadata none = no_limits
build_dynamic_metadata (some m) = m

abbrev pub all_allocations : M (List RateLimitAllocation)
all_allocations = pool (query (λ t. t.allocations))

unfoldable pub find_limits : String → String → M (Option RateLimitMetadata)
find_limits team model =
    if not (str_eq team "") && not (str_eq model "") then looked_up else pure none
  where
    looked_up : M (Option RateLimitMetadata)
    looked_up = do
      rows ← attempt all_allocations
      pure (lookup_rate_limit_allocation team model rows)

-- The answer with the limits, and the session with the new state.
abbrev pub headers_answer :
    RateLimitRequestState → List String → Option RateLimitMetadata → Option Reply × Session
headers_answer st ids limits = (
  some (continue_headers [] (some (build_dynamic_metadata limits))),
  record { request_id = st.request_id; state = some st; request_states = store st.request_id ids },
)

unfoldable pub on_request_headers :
    Config → Outside → String → List HeaderValue → Session → M (Option Reply × Session)
on_request_headers cfg out drawn hs s = do
  let st = start_state cfg out drawn hs
  limits ← find_limits st.team_id (named_header st.headers cfg.model_header)
  pure (headers_answer st s.request_states limits)

abbrev model_header_for : String → List (String × HeaderContent)
model_header_for model = if str_eq model "" then [] else ("x-gw-llm-model", content_text model) ∷ []

abbrev take_body : Bytes → RateLimitRequestState → RateLimitRequestState
take_body body st = record st { request_body = st.request_body ++ body }

-- At the end of the body the model is put into a header, and the entry of the request goes.
abbrev on_request_body :
    Config
    → Outside
    → Bytes
    → Bool
    → Session
    → Option RateLimitRequestState
    → Option Reply × Session
on_request_body cfg out body last s none = (some (continue_body [] body last), s)
on_request_body cfg out body last s (some st) =
    let st' = take_body body st in
    if last
    then (
      some (
          continue_body
            (model_header_for
              (extract_model out.unmarshal st'.request_body st.headers cfg.model_header))
            body last),
      record s { state = some st'; request_states = delete s.request_id s.request_states },
    )
    else (some (continue_body [] body last), record s { state = some st' })

unfoldable pub step : Config → Outside → Request → Session → M (Option Reply × Session)
step cfg out (request_headers drawn hs filters) s = on_request_headers cfg out drawn hs s
step cfg out (request_body body last) s = pure (on_request_body cfg out body last s s.state)
step cfg out response_headers s = pure (some continue_response_headers, s)
step cfg out (response_body body last) s = pure (some (continue_response_body [] body last), s)
step cfg out unknown s = pure (none, s)

unfoldable pub process : Config → Outside → List Request → Session → M (List Reply × Session)
process cfg out [] s = pure ([], s)
process cfg out (r ∷ rs) s = do
  one ← step cfg out r s
  rest ← process cfg out rs one.1
  pure (onto_replies one.0 rest.0, rest.1)
