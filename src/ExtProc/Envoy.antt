-- ===== src/ExtProc/Envoy.antt =====
-- internal/extproc/common.go, with the messages of the gateway that the processors read and the
-- answers that they give. Amounts in texts are kept as numbers.
use quota_management.Prelude.{
  ℕ, String, Bool, ◌&&◌, Option, List, [], ◌∷◌, ltb, ◌==◌, str_eq, if◌then◌else◌,
}
use quota_management.Prelude.Int.{ℤ}
use quota_management.Prelude.Text.{Bytes, codes, to_lower, contains}
use quota_management.ExtProc.Json.{Fields}
use quota_management.RateLimit.Lookup.{RateLimitMetadata}

pub record HeaderValue : Type 0 where
  pub key : String
  pub value : String
  pub raw_value : String

-- The messages of a stream. The first field of the request headers is the id that `uuid.New` draws
-- where they have none; the last is the metadata of the gateway's filters, by their names.
pub data Request : Type 0 where
  request_headers : String → List HeaderValue → List (Bytes × Fields) → Request
  request_body : Bytes → Bool → Request
  response_headers : Request
  response_body : Bytes → Bool → Request
  unknown : Request

pub data HeaderContent : Type 0 where
  content_text : String → HeaderContent
  content_number : ℕ → HeaderContent
  content_usd : ℤ → HeaderContent

-- The message of a refusal: the name of the budget, what remains, and the minutes until its reset.
pub data Notice : Type 0 where
  check_failed : Notice
  budget_exceeded : String → ℤ → ℕ → Notice

pub data ErrorFormat : Type 0 where
  anthropic openai : ErrorFormat

pub record ImmediateResponse : Type 0 where
  pub status_code : ℕ
  pub set_headers : List (String × HeaderContent)
  pub format : ErrorFormat
  pub notice : Notice

-- Each answer lists the headers that it sets; that to the request headers may carry metadata.
pub data Reply : Type 0 where
  continue_headers : List (String × HeaderContent) → Option RateLimitMetadata → Reply
  continue_body : List (String × HeaderContent) → Bytes → Bool → Reply
  continue_response_headers : Reply
  continue_response_body : List (String × HeaderContent) → Bytes → Bool → Reply
  immediate : ImmediateResponse → Reply

abbrev pub get_header_value : HeaderValue → String
get_header_value h = if str_eq h.raw_value "" then h.value else h.raw_value

abbrev pub header_key : HeaderValue → Bytes
header_key h = to_lower (codes h.key)

-- The map from lower-case names to values; the entry that a header makes stands in front of those
-- before it, and hides one of its name.
abbrev pub headers_map : List HeaderValue → List (Bytes × String) → List (Bytes × String)
headers_map [] m = m
headers_map (h ∷ hs) m = headers_map hs ((header_key h, get_header_value h) ∷ m)

abbrev pub retry_header : ℕ → ℕ → List (String × HeaderContent)
retry_header status seconds =
    if (status == 429) && ltb 0 seconds then ("retry-after", content_number seconds) ∷ [] else []

unfoldable pub immediate_response : ℕ → Notice → ℕ → String → Reply
immediate_response status notice seconds path = immediate (record {
  status_code = status;
  set_headers = ("content-type", content_text "application/json") ∷ retry_header status seconds;
  format = if contains (codes "/v1/messages") (codes path) then anthropic else openai;
  notice = notice;
})
