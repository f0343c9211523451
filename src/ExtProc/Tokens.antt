-- ===== src/ExtProc/Tokens.antt =====
-- internal/extproc: the token counts and the model that a body reports (`parseTokenUsage`,
-- `parseSSETokenUsage` and `extractModelFromResponse` of budget_server.go, `extractModel` of
-- model.go). A count in int64 is added without overflow.
pub mod Totals
use quota_management.Prelude.{
  ℕ, zero, suc, String, ◌+◌, ◌≡◌, refl, Bool, true, false, ◌&&◌, ◌||◌, not, Option, none, some,
  List, [], ◌∷◌, ltb, str_eq, if◌then◌else◌,
}
use quota_management.Prelude.Int.{ℤ, pos, negsuc}
use quota_management.Prelude.Text.{
  Bytes, codes, same_text, to_lower, has_prefix, trim_prefix, contains, split, trim_space,
}
use quota_management.ExtProc.Json.{Json, null, decode_int, decode_text, decode_struct}

pub record Usage : Type 0 where
  pub input : ℤ
  pub output : ℤ

abbrev pub no_usage : Usage
no_usage = record { input = pos 0; output = pos 0 }

-- A struct with two counts, under the given names.
abbrev pub decode_usage : String → String → Json → Usage → Option Usage
decode_usage a b = decode_struct λ k v u.
    if str_eq k a
    then elim (decode_int v u.input) [ none ↦ none | some n ↦ some (record u { input = n }) ]
    else if str_eq k b
    then elim (decode_int v u.output) [ none ↦ none | some n ↦ some (record u { output = n }) ]
    else some u

-- A struct with such a struct under `usage`.
abbrev pub decode_with_usage : String → String → Json → Usage → Option Usage
decode_with_usage a b =
    decode_struct λ k v u. if str_eq k "usage" then decode_usage a b v u else some u

pub record Typed {ℓ} (A : Type ℓ) : Type ℓ where
  pub kind : String
  pub content : A

-- A struct with a text under `type` and a value under another name.
abbrev decode_typed {ℓ} :
    {A : Type ℓ} → String → (Json → A → Option A) → Json → Typed A → Option (Typed A)
decode_typed name decode = decode_struct λ k v s.
    if str_eq k "type"
    then elim (decode_text v s.kind) [ none ↦ none | some t ↦ some (record s { kind = t }) ]
    else if str_eq k name
    then elim (decode v s.content) [ none ↦ none | some a ↦ some (record s { content = a }) ]
    else some s

abbrev of_kind {ℓ} : {A : Type ℓ} → String → Option (Typed A) → Option A
of_kind t none = none
of_kind t (some s) = if str_eq s.kind t then some s.content else none

-- `anthropicStart`, where it is decoded and has its type.
abbrev pub message_start : Json → Option Usage
message_start j = of_kind "message_start" (
    decode_typed "message" (decode_with_usage "input_tokens" "output_tokens") j
      (record { kind = ""; content = no_usage }))

-- `anthropicDelta`, which has the output alone.
abbrev pub message_delta : Json → Option ℤ
message_delta j = of_kind "message_delta" (
    decode_typed "usage"
      (decode_struct (λ k v n. if str_eq k "output_tokens" then decode_int v n else some n)) j
      (record { kind = ""; content = pos 0 }))

pub record Chunk : Type 0 where
  pub object_name : String
  pub usage : Option Usage

abbrev usage_or_zero : Option Usage → Usage
usage_or_zero none = no_usage
usage_or_zero (some u) = u

-- A pointer to a struct: null empties it, and an object fills a new struct or the one there.
abbrev decode_pointer : Json → Option Usage → Option (Option Usage)
decode_pointer null u = some none
decode_pointer j u = elim (decode_usage "prompt_tokens" "completion_tokens" j (usage_or_zero u)) [
  | none ↦ none
  | some v ↦ some (some v)
]

abbrev chunk_field : String → Json → Chunk → Option Chunk
chunk_field k v s =
    if str_eq k "object"
    then elim (decode_text v s.object_name) [
      | none ↦ none
      | some t ↦ some (record s { object_name = t })
    ]
    else if str_eq k "usage"
    then elim (decode_pointer v s.usage) [ none ↦ none | some u ↦ some (record s { usage = u }) ]
    else some s

-- `openaiChunk`, where it is decoded and has a usage.
abbrev pub openai_chunk : Json → Option Usage
openai_chunk j = elim (decode_struct chunk_field j (record { object_name = ""; usage = none })) [
  | none ↦ none
  | some c ↦ c.usage
]

pub record Tokens : Type 0 where
  pub input_tokens : ℕ
  pub output_tokens : ℕ

abbrev pub no_tokens : Tokens
no_tokens = record { input_tokens = 0; output_tokens = 0 }

-- `if n > 0 { count = n }` and `if n > 0 { count += n }`
abbrev pub or_keep : ℤ → ℕ → ℕ
or_keep (pos zero) count = count
or_keep (pos (suc n)) count = suc n
or_keep (negsuc n) count = count

abbrev pub plus : ℤ → ℕ → ℕ
plus (pos n) count = count + n
plus (negsuc n) count = count

abbrev pub from_start : Usage → Tokens → Tokens
from_start u t = record {
  input_tokens = or_keep u.input t.input_tokens;
  output_tokens = plus u.output t.output_tokens;
}

abbrev pub from_delta : ℤ → Tokens → Tokens
from_delta n t = record t { output_tokens = plus n t.output_tokens }

abbrev pub from_chunk : Usage → Tokens → Tokens
from_chunk u t = record {
  input_tokens = or_keep u.input t.input_tokens;
  output_tokens = or_keep u.output t.output_tokens;
}

-- The counts after a value: the first of the three readings that fits.
unfoldable pub value_tokens : Json → Tokens → Tokens
value_tokens j t = elim (message_start j) [
  | some u ↦ from_start u t
  | none ↦ elim (message_delta j) [
    | some n ↦ from_delta n t
    | none ↦ elim (openai_chunk j) [ some u ↦ from_chunk u t | none ↦ t ]
  ]
]

abbrev data_prefix : Bytes
data_prefix = codes "data: "

-- The value of a line, where the line has one and is not the last.
unfoldable pub line_value : (Bytes → Option Json) → Bytes → Option Json
line_value unmarshal raw =
    let line = trim_space raw in
    if not (has_prefix data_prefix line)
    then none
    else if same_text (trim_prefix data_prefix line) (codes "[DONE]")
    then none
    else unmarshal (trim_prefix data_prefix line)

-- The loop over the lines.
unfoldable pub lines_tokens : (Bytes → Option Json) → List Bytes → Tokens → Tokens
lines_tokens unmarshal [] t = t
lines_tokens unmarshal (line ∷ lines) t =
    lines_tokens unmarshal lines
      (elim (line_value unmarshal line) [ none ↦ t | some j ↦ value_tokens j t ])

unfoldable pub parse_sse_token_usage : (Bytes → Option Json) → Bytes → Tokens
parse_sse_token_usage unmarshal body = lines_tokens unmarshal (split b'\n' body) no_tokens

-- A reading of the whole body, where one of its counts is positive.
abbrev body_tokens : String → String → Option Json → Option Tokens
body_tokens a b none = none
body_tokens a b (some j) = elim (decode_with_usage a b j no_usage) [
  | none ↦ none
  | some u ↦
      if ltb 0 (or_keep u.input 0) || ltb 0 (or_keep u.output 0)
      then some (record { input_tokens = or_keep u.input 0; output_tokens = or_keep u.output 0 })
      else none
]

unfoldable pub parse_token_usage : (Bytes → Option Json) → Bytes → Tokens
parse_token_usage unmarshal body =
    if contains data_prefix body
    then parse_sse_token_usage unmarshal body
    else elim (body_tokens "prompt_tokens" "completion_tokens" (unmarshal body)) [
      | some t ↦ t
      | none ↦ elim (body_tokens "input_tokens" "output_tokens" (unmarshal body)) [
        | some t ↦ t
        | none ↦ no_tokens
      ]
    ]

-- The text under `model`, empty where there is none.
abbrev decode_model : Option Json → String
decode_model none = ""
decode_model (some j) =
    elim (decode_struct (λ k v s. if str_eq k "model" then decode_text v s else some s) j "") [
      | none ↦ ""
      | some s ↦ s
    ]

abbrev pub extract_model_from_response : (Bytes → Option Json) → Bytes → String
extract_model_from_response unmarshal body = decode_model (unmarshal body)

-- `headers[key]`, empty where the map has no entry; a later header overwrites an earlier one.
abbrev pub header_of : Bytes → List (Bytes × String) → String
header_of key [] = ""
header_of key ((k, v) ∷ hs) = if same_text k key then v else header_of key hs

abbrev pub configured_model : String → List (Bytes × String) → String
configured_model model_header headers =
    if str_eq model_header "" then "" else header_of (to_lower (codes model_header)) headers

abbrev model_in : (Bytes → Option Json) → Bytes → String
model_in unmarshal [] = ""
model_in unmarshal (c ∷ cs) = decode_model (unmarshal (c ∷ cs))

-- The model of the body, or that of the header.
abbrev pub extract_model : (Bytes → Option Json) → Bytes → List (Bytes × String) → String → String
extract_model unmarshal body headers model_header =
    if str_eq (model_in unmarshal body) ""
    then configured_model model_header headers
    else model_in unmarshal body
