-- ===== src/ExtProc/Tokens/Totals.antt =====
-- internal/extproc/budget_server.go: the counts of a stream of events, over the values of its lines.
use quota_management.Prelude.{
  ℕ, zero, suc, ◌+◌, ◌≡◌, refl, Option, none, some, List, [], ◌∷◌, ltb, arith, if◌then◌else◌, All,
  sum_by, inl, inr, Option-cases,
}
use quota_management.Prelude.Int.{ℤ, pos, negsuc}
use quota_management.Prelude.Text.{Bytes, split}
use quota_management.ExtProc.Json.{Json}
use quota_management.ExtProc.Tokens.{
  Usage, Tokens, no_tokens, or_keep, plus, from_start, from_delta, from_chunk, message_start,
  message_delta, openai_chunk, value_tokens, line_value, lines_tokens, parse_sse_token_usage,
}

-- What a value reports: a count of input tokens, an output to add, an output that stands for all
-- before it. Each is 0 where there is none.
abbrev pub reported_input : Json → ℕ
reported_input j = elim (message_start j) [
  | some u ↦ or_keep u.input 0
  | none ↦ elim (message_delta j) [
    | some n ↦ 0
    | none ↦ elim (openai_chunk j) [ some u ↦ or_keep u.input 0 | none ↦ 0 ]
  ]
]

abbrev pub added_output : Json → ℕ
added_output j = elim (message_start j) [
  | some u ↦ plus u.output 0
  | none ↦ elim (message_delta j) [ some n ↦ plus n 0 | none ↦ 0 ]
]

abbrev pub total_output : Json → ℕ
total_output j = elim (message_start j) [
  | some u ↦ 0
  | none ↦ elim (message_delta j) [
    | some n ↦ 0
    | none ↦ elim (openai_chunk j) [ some u ↦ or_keep u.output 0 | none ↦ 0 ]
  ]
]

abbrev with_value : Option Json → List Json → List Json
with_value none js = js
with_value (some j) js = j ∷ js

-- The values of the lines that have one, in their order.
abbrev pub values_of : (Bytes → Option Json) → List Bytes → List Json
values_of unmarshal [] = []
values_of unmarshal (line ∷ lines) =
    with_value (line_value unmarshal line) (values_of unmarshal lines)

-- The last positive number of a list.
abbrev pub last_positive : (Json → ℕ) → List Json → ℕ
last_positive f [] = 0
last_positive f (j ∷ js) = let later = last_positive f js in if ltb 0 later then later else f j

abbrev or_before : ℕ → ℕ → ℕ
or_before n count = if ltb 0 n then n else count

or_keep_lem : (n : ℤ) (count : ℕ) → or_keep n count ≡ or_before (or_keep n 0) count
or_keep_lem (pos zero) count = refl
or_keep_lem (pos (suc n)) count = ground arith
or_keep_lem (negsuc n) count = refl

plus_lem : (n : ℤ) (count : ℕ) → plus n count ≡ count + plus n 0
plus_lem (pos n) count = omega arith
plus_lem (negsuc n) count = omega arith

-- The counts after a value, by what it reports.
value_tokens_lem :
    (j : Json) (t : Tokens)
    → value_tokens j t ≡ record {
      input_tokens = or_before (reported_input j) t.input_tokens;
      output_tokens = or_before (total_output j) (t.output_tokens + added_output j);
    }
unfolding value_tokens
value_tokens_lem j t = by_reading (message_start j) (message_delta j) (openai_chunk j)
  where
    by_reading :
        (a : Option Usage) (b : Option ℤ) (c : Option Usage)
        → ◌≡◌ {A = Tokens}
            (elim a [
              | some u ↦ from_start u t
              | none ↦ elim b [
                | some n ↦ from_delta n t
                | none ↦ elim c [ some u ↦ from_chunk u t | none ↦ t ]
              ]
            ])
            (record {
              input_tokens =
                  or_before
                    (elim a [
                      | some u ↦ or_keep u.input 0
                      | none ↦ elim b [
                        | some n ↦ 0
                        | none ↦ elim c [ some u ↦ or_keep u.input 0 | none ↦ 0 ]
                      ]
                    ])
                    t.input_tokens;
              output_tokens =
                  or_before
                    (elim a [
                      | some u ↦ 0
                      | none ↦ elim b [
                        | some n ↦ 0
                        | none ↦ elim c [ some u ↦ or_keep u.output 0 | none ↦ 0 ]
                      ]
                    ])
                    (t.output_tokens + (elim a [
                      | some u ↦ plus u.output 0
                      | none ↦ elim b [ some n ↦ plus n 0 | none ↦ 0 ]
                    ]));
            })
    by_reading (some u) b c =
        ground (arith, or_keep_lem u.input t.input_tokens, plus_lem u.output t.output_tokens)
    by_reading none (some n) c = ground (arith, plus_lem n t.output_tokens)
    by_reading none none (some u) =
        ground (arith, or_keep_lem u.input t.input_tokens, or_keep_lem u.output t.output_tokens)
    by_reading none none none = ground arith

-- The loop over values.
abbrev all_values : List Json → Tokens → Tokens
all_values [] t = t
all_values (j ∷ js) t = all_values js (value_tokens j t)

lines_tokens_lem :
    (unmarshal : Bytes → Option Json) (lines : List Bytes) (t : Tokens)
    → lines_tokens unmarshal lines t ≡ all_values (values_of unmarshal lines) t
unfolding lines_tokens
lines_tokens_lem unmarshal [] t = refl
lines_tokens_lem unmarshal (line ∷ lines) t = elim (Option-cases (line_value unmarshal line)) [
  | inl blank ↦ rw blank (lines_tokens_lem unmarshal lines t)
  | inr (j, read) ↦ rw read (lines_tokens_lem unmarshal lines (value_tokens j t))
]

input_lem :
    (js : List Json) (t : Tokens)
    → (all_values js t).input_tokens ≡ or_before (last_positive reported_input js) t.input_tokens
input_lem [] t = refl
input_lem (j ∷ js) t = ground (arith, value_tokens_lem j t, input_lem js (value_tokens j t))

sum_lem :
    (js : List Json) (t : Tokens)
    → All (λ j. total_output j ≡ 0) js
    → (all_values js t).output_tokens ≡ t.output_tokens + sum_by added_output js
sum_lem [] t h = omega arith
sum_lem (j ∷ js) t h = ground (arith, value_tokens_lem j t, sum_lem js (value_tokens j t) h.1)

last_lem :
    (js : List Json) (t : Tokens)
    → All (λ j. added_output j ≡ 0) js
    → (all_values js t).output_tokens ≡ or_before (last_positive total_output js) t.output_tokens
last_lem [] t h = refl
last_lem (j ∷ js) t h = ground (arith, value_tokens_lem j t, last_lem js (value_tokens j t) h.1)

-- The input count of a stream of events is the last positive one that a value reports. Where no
-- value gives a total output, the output count is the sum of the added ones; where none adds to it,
-- it is the last positive total.
pub parse_sse_token_usage_totals :
    (unmarshal : Bytes → Option Json) (body : Bytes)
    → let js = values_of unmarshal (split b'\n' body) in
      let tokens = parse_sse_token_usage unmarshal body in
      (tokens.input_tokens ≡ last_positive reported_input js)
      × (All (λ j. total_output j ≡ 0) js → tokens.output_tokens ≡ sum_by added_output js)
      × (All (λ j. added_output j ≡ 0) js → tokens.output_tokens ≡ last_positive total_output js)
unfolding parse_sse_token_usage
parse_sse_token_usage_totals unmarshal body =
    rw (lines_tokens_lem unmarshal (split b'\n' body) no_tokens) (
      or_zero _ (input_lem js no_tokens),
      (λ h. or_plus _ (sum_lem js no_tokens h)),
      λ h. or_zero _ (last_lem js no_tokens h),
    )
  where
    js : List Json
    js = values_of unmarshal (split b'\n' body)

    or_zero : {k : ℕ} (n : ℕ) → k ≡ or_before n 0 → k ≡ n
    or_zero n e = ground arith

    or_plus : {k : ℕ} (n : ℕ) → k ≡ 0 + n → k ≡ n
    or_plus n e = omega arith
