-- ===== src/RateLimit/Pattern.antt =====
-- internal/db/ratelimit_repository.go: the condition on model_pattern in
-- `GetAllocationsForTeamModel`, `$2 LIKE replace(model_pattern, '*', '%')`. Text is a list of code
-- points.
use quota_management.Prelude.{
  ℕ, String, ◌≡◌, refl, Bool, true, false, ◌||◌, List, [], ◌∷◌, ◌==◌, if◌then◌else◌, str_eq,
}
use quota_management.Prelude.Text.{codes}

-- `replace(model_pattern, '*', '%')`
abbrev like_pattern : List ℕ → List ℕ
like_pattern [] = []
like_pattern (c ∷ cs) = (if c == b'*' then b'%' else c) ∷ like_pattern cs

any_suffix : (List ℕ → Bool) → List ℕ → Bool
any_suffix f [] = f []
any_suffix f (c ∷ cs) = f (c ∷ cs) || any_suffix f cs

one_char : (ℕ → Bool) → (List ℕ → Bool) → List ℕ → Bool
one_char p f [] = false
one_char p f (c ∷ cs) = if p c then f cs else false

-- `%` is any text, `_` any character, and a backslash takes the next character as it is. A pattern
-- that ends in a backslash, which the database refuses, matches nothing here.
like : List ℕ → List ℕ → Bool
unfolding any_suffix one_char
like [] [] = true
like [] (c ∷ cs) = false
like (p ∷ []) cs =
    if p == b'%'
    then true
    else if p == b'\\'
    then false
    else one_char (λ c. if p == b'_' then true else p == c) (like []) cs
like (p ∷ q ∷ ps) cs =
    let literal = one_char (λ c. q == c) (like ps) cs in
    let any = any_suffix (like (q ∷ ps)) cs in
    let one = one_char (λ c. if p == b'_' then true else p == c) (like (q ∷ ps)) cs in
    if p == b'%' then any else if p == b'\\' then literal else one

unfoldable pub matches_model : String → String → Bool
unfolding like
matches_model pattern model =
    str_eq pattern model
    || (str_eq pattern "*" || like (like_pattern (codes pattern)) (codes model))

prefix_run : matches_model "gpt-4*" "gpt-4o-mini" ≡ true
unfolding matches_model
prefix_run = refl

-- The underscore of a pattern is a wildcard.
underscore_run : matches_model "gpt_4" "gpt-4" ≡ true
unfolding matches_model
underscore_run = refl

other_run : matches_model "gpt-4*" "claude-3" ≡ false
unfolding matches_model
other_run = refl
