-- ===== src/Budget/ModelName.antt =====
-- internal/budget/service.go: the regular expression that strips a model's version suffix,
-- `-(\d{4}-\d{2}-\d{2}|\d{8}|v\d+)$`.
use Prim.Native.Char.{code}
use quota_management.Prelude.{
  ℕ, String, ◌≡◌, refl, Bool, true, false, ◌&&◌, ◌||◌, List, [], ◌∷◌, leb, ◌==◌, if◌then◌else◌,
}

abbrev codes : String → List ℕ
codes String.[] = []
codes (String.◌∷◌ c s) = code c ∷ codes s

is_digit : ℕ → Bool
is_digit c = leb b'0' c && leb c b'9'

-- `\d+$`
all_digits : List ℕ → Bool
unfolding is_digit
all_digits [] = false
all_digits (c ∷ []) = is_digit c
all_digits (c ∷ d ∷ cs) = is_digit c && all_digits (d ∷ cs)

-- Whether the rest is of the given shape: 0 stands for a digit, any other number for itself.
shaped : List ℕ → List ℕ → Bool
unfolding is_digit
shaped [] [] = true
shaped [] (c ∷ cs) = false
shaped (p ∷ ps) [] = false
shaped (p ∷ ps) (c ∷ cs) = (if p == 0 then is_digit c else p == c) && shaped ps cs

date_shape : List ℕ
date_shape = 0 ∷ 0 ∷ 0 ∷ 0 ∷ b'-' ∷ 0 ∷ 0 ∷ b'-' ∷ 0 ∷ 0 ∷ []

compact_shape : List ℕ
compact_shape = 0 ∷ 0 ∷ 0 ∷ 0 ∷ 0 ∷ 0 ∷ 0 ∷ 0 ∷ []

v_number : List ℕ → Bool
unfolding all_digits
v_number [] = false
v_number (c ∷ cs) = (c == b'v') && all_digits cs

is_version : List ℕ → Bool
unfolding shaped date_shape compact_shape v_number
is_version cs = shaped date_shape cs || shaped compact_shape cs || v_number cs

-- `ReplaceAllString(model, "")`: the leftmost dash with a version behind it ends the name.
pub strip_version : String → String
unfolding is_version
strip_version String.[] = String.[]
strip_version (String.◌∷◌ c s) =
    let rest = String.◌∷◌ c (strip_version s) in
    if (code c == b'-') && is_version (codes s) then String.[] else rest

strip_dated : strip_version "gpt-4o-mini-2024-07-18" ≡ "gpt-4o-mini"
unfolding strip_version
strip_dated = refl

strip_compact : strip_version "claude-3-20240229" ≡ "claude-3"
unfolding strip_version
strip_compact = refl

strip_v : strip_version "text-embedding-v12" ≡ "text-embedding"
unfolding strip_version
strip_v = refl

strip_none : strip_version "gpt-4o" ≡ "gpt-4o"
unfolding strip_version
strip_none = refl
