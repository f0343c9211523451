-- ===== src/Prelude/Text.antt =====
-- Text as the list of its code points, for code that walks it: Go's `strings` on ASCII text.
use Prim.Native.Nat.{ℕ, ◌+◌}
use Prim.Native.Char.{code}
use Prim.Native.String.{String}
use mathlib.Core.Path.{◌≡◌, refl}
use mathlib.Core.Bool.{Bool, true, false, ◌&&◌, ◌||◌}
use mathlib.Core.List.{List, [], ◌∷◌}
use quota_management.Prelude.Tests.{leb, ◌==◌, if◌then◌else◌}

abbrev pub Bytes : Type 0
Bytes = List ℕ

abbrev pub codes : String → Bytes
codes String.[] = []
codes (String.◌∷◌ c s) = code c ∷ codes s

abbrev pub same_text : Bytes → Bytes → Bool
same_text [] [] = true
same_text [] (d ∷ ds) = false
same_text (c ∷ cs) [] = false
same_text (c ∷ cs) (d ∷ ds) = (c == d) && same_text cs ds

abbrev lower_code : ℕ → ℕ
lower_code c = if leb b'A' c && leb c b'Z' then c + 32 else c

abbrev pub to_lower : Bytes → Bytes
to_lower [] = []
to_lower (c ∷ cs) = lower_code c ∷ to_lower cs

abbrev pub has_prefix : Bytes → Bytes → Bool
has_prefix [] cs = true
has_prefix (p ∷ ps) [] = false
has_prefix (p ∷ ps) (c ∷ cs) = (p == c) && has_prefix ps cs

-- The text without the prefix; the text itself where it has another beginning.
abbrev pub trim_prefix : Bytes → Bytes → Bytes
trim_prefix ps cs = if has_prefix ps cs then without ps cs else cs
  where
    without : Bytes → Bytes → Bytes
    without [] cs = cs
    without (p ∷ ps) [] = []
    without (p ∷ ps) (c ∷ cs) = without ps cs

abbrev pub contains : Bytes → Bytes → Bool
contains ps [] = has_prefix ps []
contains ps (c ∷ cs) = has_prefix ps (c ∷ cs) || contains ps cs

abbrev onto_first : ℕ → List Bytes → List Bytes
onto_first c [] = (c ∷ []) ∷ []
onto_first c (part ∷ parts) = (c ∷ part) ∷ parts

abbrev pub split : ℕ → Bytes → List Bytes
split sep [] = [] ∷ []
split sep (c ∷ cs) = if c == sep then [] ∷ split sep cs else onto_first c (split sep cs)

abbrev is_space : ℕ → Bool
is_space c = (c == b' ') || (leb 9 c && leb c 13)

abbrev trim_left : Bytes → Bytes
trim_left [] = []
trim_left (c ∷ cs) = if is_space c then trim_left cs else c ∷ cs

abbrev unless_blank : ℕ → Bytes → Bytes
unless_blank c [] = if is_space c then [] else c ∷ []
unless_blank c (d ∷ ds) = c ∷ d ∷ ds

abbrev trim_right : Bytes → Bytes
trim_right [] = []
trim_right (c ∷ cs) = unless_blank c (trim_right cs)

abbrev pub trim_space : Bytes → Bytes
trim_space cs = trim_right (trim_left cs)

split_run : split b',' (codes "a,,b") ≡ codes "a" ∷ [] ∷ codes "b" ∷ []
split_run = refl

trim_run : trim_space (codes "  a b \n") ≡ codes "a b"
trim_run = refl

prefix_run : trim_prefix (codes "data: ") (codes "data: x") ≡ codes "x"
prefix_run = refl
