-- ===== src/Prelude/Lists.antt =====
-- Lists over the native numbers: length, sums, rows that pass a Boolean test, and predicates by
-- recursion.
use Prim.Native.Nat.{ℕ, zero, suc, ◌+◌, ◌≤◌}
use mathlib.Core.Path.{◌≡◌, refl, sym, subst, ap, ◌∙◌}
use mathlib.Core.Logic.{inl, inr}
use mathlib.Core.Bool.{Bool, true, false}
use mathlib.Core.Option.{Option, none, some}
use mathlib.Core.List.{List, [], ◌∷◌, ◌++◌, Memᴰ}
use mathlib.Core.List.Memᴰ
use native.Mathlib.Omega.{arith}
use quota_management.Prelude.Tests.{if◌then◌else◌, Bool-cases}

module _ {ℓ} {A : Type ℓ} where
  abbrev pub length : List A → ℕ
  length [] = 0
  length (x ∷ xs) = suc (length xs)

  abbrev pub take : ℕ → List A → List A
  take zero xs = []
  take (suc n) [] = []
  take (suc n) (x ∷ xs) = x ∷ take n xs

  abbrev pub drop : ℕ → List A → List A
  drop zero xs = xs
  drop (suc n) [] = []
  drop (suc n) (x ∷ xs) = drop n xs

  abbrev pub reverse : List A → List A
  reverse [] = []
  reverse (x ∷ xs) = reverse xs ++ (x ∷ [])

  -- The rows that pass a test, in their order.
  abbrev pub select : (A → Bool) → List A → List A
  select p [] = []
  select p (x ∷ xs) = if p x then x ∷ select p xs else select p xs

  abbrev pub find_first : (A → Bool) → List A → Option A
  find_first p [] = none
  find_first p (x ∷ xs) = if p x then some x else find_first p xs

  -- `UPDATE … SET f WHERE p`, and how many rows it changes.
  abbrev pub update_where : (A → Bool) → (A → A) → List A → List A
  update_where p f [] = []
  update_where p f (x ∷ xs) = (if p x then f x else x) ∷ update_where p f xs

  abbrev pub count_where : (A → Bool) → List A → ℕ
  count_where p [] = 0
  count_where p (x ∷ xs) = (if p x then 1 else 0) + count_where p xs

  abbrev pub sum_by : (A → ℕ) → List A → ℕ
  sum_by f [] = 0
  sum_by f (x ∷ xs) = f x + sum_by f xs

  pub length-append : (xs ys : List A) → length (xs ++ ys) ≡ length xs + length ys
  length-append [] ys = omega arith
  length-append (x ∷ xs) ys = omega (arith, length-append xs ys)

  pub sum_by-append : (f : A → ℕ) (xs ys : List A) → sum_by f (xs ++ ys) ≡ sum_by f xs + sum_by f ys
  sum_by-append f [] ys = omega arith
  sum_by-append f (x ∷ xs) ys = omega (arith, sum_by-append f xs ys)

  pub length-update_where :
      (p : A → Bool) (f : A → A) (xs : List A) → length (update_where p f xs) ≡ length xs
  length-update_where p f [] = refl
  length-update_where p f (x ∷ xs) = omega (arith, length-update_where p f xs)

  pub length-reverse : (xs : List A) → length (reverse xs) ≡ length xs
  length-reverse [] = refl
  length-reverse (x ∷ xs) = omega (arith, length-append (reverse xs) (x ∷ []), length-reverse xs)

  pub take-append-drop : (m n : ℕ) (xs : List A) → take m xs ++ take n (drop m xs) ≡ take (m + n) xs
  take-append-drop zero n xs = ap (λ k. take k xs) (from_zero n)
    where
      from_zero : (n : ℕ) → n ≡ 0 + n
      from_zero n = omega arith
  take-append-drop (suc m) n [] = take_none n ∙ sym (take_none (suc m + n))
    where
      take_none : (n : ℕ) → take n [] ≡ []
      take_none zero = refl
      take_none (suc n) = refl
  take-append-drop (suc m) n (x ∷ xs) =
      ap (λ ys. x ∷ ys) (take-append-drop m n xs) ∙ ap (λ k. take k (x ∷ xs)) (one_more m n)
    where
      one_more : (m n : ℕ) → suc (m + n) ≡ suc m + n
      one_more m n = omega arith

  pub take_all : (n : ℕ) (xs : List A) → length xs ≤ n → take n xs ≡ xs
  take_all zero [] h = refl
  take_all zero (x ∷ xs) h = absurd (omega (arith, h))
  take_all (suc n) [] h = refl
  take_all (suc n) (x ∷ xs) h = ap (λ ys. x ∷ ys) (take_all n xs (omega (arith, h)))

  pub length-take-le : (n : ℕ) (xs : List A) → length (take n xs) ≤ n
  length-take-le zero xs = omega arith
  length-take-le (suc n) [] = omega arith
  length-take-le (suc n) (x ∷ xs) = omega (arith, length-take-le n xs)

  pub select-append :
      (p : A → Bool) (xs ys : List A) → select p (xs ++ ys) ≡ select p xs ++ select p ys
  select-append p [] ys = refl
  select-append p (x ∷ xs) ys = elim (Bool-cases (p x)) [
    | inl hit ↦ rw (hit, select-append p xs ys)
    | inr miss ↦ rw miss (select-append p xs ys)
  ]

  pub select_idem : (p : A → Bool) (xs : List A) → select p (select p xs) ≡ select p xs
  select_idem p [] = refl
  select_idem p (x ∷ xs) = elim (Bool-cases (p x)) [
    | inl hit ↦ rw (hit, hit, select_idem p xs)
    | inr miss ↦ rw miss (select_idem p xs)
  ]

  pub select_disjoint :
      (p q : A → Bool) (xs : List A)
      → ((x : A) → q x ≡ true → p x ≡ false)
      → select p (select q xs) ≡ []
  select_disjoint p q [] h = refl
  select_disjoint p q (x ∷ xs) h = elim (Bool-cases (q x)) [
    | inl hit ↦ rw (hit, h x hit) (select_disjoint p q xs h)
    | inr miss ↦ rw miss (select_disjoint p q xs h)
  ]

abbrev pub All {ℓ κ} : {A : Type ℓ} → (A → Type κ) → List A → Type κ
All P [] = Unit
All P (x ∷ xs) = P x × All P xs

-- A row that a search finds passes its test, and has what all rows have.
pub find_first-All {ℓ κ} :
    {A : Type ℓ} (P : A → Type κ) (p : A → Bool) (xs : List A) {a : A}
    → All P xs
    → find_first p xs ≡ some a
    → P a × (p a ≡ true)
find_first-All P p [] h e = absurd (cc)
find_first-All P p (x ∷ xs) {a} h e = elim (Bool-cases (p x)) [
  | inl hit ↦
      let same : x ≡ a = cc (rw hit at e) in (subst P same h.0, subst (λ y. p y ≡ true) same hit)
  | inr miss ↦ find_first-All P p xs h.1 (rw miss at e)
]

pub select-All {ℓ κ} :
    {A : Type ℓ} (P : A → Type κ) (p : A → Bool) (xs : List A) → All P xs → All P (select p xs)
select-All P p [] h = h
select-All P p (x ∷ xs) h = elim (Bool-cases (p x)) [
  | inl hit ↦ rw hit (h.0, select-All P p xs h.1)
  | inr miss ↦ rw miss (select-All P p xs h.1)
]

-- What each row of a list has, and what one of its rows has where all have it.
pub All_of {ℓ κ} :
    {A : Type ℓ} (P : A → Type κ) (xs : List A) → ((x : A) → Memᴰ x xs → P x) → All P xs
All_of P [] h = tt
All_of P (x ∷ xs) h = (h x (Memᴰ.head refl), All_of P xs (λ y m. h y (Memᴰ.tail m)))

pub All_at {ℓ κ} : {A : Type ℓ} (P : A → Type κ) (xs : List A) {a : A} → All P xs → Memᴰ a xs → P a
All_at P [] h m = absurd (Memᴰ.not-nil m)
All_at P (x ∷ xs) {a} h m = elim (Memᴰ.cases_cons m) [
  | inl same ↦ subst P (sym same) h.0
  | inr rest ↦ All_at P xs h.1 rest
]

append-All {ℓ κ} :
    {A : Type ℓ} (P : A → Type κ) (xs ys : List A) → All P xs → All P ys → All P (xs ++ ys)
append-All P [] ys h k = k
append-All P (x ∷ xs) ys h k = (h.0, append-All P xs ys h.1 k)

pub reverse-All {ℓ κ} : {A : Type ℓ} (P : A → Type κ) (xs : List A) → All P xs → All P (reverse xs)
reverse-All P [] h = tt
reverse-All P (x ∷ xs) h = append-All P (reverse xs) (x ∷ []) (reverse-All P xs h.1) (h.0, tt)
