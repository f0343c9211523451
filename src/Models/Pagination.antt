-- ===== src/Models/Pagination.antt =====
-- internal/models/pagination.go and internal/api/pagination.go: pages of a listing.
use quota_management.Prelude.{
  ℕ, suc, refl, ap, ◌+◌, ◌-◌, ◌*◌, ◌/◌, ◌%◌, ◌≤◌, ◌<◌, ◌≡◌, ◌⊎◌, inl, inr, Option, none, some,
  arith, ltb, if◌then◌else◌,
}

pub record PaginationParams : Type 0 where
  pub page : ℕ
  pub page_size : ℕ

pub record PaginationMeta : Type 0 where
  pub meta_page : ℕ
  pub meta_page_size : ℕ
  pub total_count : ℕ
  pub total_pages : ℕ

-- The page is at least 1, so the subtraction is exact.
unfoldable pub offset : PaginationParams → ℕ
offset p = (p.page - 1) * p.page_size

unfoldable pub new_pagination_meta : PaginationParams → ℕ → PaginationMeta
new_pagination_meta p count = record {
  meta_page = p.page;
  meta_page_size = p.page_size;
  total_count = count;
  total_pages =
      if ltb 0 (count % p.page_size) then count / p.page_size + 1 else count / p.page_size;
}

abbrev pub default_page_size : ℕ
default_page_size = 30

abbrev pub max_page_size : ℕ
max_page_size = 30

-- The argument is a query parameter after `strconv.Atoi`: `none` where it is absent, no number or
-- negative.
or_default : ℕ → Option ℕ → ℕ
or_default d none = d
or_default d (some v) = if ltb 0 v then v else d

clamp_size : ℕ → ℕ
clamp_size v = if ltb max_page_size v then max_page_size else v

unfoldable pub parse_pagination : Option ℕ → Option ℕ → PaginationParams
unfolding or_default clamp_size
parse_pagination page size = record {
  page = or_default 1 page;
  page_size = clamp_size (or_default default_page_size size);
}

add-sub_one : (n : ℕ) → n + 1 - 1 ≡ n
add-sub_one n = omega arith

page_holds : (s i : ℕ) → 0 < s → ((i / s + 1 - 1) * s ≤ i) × (i < (i / s + 1 - 1) * s + s)
page_holds s i h = rw add-sub_one (grind arith)

mul_mono : (s a b : ℕ) → a ≤ b → a * s ≤ b * s
mul_mono s a b h = grind arith

le_or_lt : (a b : ℕ) → (a ≤ b) ⊎ (b < a)
le_or_lt a b = omega arith

page_exists :
    (s i count : ℕ)
    → 0 < s
    → i < count
    → i / s + 1 ≤ (if ltb 0 (count % s) then count / s + 1 else count / s)
page_exists s i count h k = elim (le_or_lt (count / s) (i / s)) [
  | inl beyond ↦ grind (arith, mul_mono s (count / s) (i / s) beyond)
  | inr within ↦ ground arith
]

clamp_bounds :
    (size : Option ℕ)
    → (1 ≤ clamp_size (or_default default_page_size size))
      × (clamp_size (or_default default_page_size size) ≤ 30)
unfolding clamp_size or_default
clamp_bounds none = ground arith
clamp_bounds (some v) = ground arith

pub page_size_bounds :
    (page size : Option ℕ)
    → (1 ≤ (parse_pagination page size).page_size) × ((parse_pagination page size).page_size ≤ 30)
unfolding parse_pagination
page_size_bounds page size = clamp_bounds size

-- The size is that of the query, whatever the page, and the offset that of the page before.
pub parse_pagination_page :
    (n : ℕ) (size : Option ℕ)
    → ((parse_pagination (some (suc n)) size).page_size ≡ (parse_pagination none size).page_size)
      × (offset (parse_pagination (some (suc n)) size)
          ≡ (suc n - 1) * (parse_pagination none size).page_size)
unfolding parse_pagination offset or_default
parse_pagination_page n size =
    (refl, ap (λ k. (k - 1) * clamp_size (or_default default_page_size size)) (positive n))
  where
    positive : (n : ℕ) → (if ltb 0 (suc n) then suc n else 1) ≡ suc n
    positive n = ground arith

-- The counted pages have room for all rows.
pub total_pages_suffice :
    (p : PaginationParams) (count : ℕ)
    → 1 ≤ p.page_size
    → count ≤ (new_pagination_meta p count).total_pages * p.page_size
unfolding new_pagination_meta
total_pages_suffice p count h = ground (arith, rounded p.page_size count h)
  where
    rounded : (s n : ℕ) → 1 ≤ s → n ≤ (if ltb 0 (n % s) then n / s + 1 else n / s) * s
    rounded s n h = grind arith

-- Whatever the query, a page has between 1 and 30 rows, and every row of a listing of `count`
-- stands on one of the pages that the response counts: row `i` is on the page with offset at most
-- `i` and below `offset + page_size`, for page number `i / page_size + 1`, which is at most
-- `total_pages`.
pub pagination_covers :
    (page size : Option ℕ) (count i : ℕ)
    → i < count
    → let p = parse_pagination page size in
      let q : PaginationParams = record p { page = i / p.page_size + 1 } in
      (1 ≤ p.page_size)
      × (p.page_size ≤ 30)
      × (offset q ≤ i)
      × (i < offset q + q.page_size)
      × (q.page ≤ (new_pagination_meta p count).total_pages)
unfolding parse_pagination offset new_pagination_meta
pagination_covers page size count i h =
    let s : ℕ = clamp_size (or_default default_page_size size) in
    let sized : (1 ≤ s) × (s ≤ 30) = clamp_bounds size in
    (
      sized.0,
      sized.1,
      (page_holds s i sized.0).0,
      (page_holds s i sized.0).1,
      page_exists s i count sized.0 h,
    )
