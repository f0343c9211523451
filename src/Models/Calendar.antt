-- ===== src/Models/Calendar.antt =====
-- The part of Go's `time` that the periods use: the Gregorian calendar in UTC.
use quota_management.Prelude.{
  ℕ, zero, suc, ◌+◌, ◌-◌, ◌*◌, ◌/◌, ◌%◌, ◌≤◌, ◌<◌, Bool, true, false, ◌&&◌, ◌||◌, not, List, [],
  ◌∷◌, arith, ltb, ◌==◌, if◌then◌else◌,
}

abbrev pub hour : ℕ
hour = 3600

abbrev pub day : ℕ
day = 86400

abbrev pub week : ℕ
week = 604800

pub is_leap : ℕ → Bool
is_leap y = (y % 4 == 0) && (not (y % 100 == 0) || (y % 400 == 0))

-- The months of a year by their lengths.
month_lengths : Bool → List ℕ
month_lengths leap =
    31 ∷ (if leap then 29 else 28) ∷ 31 ∷ 30 ∷ 31 ∷ 30 ∷ 31 ∷ 31 ∷ 30 ∷ 31 ∷ 30 ∷ 31 ∷ []

-- The day of the month, from 0, and the month's length, for day `d` of a year.
month_at : List ℕ → ℕ → ℕ × ℕ
month_at [] d = (0, 31)
month_at (n ∷ ns) d = let rest = month_at ns (d - n) in if ltb d n then (d, n) else rest

-- Walks the years from `y` on; `fuel` bounds the number of years.
month_from : ℕ → ℕ → ℕ → ℕ × ℕ
unfolding month_lengths month_at is_leap
month_from zero y d = (0, 31)
month_from (suc fuel) y d =
    let size = if is_leap y then 366 else 365 in
    let rest = month_from fuel (suc y) (d - size) in
    if ltb d size then month_at (month_lengths (is_leap y)) d else rest

-- The day of the month, from 0, and the month's length, for day `d` since 1970-01-01. A year has
-- at least 365 days, so `d / 365` years and one more are enough.
unfoldable pub month_of : ℕ → ℕ × ℕ
unfolding month_from
month_of d = month_from (suc (d / 365)) 1970 d

-- `AddDate(0, 1, 0)` keeps the day of the month and normalises: it adds this month's length.
unfoldable pub add_date_month : ℕ → ℕ
add_date_month t = t + (month_of (t / day)).1 * day

-- `t + INTERVAL '1 month'` goes to the same day of the next month, or to its last day.
unfoldable pub add_interval_month : ℕ → ℕ
add_interval_month t =
    let (d, size) = month_of (t / day) in
    let next = size - d in
    let last = (month_of (t / day + next)).1 - 1 in
    t + (next + (if ltb last d then last else d)) * day

abbrev IsMonth : ℕ × ℕ → Type 0
IsMonth (d, n) = (28 ≤ n) × (n ≤ 31) × (d < n)

abbrev AllMonths : List ℕ → Type 0
AllMonths [] = Unit
AllMonths (n ∷ ns) = (28 ≤ n) × (n ≤ 31) × AllMonths ns

month_at-IsMonth : (ns : List ℕ) (d : ℕ) → AllMonths ns → IsMonth (month_at ns d)
unfolding month_at
month_at-IsMonth [] d h = omega arith
month_at-IsMonth (n ∷ ns) d h = ground (arith, month_at-IsMonth ns (d - n) h.2)

month_lengths_bounds : (leap : Bool) → AllMonths (month_lengths leap)
unfolding month_lengths
month_lengths_bounds true = omega arith
month_lengths_bounds false = omega arith

month_from-IsMonth : (fuel y d : ℕ) → IsMonth (month_from fuel y d)
unfolding month_from
month_from-IsMonth zero y d = omega arith
month_from-IsMonth (suc fuel) y d =
    let size : ℕ = if is_leap y then 366 else 365 in
    ground (
      arith,
      month_from-IsMonth fuel (suc y) (d - size),
      month_at-IsMonth (month_lengths (is_leap y)) d (month_lengths_bounds (is_leap y)),
    )

pub month_of-IsMonth : (d : ℕ) → IsMonth (month_of d)
unfolding month_of
month_of-IsMonth d = month_from-IsMonth (suc (d / 365)) 1970 d

pub add_date_month_bounds :
    (t : ℕ) → (t + 28 * day ≤ add_date_month t) × (add_date_month t ≤ t + 31 * day)
unfolding add_date_month
add_date_month_bounds t = omega (arith, month_of-IsMonth (t / day))

-- Go's month never ends before the database's.
pub interval-le-date : (t : ℕ) → add_interval_month t ≤ add_date_month t
unfolding add_date_month add_interval_month
interval-le-date t = grind (
  arith,
  month_of-IsMonth (t / day),
  month_of-IsMonth (t / day + ((month_of (t / day)).1 - (month_of (t / day)).0)),
)
