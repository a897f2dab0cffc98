-- ===== src/Billing/Calendar.antt =====
-- The parts of JavaScript's `Date` that src/billing/subscription-calculator.service.ts uses, in UTC
-- and from 1970 on: the fields of a time, and the time of fields whose month or day may overflow.
-- Times are milliseconds, years count from 1970, months and days from 0.
pub mod Fields
pub mod Steps
use eleeveon_schools_backend.Prelude.{
  ℕ, zero, suc, ◌+◌, ◌-◌, ◌*◌, ◌/◌, ◌%◌, Bool, true, false, not, ◌&&◌, ◌||◌, ◌==ℕ◌, ltb,
  if◌then◌else◌,
}

abbrev pub ms_per_day : ℕ
ms_per_day = 86400000

-- The year is the Gregorian one, 1970 + k.
pub is_leap : ℕ → Bool
is_leap k = let y = 1970 + k in (y % 4) ==ℕ 0 && (not ((y % 100) ==ℕ 0) || (y % 400) ==ℕ 0)

pub year_len : ℕ → ℕ
year_len k = if is_leap k then 366 else 365

pub month_len : ℕ → ℕ → ℕ
month_len k m =
    if m ==ℕ 1
    then (if is_leap k then 29 else 28)
    else if m ==ℕ 3 || m ==ℕ 5 || m ==ℕ 8 || m ==ℕ 10
    then 30
    else 31

pub days_to_year : ℕ → ℕ
days_to_year zero = 0
days_to_year (suc k) = days_to_year k + year_len k

pub days_to_month : ℕ → ℕ → ℕ
days_to_month k zero = 0
days_to_month k (suc m) = days_to_month k m + month_len k m

pub record Civil : Type 0 where
  pub year : ℕ
  pub month : ℕ
  pub day : ℕ
  pub ms : ℕ

-- Whole years, then whole months, are taken off a number of days.
split_year : ℕ → ℕ → ℕ → ℕ × ℕ
split_year zero k r = (k, r)
split_year (suc fuel) k r = elim (ltb r (year_len k)) [
  | true ↦ (k, r)
  | false ↦ split_year fuel (suc k) (r - year_len k)
]

split_month : ℕ → ℕ → ℕ → ℕ → ℕ × ℕ
split_month zero k m r = (m, r)
split_month (suc fuel) k m r = elim (ltb r (month_len k m)) [
  | true ↦ (m, r)
  | false ↦ split_month fuel k (suc m) (r - month_len k m)
]

-- `getUTCFullYear`, `getUTCMonth`, `getUTCDate` and the time within the day
unfoldable pub fields : ℕ → Civil
unfolding split_year split_month year_len month_len is_leap
fields t =
    let (k, r) = split_year (t / ms_per_day) 0 (t / ms_per_day) in
    let (m, d) = split_month 11 k 0 r in
    record { year = k; month = m; day = d; ms = t % ms_per_day }

-- `MakeDate (MakeDay year month day) ms`: a month past 11 counts as one of a later year, and a day
-- past the end of its month as one of a later month.
unfoldable pub time_of : Civil → ℕ
unfolding days_to_year days_to_month year_len month_len is_leap
time_of c =
    let k = c.year + c.month / 12 in
    (days_to_year k + days_to_month k (c.month % 12) + c.day) * ms_per_day + c.ms

-- `setUTCMonth(getUTCMonth() + n)`
unfoldable pub add_months : ℕ → ℕ → ℕ
add_months n t = let c = fields t in time_of (record c { month = c.month + n })

-- `setUTCFullYear(getUTCFullYear() + n)`
unfoldable pub add_years : ℕ → ℕ → ℕ
add_years n t = let c = fields t in time_of (record c { year = c.year + n })
