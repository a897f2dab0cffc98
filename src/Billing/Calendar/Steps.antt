-- ===== src/Billing/Calendar/Steps.antt =====
-- How far a time moves when months or years are added to it.
use native.Mathlib.Decide.{dec_lt}
use eleeveon_schools_backend.Prelude.{
  ℕ, if◌then◌else◌, ◌&&◌, zero, suc, ◌+◌, ◌*◌, ◌/◌, ◌%◌, ◌≤◌, ◌<◌, ◌≡◌, refl, true, false, arith,
  ltb,
}
use eleeveon_schools_backend.Billing.Calendar.{
  ms_per_day, is_leap, year_len, month_len, days_to_year, days_to_month, Civil, fields, time_of,
  add_months, add_years,
}
use eleeveon_schools_backend.Billing.Calendar.Fields.{
  days_to_month-year_len, time_of-fields, time_of_in_range,
}

-- the first day of the m-th month from January of year k
month_start : ℕ → ℕ → ℕ
month_start k m = days_to_year (k + m / 12) + days_to_month (k + m / 12) (m % 12)

month_start_in_year : (k m : ℕ) → m ≤ 12 → month_start k m ≡ days_to_year k + days_to_month k m
unfolding month_start days_to_year days_to_month
month_start_in_year k m h = elim (dec_lt m 12) [
  | yes p ↦
      let same_year : k + m / 12 ≡ k = omega arith in
      let same_month : m % 12 ≡ m = omega arith in rw (same_year, same_month)
  | no q ↦
      let all : m ≡ 12 = omega arith in
      let next : k + 12 / 12 ≡ suc k = omega arith in
      rw (all, next) (omega (arith, days_to_month-year_len k))
]

-- From the second year on, months are those of the next year.
month_start_next_year :
    (k m : ℕ) → m < 12 → month_start k (m + 12) ≡ days_to_year (suc k) + days_to_month (suc k) m
unfolding month_start
month_start_next_year k m h =
    let next : k + (m + 12) / 12 ≡ suc k = omega arith in
    let same : (m + 12) % 12 ≡ m = omega arith in rw (next, same)

-- the days of four months in a row, the first of them in year k
four_months :
    (k m : ℕ)
    → m ≤ 11
    → (month_start k m + 120 ≤ month_start k (m + 4))
      × (month_start k (m + 4) ≤ month_start k m + 123)
unfolding days_to_year days_to_month year_len month_len
four_months k zero h = ground (arith, month_start_in_year k 0, month_start_in_year k 4)
four_months k (suc zero) h = ground (arith, month_start_in_year k 1, month_start_in_year k 5)
four_months k (suc (suc zero)) h = ground (arith, month_start_in_year k 2, month_start_in_year k 6)
four_months k (suc (suc (suc zero))) h =
    ground (arith, month_start_in_year k 3, month_start_in_year k 7)
four_months k (suc (suc (suc (suc zero)))) h =
    ground (arith, month_start_in_year k 4, month_start_in_year k 8)
four_months k (suc (suc (suc (suc (suc zero))))) h =
    ground (arith, month_start_in_year k 5, month_start_in_year k 9)
four_months k (suc (suc (suc (suc (suc (suc zero)))))) h =
    ground (arith, month_start_in_year k 6, month_start_in_year k 10)
four_months k (suc (suc (suc (suc (suc (suc (suc zero))))))) h =
    ground (arith, month_start_in_year k 7, month_start_in_year k 11)
four_months k (suc (suc (suc (suc (suc (suc (suc (suc zero)))))))) h =
    ground (arith, month_start_in_year k 8, month_start_in_year k 12)
four_months k (suc (suc (suc (suc (suc (suc (suc (suc (suc zero))))))))) h =
    ground (arith, month_start_in_year k 9, month_start_next_year k 1)
four_months k (suc (suc (suc (suc (suc (suc (suc (suc (suc (suc zero)))))))))) h =
    ground (arith, month_start_in_year k 10, month_start_next_year k 2)
four_months k (suc (suc (suc (suc (suc (suc (suc (suc (suc (suc (suc zero))))))))))) h =
    ground (arith, month_start_in_year k 11, month_start_next_year k 3)
four_months k (suc (suc (suc (suc (suc (suc (suc (suc (suc (suc (suc (suc m)))))))))))) h =
    absurd (omega arith)

one_month : (k m : ℕ) → m ≤ 11 → month_start k (m + 1) ≡ month_start k m + month_len k m
unfolding days_to_month
one_month k m h =
    let same : m + 1 ≡ suc m = omega arith in
    rw same (
      omega
        (arith, month_start_in_year k m (omega arith), month_start_in_year k (suc m) (omega arith)))

not_two_leaps : (k : ℕ) → is_leap k ≡ true → is_leap (suc k) ≡ false
unfolding is_leap
not_two_leaps k h = ground arith

-- the leap day, once February is over
leap_day : ℕ → ℕ → ℕ
leap_day k m = if ltb 1 m && is_leap k then 1 else 0

days_to_month-leap_day :
    (k m : ℕ) → days_to_month k m + leap_day (suc k) m ≡ days_to_month (suc k) m + leap_day k m
unfolding days_to_month leap_day month_len
days_to_month-leap_day k zero = refl
days_to_month-leap_day k (suc m) = ground (arith, days_to_month-leap_day k m)

-- the same month a year later
one_year :
    (k m : ℕ)
    → (days_to_year k + days_to_month k m + 365 ≤ days_to_year (suc k) + days_to_month (suc k) m)
      × (days_to_year (suc k) + days_to_month (suc k) m ≤ days_to_year k + days_to_month k m + 366)
unfolding days_to_year year_len leap_day
one_year k m = ground (arith, days_to_month-leap_day k m, not_two_leaps k)

time_of-month_start :
    (c : Civil) → time_of c ≡ (month_start c.year c.month + c.day) * ms_per_day + c.ms
unfolding time_of month_start
time_of-month_start c = refl

module _ (t : ℕ) where
  -- One month later is as many days later as the month that is left has.
  pub add_months_one : add_months 1 t ≡ t + month_len (fields t).year (fields t).month * ms_per_day
  unfolding add_months
  add_months_one =
      let c : Civil = fields t in
      let (valid, same) = time_of-fields t in
      omega (
        arith,
        time_of-month_start (record c { month = c.month + 1 }),
        time_of-month_start c,
        one_month c.year c.month valid.month,
      )

  -- Four months later is 120 to 123 days later.
  pub add_months_four :
      (t + 120 * ms_per_day ≤ add_months 4 t) × (add_months 4 t ≤ t + 123 * ms_per_day)
  unfolding add_months
  add_months_four =
      let c : Civil = fields t in
      let (valid, same) = time_of-fields t in
      omega (
        arith,
        time_of-month_start (record c { month = c.month + 4 }),
        time_of-month_start c,
        four_months c.year c.month valid.month,
      )

  -- One year later is 365 or 366 days later.
  pub add_years_one :
      (t + 365 * ms_per_day ≤ add_years 1 t) × (add_years 1 t ≤ t + 366 * ms_per_day)
  unfolding add_years
  add_years_one =
      let c : Civil = fields t in
      let (valid, same) = time_of-fields t in
      let next : c.year + 1 ≡ suc c.year = omega arith in
      rw next (
        omega (
          arith,
          time_of_in_range (record c { year = suc c.year }) valid.month,
          time_of_in_range c valid.month,
          one_year c.year c.month,
        ))
