-- ===== src/Billing/Calendar/Fields.antt =====
-- The fields of a time stand for that time.
use eleeveon_schools_backend.Prelude.{
  ℕ, zero, suc, ◌+◌, ◌-◌, ◌*◌, ◌/◌, ◌%◌, ◌≤◌, ◌<◌, ◌≡◌, refl, arith,
}
use eleeveon_schools_backend.Billing.Calendar.{
  ms_per_day, year_len, month_len, days_to_year, days_to_month, Civil, split_year, split_month,
  fields, time_of,
}

year_len_bounds : (k : ℕ) → (365 ≤ year_len k) × (year_len k ≤ 366)
unfolding year_len
year_len_bounds k = ground arith

pub month_len_bounds : (k m : ℕ) → (28 ≤ month_len k m) × (month_len k m ≤ 31)
unfolding month_len
month_len_bounds k m = ground arith

-- Twelve months make the year.
pub days_to_month-year_len : (k : ℕ) → days_to_month k 12 ≡ year_len k
unfolding days_to_month month_len year_len
days_to_month-year_len k = ground arith

last_month : (k m : ℕ) → m ≡ 11 → days_to_month k m + month_len k m ≡ year_len k
unfolding days_to_month
last_month k m e = rw e (days_to_month-year_len k)

split_year_sum :
    (fuel k r : ℕ)
    → days_to_year (split_year fuel k r).0 + (split_year fuel k r).1 ≡ days_to_year k + r
unfolding split_year days_to_year
split_year_sum zero k r = refl
split_year_sum (suc f) k r = ground (arith, split_year_sum f (suc k) (r - year_len k))

split_year_lt :
    (fuel k r : ℕ) → r ≤ fuel → (split_year fuel k r).1 < year_len (split_year fuel k r).0
unfolding split_year
split_year_lt zero k r h = omega (arith, year_len_bounds k)
split_year_lt (suc f) k r h =
    ground (arith, year_len_bounds k, split_year_lt f (suc k) (r - year_len k))

split_month_sum :
    (fuel k m r : ℕ)
    → days_to_month k (split_month fuel k m r).0 + (split_month fuel k m r).1
      ≡ days_to_month k m + r
unfolding split_month days_to_month
split_month_sum zero k m r = refl
split_month_sum (suc f) k m r = ground (arith, split_month_sum f k (suc m) (r - month_len k m))

split_month_le : (fuel k m r : ℕ) → (split_month fuel k m r).0 ≤ m + fuel
unfolding split_month
split_month_le zero k m r = omega arith
split_month_le (suc f) k m r = ground (arith, split_month_le f k (suc m) (r - month_len k m))

split_month_lt :
    (fuel k m r : ℕ)
    → m + fuel ≡ 11
    → days_to_month k m + r < year_len k
    → (split_month fuel k m r).1 < month_len k (split_month fuel k m r).0
unfolding split_month days_to_month
split_month_lt zero k m r e h = omega (arith, last_month k m (omega arith))
split_month_lt (suc f) k m r e h = ground (arith, split_month_lt f k (suc m) (r - month_len k m))

-- The fields of a day and month that exist
pub record IsValid (c : Civil) : Type 0 where
  pub month : c.month ≤ 11
  pub day : c.day < month_len c.year c.month
  pub ms : c.ms < ms_per_day

-- The time of fields whose month is in range
pub time_of_in_range :
    (c : Civil)
    → c.month ≤ 11
    → time_of c ≡ (days_to_year c.year + days_to_month c.year c.month + c.day) * ms_per_day + c.ms
unfolding time_of
time_of_in_range c h =
    let same_year : c.year + c.month / 12 ≡ c.year = omega arith in
    let same_month : c.month % 12 ≡ c.month = omega arith in rw (same_year, same_month)

split_sum :
    (n : ℕ)
    → let k = (split_year n 0 n).0 in
      let r = (split_year n 0 n).1 in
      let s = split_month 11 k 0 r in days_to_year k + days_to_month k s.0 + s.1 ≡ n
unfolding days_to_year days_to_month
split_sum n =
    omega
      (arith, split_year_sum n 0 n, split_month_sum 11 (split_year n 0 n).0 0 (split_year n 0 n).1)

-- The fields of a time are those of a day that exists, and they stand for that very time.
pub time_of-fields : (t : ℕ) → IsValid (fields t) × (time_of (fields t) ≡ t)
unfolding fields
time_of-fields t = (
  record { month = month; day = day; ms = omega arith },
  omega (arith, time_of_in_range (fields t) month, split_sum n),
)
  where
    n : ℕ
    n = t / ms_per_day

    k : ℕ
    k = (split_year n 0 n).0

    r : ℕ
    r = (split_year n 0 n).1

    month : (split_month 11 k 0 r).0 ≤ 11
    month = split_month_le 11 k 0 r

    day : (split_month 11 k 0 r).1 < month_len k (split_month 11 k 0 r).0
    day =
        split_month_lt 11 k 0 r refl
          (unfold days_to_month in omega (arith, split_year_lt n 0 n (omega arith)))
