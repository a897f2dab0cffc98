-- ===== src/Billing/Tests.antt =====
-- Concrete runs of prices, periods and quotes.
use native.Mathlib.Nat.{
  mul-mul-mul_comm, mul_comm, mul-div_right, zero-div, le-div_iff_mul-le, div-mul-le_self,
  mul-le-mul_left,
}
use eleeveon_schools_backend.Prelude.{
  ℕ, ◌+◌, ◌*◌, ◌/◌, ◌≤◌, ◌<◌, ◌≡◌, refl, arith, ap, ◌∙◌, ◌%◌, ◌==ℕ◌, ◌&&◌, ltb, if◌then◌else◌,
  Option, none, some, List, [], ◌∷◌, max,
}
use eleeveon_schools_backend.Number.{safe_limit, Float, pos}
use eleeveon_schools_backend.Json.{
  finite, Value, number, text, array, object, null, cons, nil, field, end,
}
use eleeveon_schools_backend.Billing.Calculator.{
  monthly, termly, period_end, ProrationInput, calculate_proration,
}
use eleeveon_schools_backend.Billing.Calculator.Bounds.{
  period_end_bounds, calculate_proration_bounds,
}
use eleeveon_schools_backend.Billing.StudentPricing.{
  tiered, Tier, StudentPricing, parse_student_pricing, calculate_student_quote,
}
use eleeveon_schools_backend.Billing.StudentPricing.Tiers.{IsLadder, sum_rates, rate_at}
use eleeveon_schools_backend.Billing.StudentPricing.Quote.{tiered_quote}
use eleeveon_schools_backend.Result.{ok}

pub div_mono : (k a b : ℕ) → 0 < k → a ≤ b → a / k ≤ b / k
div_mono k a b p h = (le-div_iff_mul-le p).1 (omega (arith, div-mul-le_self a k))

abbrev pub whole_thousands : ℕ → Option ℕ
whole_thousands a = if (a % 1000) ==ℕ 0 && ltb (a / 1000) safe_limit then some (a / 1000) else none

pub whole_thousands_sound :
    (a n : ℕ) → whole_thousands a ≡ some n → (a ≡ n * 1000) × (n < safe_limit)
whole_thousands_sound a n h = grind arith

pub mul_thousandths : (a b : ℕ) → a * 1000 * (b * 1000) / 1000 ≡ a * b * 1000
mul_thousandths a b =
    let grouped = mul-mul-mul_comm a 1000 b 1000 in
    let e : a * 1000 * (b * 1000) ≡ 1000 * (a * b * 1000) = omega arith in
    ap (λ n. n / 1000) e ∙ mul-div_right (a * b * 1000) (omega arith)

pub div_thousandths : (a c : ℕ) → 0 < c → a * c * 1000 * 1000 / (c * 1000) ≡ a * 1000
div_thousandths a c p =
    let grouped = mul-mul-mul_comm c 1000 a 1000 in
    let turned = mul_comm c a in
    let e : a * c * 1000 * 1000 ≡ c * 1000 * (a * 1000) = omega arith in
    ap (λ n. n / (c * 1000)) e ∙ mul-div_right (a * 1000) (omega arith)

-- numbers in thousandths
abbrev pub thousandths : Float
thousandths = record {
  Double = ℕ;
  of_nat = λ n. n * 1000;
  le = λ a b. a ≤ b;
  div = λ a b. a * 1000 / b;
  mul = λ a b. a * b / 1000;
  floor = λ a. a / 1000;
  floor_mono = λ x y h. omega arith;
  floor-of_nat = λ n h. omega arith;
  div_mono = λ a b c h p.
      div_mono (c * 1000) (a * 1000 * 1000) (b * 1000 * 1000) (omega arith) (omega arith);
  div_self = λ a p. mul-div_right 1000 (omega arith);
  div-zero = λ c p. zero-div (c * 1000);
  mul_mono = λ n x y h.
      div_mono 1000 (n * 1000 * x) (n * 1000 * y) (omega arith) (mul-le-mul_left (n * 1000) h);
  mul-one = λ n. omega arith;
  mul-zero = λ n. omega arith;
  add = λ a b. a + b;
  larger = max;
  round = λ a. (a + 500) / 1000;
  safe_integer = whole_thousands;
  add-of_nat = λ a b h. omega arith;
  mul-of_nat = λ a b h. mul_thousandths a b;
  div-of_nat = λ a c p h. div_thousandths a c p;
  larger-of_nat = λ a b. omega arith;
  round-of_nat = λ n h. omega arith;
  safe_integer_sound = whole_thousands_sound;
}

-- 30 days that are paid with 900, of which 10 have passed
abbrev input : ProrationInput
input = record {
  current_period_start = 0;
  current_period_end = 2592000000;
  effective_at = 864000000;
  current_period_amount = 900;
}

credit_example : (calculate_proration thousandths input).credit_amount ≡ 599
unfolding calculate_proration
credit_example = refl

calculate_proration_bounds_example :
    ((calculate_proration thousandths input).elapsed_milliseconds
        + (calculate_proration thousandths input).remaining_milliseconds
      ≡ (calculate_proration thousandths input).total_milliseconds)
    × ((calculate_proration thousandths input).credit_amount ≤ 900)
calculate_proration_bounds_example = calculate_proration_bounds thousandths input (omega arith)

abbrev ended : ProrationInput
ended = record input { effective_at = 3000000000 }

abbrev not_begun : ProrationInput
not_begun = record input { effective_at = 0 }

period_end_bounds_example :
    (1706659200000 + 28 * 86400000 ≤ period_end 1706659200000 monthly)
    × (period_end 1706659200000 monthly ≤ 1706659200000 + 31 * 86400000)
period_end_bounds_example = period_end_bounds 1706659200000 monthly

-- 10 a student up to 50 students, then 8
abbrev tiers_value : Value
tiers_value = array (
    cons
      (object (
        field "upTo" (number (finite (pos 50000)))
          (field "unitPrice" (number (finite (pos 10000))) end)))
      (cons (object (field "upTo" null (field "unitPrice" (number (finite (pos 8000))) end))) nil))

abbrev pub metadata : Value
metadata = object (
    field "pricing"
      (object (
        field "mode" (text "tiered") (
          field "billingPeriod" (text "termly") (
            field "minimumAmount" (number (finite (pos 100000))) (field "tiers" tiers_value end)))))
      end)

abbrev pub tier_list : List Tier
tier_list =
    record { up_to = some 50; unit_price = 10000 } ∷ record { up_to = none; unit_price = 8000 } ∷ []

abbrev pub pricing : StudentPricing
pricing = record {
  mode = tiered;
  billing_period = some termly;
  per_student_rate = none;
  minimum_amount = some 100000;
  tiers = some tier_list;
}

pub parsed_example : parse_student_pricing metadata ≡ ok pricing
unfolding parse_student_pricing
parsed_example = refl

quote_example : calculate_student_quote thousandths pricing 60 ≡ ok 580000
unfolding calculate_student_quote
quote_example = refl

sum_is_safe : sum_rates tier_list 0 60 < safe_limit
unfolding sum_rates rate_at
sum_is_safe = omega arith

tiered_quote_example :
    IsLadder 0 tier_list
    × (calculate_student_quote thousandths pricing 60
        ≡ ok (thousandths.of_nat (max (sum_rates tier_list 0 60) 100000 / 1000)))
tiered_quote_example =
    tiered_quote thousandths metadata pricing tier_list 60 parsed_example refl refl (omega arith)
      (omega arith) (((refl, omega arith)), ((refl, omega arith), tt)) (refl, omega arith)
      sum_is_safe
