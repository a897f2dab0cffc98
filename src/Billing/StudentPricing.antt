-- ===== src/Billing/StudentPricing.antt =====
-- src/billing/student-pricing.ts: the pricing configuration of a plan and the price of a number of
-- students. The rates of a configuration are counts of thousandths; a quote computes with the
-- floats nearest to them.
pub mod Tiers
pub mod Whole
pub mod Parsed
pub mod Quote
use eleeveon_schools_backend.Prelude.{
  ℕ, zero, suc, ◌+◌, ◌-◌, ◌*◌, ◌/◌, ◌%◌, String, Bool, true, false, not, ◌&&◌, ◌||◌, Option, none,
  some, get_or, is_some, List, [], ◌∷◌, ◌===◌, leb, ltb, length, min, max, if◌then◌else◌,
}
use eleeveon_schools_backend.Number.{pos, Float}
use eleeveon_schools_backend.Result.{Result, ok, err, error, ◌>>=◌, ◌>>◌, throw_if}
use eleeveon_schools_backend.Json.{
  finite, Value, undefined, null, number, text, array, object, Fields, items, get, is_nullish,
  is_safe_integer,
}
use eleeveon_schools_backend.Billing.Calculator.{BillingCycle, monthly, termly, yearly}

pub data PricingMode : Type 0 where
  fixed per_student tiered : PricingMode

-- `upTo: null` is `none`.
pub record Tier : Type 0 where
  pub up_to : Option ℕ
  pub unit_price : ℕ

pub record StudentPricing : Type 0 where
  pub mode : PricingMode
  pub billing_period : Option BillingCycle
  pub per_student_rate : Option ℕ
  pub minimum_amount : Option ℕ
  pub tiers : Option (List Tier)

abbrev pub fixed_pricing : StudentPricing
fixed_pricing = record {
  mode = fixed;
  billing_period = none;
  per_student_rate = none;
  minimum_amount = none;
  tiers = none;
}

-- `isNonnegative`, with the number that it lets through
abbrev pub nonnegative : Value → Result ℕ
nonnegative (number (finite (pos n))) = ok n
nonnegative _ = err error

abbrev pub mode_of : Value → Result PricingMode
mode_of (text s) =
    if s === "fixed"
    then ok fixed
    else if s === "per_student"
    then ok per_student
    else if s === "tiered"
    then ok tiered
    else err error
mode_of _ = err error

abbrev pub period_of : Value → Result BillingCycle
period_of (text s) =
    if s === "monthly"
    then ok monthly
    else if s === "termly"
    then ok termly
    else if s === "yearly"
    then ok yearly
    else err error
period_of _ = err error

-- A threshold must be a safe integer above the last one.
abbrev pub threshold : ℕ → Value → Result ℕ
threshold last (number (finite (pos n))) =
    if is_safe_integer n && ltb last (n / 1000) then ok (n / 1000) else err error
threshold last _ = err error

abbrev pub is_empty {ℓ} : {A : Type ℓ} → List A → Bool
is_empty [] = true
is_empty (_ ∷ _) = false

-- The price has been read; an unlimited tier must be the last one.
abbrev parse_tier : ℕ → Bool → ℕ → Value → Result Tier
parse_tier last is_last price null =
    if is_last then ok (record { up_to = none; unit_price = price }) else err error
parse_tier last is_last price v = do
  u ← threshold last v
  ok (record { up_to = some u; unit_price = price })

abbrev tier_of : ℕ → Bool → Value → Result Tier
tier_of last is_last (object o) = do
  price ← nonnegative (get o "unitPrice")
  parse_tier last is_last price (get o "upTo")
tier_of last is_last _ = err error

-- the callback of `p.tiers.map`, which carries `last`
tiers_from : ℕ → List Value → Result (List Tier)
tiers_from last [] = ok []
tiers_from last (v ∷ vs) = do
  t ← tier_of last (is_empty vs) v
  ts ← tiers_from (get_or t.up_to last) vs
  ok (t ∷ ts)

-- `tiers.at(-1)?.upTo === null`
abbrev ends_unlimited : List Tier → Bool
ends_unlimited [] = false
ends_unlimited (t ∷ []) = not (is_some t.up_to)
ends_unlimited (_ ∷ t ∷ ts) = ends_unlimited (t ∷ ts)

parse_tiers : Value → Result (List Tier)
unfolding tiers_from
parse_tiers (array vs) = do
  throw_if (is_empty (items vs) || ltb 20 (length (items vs))) error
  ts ← tiers_from 0 (items vs)
  throw_if (not (ends_unlimited ts)) error
  ok ts
parse_tiers _ = err error

-- what `minimumAmount` may be: absent (0) or not negative
abbrev pub minimum_of : Value → Result ℕ
minimum_of v = if is_nullish v then ok 0 else nonnegative v

rates_of : PricingMode → Fields → BillingCycle → ℕ → Result StudentPricing
unfolding parse_tiers
rates_of fixed p period minimum = ok fixed_pricing
rates_of per_student p period minimum = do
  rate ← nonnegative (get p "perStudentRate")
  ok (record {
    mode = per_student;
    billing_period = some period;
    per_student_rate = some rate;
    minimum_amount = some minimum;
    tiers = none;
  })
rates_of tiered p period minimum = do
  ts ← parse_tiers (get p "tiers")
  ok (record {
    mode = tiered;
    billing_period = some period;
    per_student_rate = none;
    minimum_amount = some minimum;
    tiers = some ts;
  })

-- `if (p.mode === "fixed") return …`, before the other fields are read
of_mode : PricingMode → Fields → Result StudentPricing
unfolding rates_of
of_mode fixed p = ok fixed_pricing
of_mode mode p = do
  period ← period_of (get p "billingPeriod")
  minimum ← minimum_of (get p "minimumAmount")
  rates_of mode p period minimum

pricing_of : Value → Result StudentPricing
unfolding of_mode
pricing_of undefined = ok fixed_pricing
pricing_of null = ok fixed_pricing
pricing_of (object p) = do mode ← mode_of (get p "mode"); of_mode mode p
pricing_of _ = err error

-- Metadata that is no object has no pricing.
unfoldable pub parse_student_pricing : Value → Result StudentPricing
unfolding pricing_of get
parse_student_pricing (object metadata) = pricing_of (get metadata "pricing")
parse_student_pricing _ = pricing_of undefined

-- `tier.upTo === null ? students : Math.min(students, tier.upTo)`
abbrev pub reach : Option ℕ → ℕ → ℕ
reach none students = students
reach (some u) students = min students u

module _ (float : Float) where
  open float use {Double, of_nat, add, mul, div, larger, round}

  -- A number in thousandths as the nearest float, which is what reading it from JSON gives.
  abbrev pub price_of : ℕ → Double
  price_of n = div (of_nat n) (of_nat 1000)

  -- the loop over the tiers, with `amount` and `assigned`; what is left of it after a `break` is
  -- the sum so far
  unfoldable pub charge : List Tier → ℕ → Double → ℕ → Double × ℕ
  charge [] students amount assigned = (amount, assigned)
  charge (tier ∷ ts) students amount assigned =
      let next = reach tier.up_to students in
      let sum = add amount (mul (of_nat (next - assigned)) (price_of tier.unit_price)) in
      let rest = charge ts students sum next in if leb students next then (sum, next) else rest

  -- `Math.round(x * 100) / 100`
  abbrev pub rounded : Double → Double
  rounded x = div (of_nat (round (mul x (of_nat 100)))) (of_nat 100)

  amount_of : PricingMode → StudentPricing → ℕ → Result Double
  unfolding charge
  amount_of fixed pricing students = err error
  amount_of per_student pricing students =
      ok (mul (of_nat students) (price_of (get_or pricing.per_student_rate 0)))
  amount_of tiered pricing students =
      let (amount, assigned) = charge (get_or pricing.tiers []) students (of_nat 0) 0 in
      if ltb assigned students then err error else ok amount

  -- A student count is a whole number here.
  unfoldable pub calculate_student_quote : StudentPricing → ℕ → Result Double
  unfolding amount_of
  calculate_student_quote pricing students = do
    throw_if (ltb students 1 || ltb 1000000 students) error
    amount ← amount_of pricing.mode pricing students
    ok (rounded (larger amount (price_of (get_or pricing.minimum_amount 0))))
