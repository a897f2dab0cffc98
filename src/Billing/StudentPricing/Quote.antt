-- ===== src/Billing/StudentPricing/Quote.antt =====
-- The quotes of a configuration that was accepted.
use eleeveon_schools_backend.Prelude.{
  ℕ, ◌≤◌, ◌<◌, ◌≡◌, some, get_or, List, ltb, arith, max, ◌||◌, ◌/◌, ◌+◌, ◌-◌, ◌≢◌, refl, ap, ◌∙◌,
  false, All,
}
use eleeveon_schools_backend.Result.{ok}
use eleeveon_schools_backend.Number.{Float, safe_limit}
use eleeveon_schools_backend.Json.{Value}
use eleeveon_schools_backend.Billing.StudentPricing.{
  PricingMode, fixed, per_student, tiered, Tier, StudentPricing, parse_student_pricing, price_of,
  charge, rounded, amount_of, calculate_student_quote,
}
use eleeveon_schools_backend.Billing.StudentPricing.Tiers.{
  IsLadder, sum_rates, charge_exactly, charge_of_IsLadder,
}
use eleeveon_schools_backend.Billing.StudentPricing.Whole.{
  IsWhole, HasWholeRate, charge-assigned, charge-HasWholeRate, rounded-larger,
}
use eleeveon_schools_backend.Billing.StudentPricing.Parsed.{parse-HasLadder, parsed-IsLadder}

module _ (float : Float) where
  open float use {Double, of_nat, mul, larger}

  amount_of-tiered :
      (p : StudentPricing) (ts : List Tier) (students : ℕ)
      → p.mode ≡ tiered
      → p.tiers ≡ some ts
      → IsLadder 0 ts
      → 1 ≤ students
      → amount_of float p.mode p students ≡ ok ((charge float ts students (of_nat 0) 0).0)
  unfolding amount_of
  amount_of-tiered p ts students e h l one =
      let all : (charge float ts students (of_nat 0) 0).1 ≡ students =
        charge-assigned float ts students (of_nat 0) 0 0
        ∙ ap (λ c. c.1) (charge_of_IsLadder students l 0 (omega arith)) in
      rw e (rw h (rw all (ground arith)))

  -- what a quote does with an amount
  conclude_with :
      (p : StudentPricing) (students : ℕ) (amount : Double)
      → 1 ≤ students
      → students ≤ 1000000
      → amount_of float p.mode p students ≡ ok amount
      → calculate_student_quote float p students
        ≡ ok (rounded float (larger amount (price_of float (get_or p.minimum_amount 0))))
  unfolding calculate_student_quote
  conclude_with p students amount one many e =
      let allowed : (ltb students 1 || ltb 1000000 students) ≡ false = ground arith in
      rw allowed (rw e refl)

  -- For 1 to 1,000,000 students a configuration that parses and is not fixed has a quote: the
  -- tiers that were accepted cover every such number.
  pub quote_is_given :
      (metadata : Value) (p : StudentPricing) (students : ℕ)
      → parse_student_pricing metadata ≡ ok p
      → p.mode ≢ fixed
      → 1 ≤ students
      → students ≤ 1000000
      → (quote : Double) × (calculate_student_quote float p students ≡ ok quote)
  unfolding amount_of
  quote_is_given v p students h other one many = by_mode p.mode refl
    where
      by_mode :
          (m : PricingMode)
          → p.mode ≡ m
          → (quote : Double) × (calculate_student_quote float p students ≡ ok quote)
      by_mode fixed e = absurd (other e)
      by_mode per_student e = (
        _,
        conclude_with p students
            (mul (of_nat students) (price_of float (get_or p.per_student_rate 0))) one many
            (rw e refl),
      )
      by_mode tiered e =
          let (ts, held, ladder) = parse-HasLadder v p h e in
          (
            _,
            conclude_with p students _ one many (amount_of-tiered p ts students e held ladder one),
          )

  -- A configuration that parses as tiered holds tiers whose thresholds strictly increase up to a
  -- last unlimited one. Where its rates and its minimum are whole cedis and the sum over the
  -- students of the rate of the tier that each falls in is a safe number of thousandths, the quote
  -- for 1 to 1,000,000 students is exactly that sum, or the minimum if that is more.
  pub tiered_quote :
      (metadata : Value) (p : StudentPricing) (ts : List Tier) (students : ℕ)
      → parse_student_pricing metadata ≡ ok p
      → p.mode ≡ tiered
      → p.tiers ≡ some ts
      → 1 ≤ students
      → students ≤ 1000000
      → All HasWholeRate ts
      → IsWhole (get_or p.minimum_amount 0)
      → sum_rates ts 0 students < safe_limit
      → IsLadder 0 ts
        × (calculate_student_quote float p students
            ≡ ok (of_nat (max (sum_rates ts 0 students) (get_or p.minimum_amount 0) / 1000)))
  tiered_quote v p ts students h e held one many whole minimum safe =
      let ladder = parsed-IsLadder v p ts h e held in
      let exact = charge_of_IsLadder students ladder 0 (omega arith) in
      let whole_range : students - 0 ≡ students = omega arith in
      let from_none : 0 + sum_rates ts 0 (students - 0) ≡ sum_rates ts 0 students =
        rw whole_range (omega arith) in
      let sum : (charge_exactly ts students 0 0).0 ≡ sum_rates ts 0 students =
        ap (λ c. c.0) exact ∙ from_none in
      let amount : (charge float ts students (of_nat 0) 0).0
          ≡ of_nat (sum_rates ts 0 students / 1000) =
        ap (λ c. c.0) (charge-HasWholeRate float ts students 0 0 whole (rw sum safe))
        ∙ ap (λ n. of_nat (n / 1000)) sum in
      (
        ladder,
        conclude_with p students _ one many (amount_of-tiered p ts students e held ladder one)
            ∙ ap (λ x. ok (rounded float (larger x (price_of float (get_or p.minimum_amount 0)))))
                amount
            ∙ ap ok (
                rounded-larger float (sum_rates ts 0 students) (get_or p.minimum_amount 0) safe
                  minimum),
      )
