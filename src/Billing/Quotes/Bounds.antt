-- ===== src/Billing/Quotes/Bounds.antt =====
-- src/billing/subscription-change.service.ts, `quote`: the amounts of a quote, and the changes that
-- are refused for a plan that is charged by the student.
use eleeveon_schools_backend.Prelude.{
  ℕ, ◌+◌, ◌-◌, ◌≤◌, ◌<◌, ◌≡◌, ◌⊎◌, refl, inl, inr, String, Bool, true, false, not, ◌&&◌, Option,
  none, some, Bool-cases, arith,
}
use eleeveon_schools_backend.Number.{Float, safe_limit}
use eleeveon_schools_backend.Json.{Value}
use eleeveon_schools_backend.Result.{
  ok, bad_request, bind-eq-ok, guard-eq-ok, throw_if-passed, ok_injective,
}
use eleeveon_schools_backend.Billing.Calculator.{price_for_cycle, money}
use eleeveon_schools_backend.Billing.Calculator.Bounds.{calculate_proration_bounds, percent_of-le}
use eleeveon_schools_backend.Billing.StudentPricing.{PricingMode}
use eleeveon_schools_backend.Billing.Pricing.{is_fixed}
use eleeveon_schools_backend.Billing.Pricing.Resolution.{PriceResolution, resolve}
use eleeveon_schools_backend.Billing.Quotes.{
  ChangeType, new, renewal, extension, upgrade, downgrade, complimentary, manual_change,
  EffectiveMode, immediate, at_period_end, QuoteRequest, CurrentSubscription, QuoteTables,
  resolve_plan_id, code_for, price_request, is_new_or_renewal, is_immediate, mode_of, prorated,
  check_student_change, subscription_of, current_price, effective_time, tax_rate, proration_of,
  credit_in, Quote, amounts_of, quote_of, quote,
}

-- a new subscription or a renewal, which starts at once
abbrev pub IsPlain : ChangeType → EffectiveMode → Type 0
IsPlain change mode = (is_new_or_renewal change ≡ true) × (mode ≡ immediate)

immediate_of : (mode : EffectiveMode) → is_immediate mode ≡ true → mode ≡ immediate
immediate_of immediate h = refl
immediate_of at_period_end h = cc

passes : (a b : Bool) → (not a && not b) ≡ false → a ≡ false → b ≡ true
passes a true h e = refl
passes false false h e = cc
passes true false h e = cc

check_student_change-IsPlain :
    (dto : QuoteRequest) (mode : PricingMode)
    → check_student_change dto mode ≡ ok tt
    → (is_fixed mode ≡ true) ⊎ IsPlain dto.change_type (mode_of dto)
unfolding check_student_change
check_student_change-IsPlain dto mode h =
    let (change, at) = guard-eq-ok _ _ h in
    elim (Bool-cases (is_fixed mode)) [
      | inl e ↦ inl e
      | inr e ↦ inr (
        passes _ _ (throw_if-passed _ bad_request change) e,
        immediate_of (mode_of dto) (passes _ _ (throw_if-passed _ bad_request at) e),
      )
    ]

module _ (float : Float) where
  credit_is_bounded :
      (change : ChangeType) (mode : EffectiveMode) (at : ℕ)
      (subscription : Option CurrentSubscription)
      → current_price subscription < safe_limit
      → credit_in float (proration_of float change mode at subscription)
        ≤ current_price subscription
  credit_is_bounded upgrade immediate at (some s) safe =
      of_dates s.current_period_start s.current_period_end
    where
      of_dates :
          (from until : Option ℕ)
          → credit_in float (prorated float at s from until)
            ≤ price_for_cycle s.prices s.billing_cycle
      of_dates (some from) (some until) = (calculate_proration_bounds float _ safe).1
      of_dates none until = omega arith
      of_dates (some from) none = omega arith
  credit_is_bounded upgrade immediate at none safe = omega arith
  credit_is_bounded upgrade at_period_end at subscription safe = omega arith
  credit_is_bounded new mode at subscription safe = omega arith
  credit_is_bounded renewal mode at subscription safe = omega arith
  credit_is_bounded extension mode at subscription safe = omega arith
  credit_is_bounded downgrade mode at subscription safe = omega arith
  credit_is_bounded complimentary mode at subscription safe = omega arith
  credit_is_bounded manual_change mode at subscription safe = omega arith

  -- What is due is the base amount less the credit and the discount, not below 0, with a tax on it.
  amounts_of-due :
      (pricing : PriceResolution) (credit rate : ℕ)
      → pricing.base_amount < safe_limit
      → rate ≤ 100
      → let m = amounts_of float pricing credit rate in
        let before_tax = m.base_amount - m.credit_amount - m.discount_amount in
        (m.credit_amount ≡ credit)
        × (m.tax_amount ≤ before_tax)
        × (m.amount_due ≡ before_tax + m.tax_amount)
  unfolding amounts_of money
  amounts_of-due pricing credit rate safe h =
      let taxed =
        percent_of-le float (pricing.base_amount - credit - pricing.discount_amount) rate
          (omega arith) h in
      (refl, taxed, omega arith)

  safe_base :
      (pricing : PriceResolution) (credit rate : ℕ)
      → (amounts_of float pricing credit rate).base_amount < safe_limit
      → pricing.base_amount < safe_limit
  unfolding amounts_of money
  safe_base pricing credit rate h = h

  module _ (string_of : Value → String) where
    quote-eq-ok :
        (now : ℕ) (account : String) (dto : QuoteRequest) (db : QuoteTables) (q : Quote float)
        → quote float string_of now account dto db ≡ ok q
        → (plan_id : String) × (pricing : PriceResolution) × (check_student_change dto
              pricing.student_pricing_mode
            ≡ ok tt)
          × (quote_of float now account dto
                (subscription_of account db.subscriptions)
                plan_id
                pricing
              ≡ q)
    unfolding quote
    quote-eq-ok now account dto db q h =
        let (plan_id, _, coded) = bind-eq-ok (resolve_plan_id dto) _ h in
        let (code, _, priced) =
          bind-eq-ok (code_for dto.private_offer_code dto.private_offer_id db.offers) _ coded in
        let (pricing, _, checked) =
          bind-eq-ok
            (resolve string_of float (price_request now account plan_id code dto) db.lookup) _
            priced in
        let (allowed, done) =
          guard-eq-ok (check_student_change dto pricing.student_pricing_mode) _ checked in
        (plan_id, pricing, allowed, ok_injective _ q done)

    -- In a quote whose base amount and whose account's current price are safe integers, the credit
    -- is at most the current price, what is due is exactly the tax and what the credit and the
    -- discount leave of the base amount, and the tax is at most that rest; the new period begins
    -- when the change takes effect; and a plan that is charged by the student is quoted only for
    -- a new subscription or a renewal that takes effect at once.
    pub quote_is_exact :
        (now : ℕ) (account : String) (dto : QuoteRequest) (db : QuoteTables) (q : Quote float)
        → quote float string_of now account dto db ≡ ok q
        → q.amounts.base_amount < safe_limit
        → current_price (subscription_of account db.subscriptions) < safe_limit
        → let rest = q.amounts.base_amount - q.amounts.credit_amount - q.amounts.discount_amount in
          ((q.amounts.credit_amount ≤ current_price (subscription_of account db.subscriptions))
            × (q.amounts.amount_due ≡ rest + q.amounts.tax_amount)
            × (q.amounts.tax_amount ≤ rest))
          × (q.new_period_start ≡ q.effective_at)
          × ((is_fixed q.calculation.student_pricing_mode ≡ true)
              ⊎ IsPlain q.change_type q.effective_mode)
    unfolding quote_of
    quote_is_exact now account dto db q h =
        let (plan_id, pricing, allowed, e) = quote-eq-ok now account dto db q h in
        rw (← e) (λ safe price_safe.
          let subscription = subscription_of account db.subscriptions in
          let at = effective_time now (mode_of dto) subscription in
          let credit =
            credit_in float (proration_of float dto.change_type (mode_of dto) at subscription) in
          let (kept, taxed, due) =
            amounts_of-due pricing credit (tax_rate dto.tax_rate_percent)
              (safe_base pricing credit (tax_rate dto.tax_rate_percent) safe) (omega arith) in
          (
            (
              rw kept (credit_is_bounded dto.change_type (mode_of dto) at subscription price_safe),
              due,
              taxed,
            ),
            refl,
            check_student_change-IsPlain dto pricing.student_pricing_mode allowed,
          ))
