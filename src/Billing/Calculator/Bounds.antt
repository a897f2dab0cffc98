-- ===== src/Billing/Calculator/Bounds.antt =====
-- Bounds of prorated credits, discounts, amounts due and period ends.
use eleeveon_schools_backend.Prelude.{
  ℕ, ◌+◌, ◌-◌, ◌*◌, ◌≤◌, ◌<◌, ◌≡◌, String, Option, none, some, arith, ap, ◌⊎◌, ◌∙◌, min, max,
}
use eleeveon_schools_backend.Number.{ℤ, Float, safe_limit, max_zero}
use eleeveon_schools_backend.Billing.Calendar.{ms_per_day}
use eleeveon_schools_backend.Billing.Calendar.Steps.{add_months_one, add_months_four, add_years_one}
use eleeveon_schools_backend.Billing.Calendar.Fields.{month_len_bounds}
use eleeveon_schools_backend.Billing.Calculator.{
  BillingCycle, monthly, termly, yearly, manual, period_end, ProrationInput, MoneyInput, money,
  calculate_proration, percent_of, discount_of, apply_discount,
}

-- the shortest and the longest period of a cycle, in days
abbrev pub least_days : BillingCycle → ℕ
least_days monthly = 28
least_days termly = 120
least_days yearly = 365
least_days manual = 0

abbrev pub most_days : BillingCycle → ℕ
most_days monthly = 31
most_days termly = 123
most_days yearly = 366
most_days manual = 0

-- A period ends 28 to 31 days after its start when monthly, 120 to 123 when termly, 365 or 366 when
-- yearly, and at its start when manual.
pub period_end_bounds :
    (start : ℕ) (cycle : BillingCycle)
    → (start + least_days cycle * ms_per_day ≤ period_end start cycle)
      × (period_end start cycle ≤ start + most_days cycle * ms_per_day)
unfolding period_end
period_end_bounds t monthly = omega (arith, add_months_one t, month_len_bounds)
period_end_bounds t termly = add_months_four t
period_end_bounds t yearly = add_years_one t
period_end_bounds t manual = omega arith

-- The amount due with the credit and the discount covers the base and the tax and is never more
-- than base and tax; either nothing is due or the sum balances base and tax exactly.
pub money_balances :
    (input : MoneyInput)
    → let m = money input in
      (m.base_amount + m.tax_amount ≤ m.amount_due + m.credit_amount + m.discount_amount)
      × (m.amount_due ≤ m.base_amount + m.tax_amount)
      × ((m.amount_due ≡ 0)
          ⊎ (m.amount_due + m.credit_amount + m.discount_amount ≡ m.base_amount + m.tax_amount))
unfolding money
money_balances input = grind arith

module _ (float : Float) where
  open float use {
    Double, of_nat, le, div, mul, floor, floor_mono, floor-of_nat, div_mono, div_self, div-zero,
    mul_mono, mul-one, mul-zero,
  }

  -- the share `part / whole` of an amount, rounded down
  abbrev share : ℕ → ℕ → ℕ → ℕ
  share amount part whole = floor (mul (of_nat amount) (div (of_nat part) (of_nat whole)))

  share_mono : (n a b c : ℕ) → a ≤ b → 0 < c → share n a c ≤ share n b c
  share_mono n a b c h p = floor_mono _ _ (mul_mono n _ _ (div_mono a b c h p))

  share_all : (n c : ℕ) → n < safe_limit → 0 < c → share n c c ≡ n
  share_all n c s p =
      ap (λ x. floor (mul (of_nat n) x)) (div_self c p) ∙ (ap floor (mul-one n) ∙ floor-of_nat n s)

  share_none : (n c : ℕ) → 0 < c → share n 0 c ≡ 0
  share_none n c p =
      ap (λ x. floor (mul (of_nat n) x)) (div-zero c p)
      ∙ (ap floor (mul-zero n) ∙ floor-of_nat 0 (omega arith))

  share-le : (n a c : ℕ) → n < safe_limit → a ≤ c → 0 < c → share n a c ≤ n
  share-le n a c s h p = omega (arith, share_mono n a c c h p, share_all n c s p)

  pub percent_of-le :
      (amount percent : ℕ)
      → amount < safe_limit
      → percent ≤ 100
      → percent_of float amount percent ≤ amount
  unfolding percent_of
  percent_of-le amount percent s h = share-le amount percent 100 s h (omega arith)

  module _ (input : ProrationInput) where
    total : ℕ
    total = max 1 (input.current_period_end - input.current_period_start)

    remaining : ℕ
    remaining =
        input.current_period_end
        - min input.current_period_end (max input.current_period_start input.effective_at)

    -- Whatever the order of the three dates, elapsed and remaining time add up to the total, and
    -- the credit for a safe amount is at most that amount.
    pub calculate_proration_bounds :
        input.current_period_amount < safe_limit
        → let r = calculate_proration float input in
          (r.elapsed_milliseconds + r.remaining_milliseconds ≡ r.total_milliseconds)
          × (r.credit_amount ≤ input.current_period_amount)
    unfolding calculate_proration total remaining
    calculate_proration_bounds s = (
      omega arith,
      share-le input.current_period_amount remaining total s (omega arith) (omega arith),
    )

    -- Once the period has ended nothing is credited.
    pub calculate_proration_late :
        input.current_period_end ≤ input.effective_at
        → (calculate_proration float input).credit_amount ≡ 0
    unfolding calculate_proration total remaining
    calculate_proration_late late =
        let over : remaining ≡ 0 = omega arith in
        rw over (share_none input.current_period_amount total (omega arith))

    -- Before a period of some length has begun, the whole of a safe amount is credited.
    pub calculate_proration_early :
        input.current_period_amount < safe_limit
        → input.effective_at ≤ input.current_period_start
        → input.current_period_start < input.current_period_end
        → (calculate_proration float input).credit_amount ≡ input.current_period_amount
    unfolding calculate_proration total remaining
    calculate_proration_early s early some_length =
        let whole : remaining ≡ total = omega arith in
        rw whole (share_all input.current_period_amount total s (omega arith))

  -- A later change is credited no more than an earlier one.
  pub calculate_proration_antitone :
      (input : ProrationInput) (later : ℕ)
      → input.effective_at ≤ later
      → (calculate_proration float (record input { effective_at = later })).credit_amount
        ≤ (calculate_proration float input).credit_amount
  unfolding calculate_proration
  calculate_proration_antitone input later h =
      share_mono input.current_period_amount _ _ _ (omega arith) (omega arith)

  -- A discount is never more than the amount it is taken from, whatever its type and value.
  pub apply_discount-le :
      (amount : ℕ) (kind : Option String) (value : Option ℤ)
      → amount < safe_limit
      → apply_discount float amount kind value ≤ amount
  unfolding apply_discount percent_of discount_of
  apply_discount-le amount none value s = omega arith
  apply_discount-le amount (some kind) none s = ground arith
  apply_discount-le amount (some kind) (some value) s =
      ground (arith, share-le amount (min 100 (max_zero value)) 100 s)
