-- ===== src/Billing/Calculator.antt =====
-- src/billing/subscription-calculator.service.ts, with the types of
-- src/billing/types/subscription.types.ts and src/billing/types/proration.types.ts that it uses.
-- Amounts are whole (Prisma `Int`) and not negative; dates are milliseconds.
pub mod Bounds
use eleeveon_schools_backend.Prelude.{
  ℕ, ◌+◌, ◌-◌, String, Bool, Option, none, some, get_or, ◌===◌, min, max, if◌then◌else◌,
}
use eleeveon_schools_backend.Number.{ℤ, pos, negsuc, max_zero, Float}
use eleeveon_schools_backend.Billing.Calendar.{add_months, add_years}

pub data BillingCycle : Type 0 where
  monthly termly yearly manual : BillingCycle

pub BillingCycle-discrete : Discrete BillingCycle
BillingCycle-discrete = hlevel

pub record PlanPrices : Type 0 where
  pub price_monthly : ℕ
  pub price_termly : ℕ
  pub price_yearly : ℕ

unfoldable pub price_for_cycle : PlanPrices → BillingCycle → ℕ
price_for_cycle plan monthly = plan.price_monthly
price_for_cycle plan termly = plan.price_termly
price_for_cycle plan yearly = plan.price_yearly
price_for_cycle plan manual = 0

unfoldable pub period_end : ℕ → BillingCycle → ℕ
period_end start monthly = add_months 1 start
period_end start termly = add_months 4 start
period_end start yearly = add_years 1 start
period_end start manual = start

pub record ProrationInput : Type 0 where
  pub current_period_start : ℕ
  pub current_period_end : ℕ
  pub effective_at : ℕ
  pub current_period_amount : ℕ

pub record MoneyBreakdown : Type 0 where
  pub currency : String
  pub list_amount : ℕ
  pub base_amount : ℕ
  pub credit_amount : ℕ
  pub discount_amount : ℕ
  pub tax_amount : ℕ
  pub amount_due : ℕ

pub record MoneyInput : Type 0 where
  pub currency : String
  pub list_amount : ℕ
  pub base_amount : ℕ
  pub credit_amount : Option ℤ
  pub discount_amount : Option ℤ
  pub tax_amount : Option ℤ

-- `input.baseAmount - creditAmount - discountAmount + taxAmount`, not below 0: the sum is taken
-- first, so that the subtraction stops at 0 exactly where `Math.max(0, …)` does.
unfoldable pub money : MoneyInput → MoneyBreakdown
money input =
    let credit = max_zero (get_or input.credit_amount (pos 0)) in
    let discount = max_zero (get_or input.discount_amount (pos 0)) in
    let tax = max_zero (get_or input.tax_amount (pos 0)) in
    record {
      currency = input.currency;
      list_amount = input.list_amount;
      base_amount = input.base_amount;
      credit_amount = credit;
      discount_amount = discount;
      tax_amount = tax;
      amount_due = input.base_amount + tax - (credit + discount);
    }

module _ (float : Float) where
  open float use {Double, of_nat, div, mul, floor}

  pub record ProrationResult : Type 0 where
    pub total_milliseconds : ℕ
    pub remaining_milliseconds : ℕ
    pub elapsed_milliseconds : ℕ
    pub remaining_ratio : Double
    pub credit_amount : ℕ

  -- A difference of times that `Math.max` raises to 1 or 0 is the difference on ℕ.
  unfoldable pub calculate_proration : ProrationInput → ProrationResult
  calculate_proration input =
      let total = max 1 (input.current_period_end - input.current_period_start) in
      let effective_time =
        min input.current_period_end (max input.current_period_start input.effective_at) in
      let remaining = input.current_period_end - effective_time in
      let ratio = div (of_nat remaining) (of_nat total) in
      record {
        total_milliseconds = total;
        remaining_milliseconds = remaining;
        elapsed_milliseconds = total - remaining;
        remaining_ratio = ratio;
        credit_amount = floor (mul (of_nat input.current_period_amount) ratio);
      }

  -- `Math.floor(amount * (percent / 100))`
  unfoldable pub percent_of : ℕ → ℕ → ℕ
  percent_of amount percent = floor (mul (of_nat amount) (div (of_nat percent) (of_nat 100)))

  discount_of : String → Option ℤ → ℕ → ℕ
  unfolding percent_of
  discount_of kind none amount = if kind === "free" then amount else 0
  discount_of kind (some value) amount =
      if kind === "free"
      then amount
      else if kind === "fixed"
      then min amount (max_zero value)
      else if kind === "percentage"
      then percent_of amount (min 100 (max_zero value))
      else 0

  -- An absent type and the empty string are both falsy.
  unfoldable pub apply_discount : ℕ → Option String → Option ℤ → ℕ
  unfolding discount_of
  apply_discount amount none value = 0
  apply_discount amount (some kind) value = if kind === "" then 0 else discount_of kind value amount
