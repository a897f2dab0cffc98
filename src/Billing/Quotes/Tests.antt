-- ===== src/Billing/Quotes/Tests.antt =====
-- Concrete runs of the quote of a change of subscription.
use eleeveon_schools_backend.Text.{trim}
use eleeveon_schools_backend.Prelude.{
  ◌≡◌, ◌⊎◌, ◌≤◌, ◌<◌, ◌+◌, ◌-◌, refl, true, none, some, [], ◌∷◌, arith,
}
use eleeveon_schools_backend.Number.{pos, safe_limit}
use eleeveon_schools_backend.Result.{ok, err, bad_request}
use eleeveon_schools_backend.Billing.Calculator.{
  termly, apply_discount, calculate_proration, money, percent_of, price_for_cycle,
}
use eleeveon_schools_backend.Billing.StudentPricing.{
  fixed, calculate_student_quote, parse_student_pricing,
}
use eleeveon_schools_backend.Billing.Tests.{thousandths}
use eleeveon_schools_backend.Billing.Pricing.{
  is_fixed, assignment_for, check_student_priced, override_for,
}
use eleeveon_schools_backend.Billing.Pricing.Resolution.{
  PriceResolution, count_students, list_price, resolution, resolve, student_id, student_price,
}
use eleeveon_schools_backend.Billing.Pricing.Tests.{no_text, db, standard}
use eleeveon_schools_backend.Billing.Quotes.{
  upgrade, QuoteRequest, CurrentSubscription, QuoteTables, Quote, current_price, subscription_of,
  quote_of, quote, amounts_of, check_student_change, code_for, resolve_plan_id,
}
use eleeveon_schools_backend.Billing.Quotes.Bounds.{IsPlain, quote_is_exact}

-- 30 days that cost 90, of which 10 have passed
abbrev current : CurrentSubscription
current = record {
  id = "C";
  account_id = "A";
  plan_id = "P0";
  prices = record { price_monthly = 30; price_termly = 90; price_yearly = 250 };
  billing_cycle = termly;
  current_period_start = some 0;
  current_period_end = some 2592000000;
}

abbrev tables : QuoteTables
tables = record { lookup = db; offers = []; subscriptions = current ∷ [] }

abbrev dto : QuoteRequest
dto = record {
  plan_id = none;
  to_plan_id = some "P2";
  billing_cycle = termly;
  change_type = upgrade;
  effective_mode = none;
  private_offer_id = none;
  private_offer_code = none;
  pricing_override_id = none;
  tax_rate_percent = some (pos 10);
}

abbrev listed : PriceResolution
listed = record {
  plan = standard;
  student_count = none;
  student_pricing_mode = fixed;
  private_offer_assignment = none;
  pricing_override = none;
  currency = "GHS";
  list_amount = 180;
  base_amount = 180;
  discount_amount = 0;
}

abbrev quoted : Quote thousandths
quoted = quote_of thousandths 864000000 "A" dto (some current) "P2" listed

quoted_run : quote thousandths no_text 864000000 "A" dto tables ≡ ok quoted
unfolding quote resolve_plan_id code_for resolve parse_student_pricing check_student_priced
    list_price check_student_change resolution assignment_for override_for price_for_cycle
    apply_discount
quoted_run = refl

amounts_run :
    (quoted.amounts.credit_amount ≡ 59)
    × (quoted.amounts.tax_amount ≡ 12)
    × (quoted.amounts.amount_due ≡ 133)
unfolding quote_of amounts_of money calculate_proration price_for_cycle percent_of
amounts_run = (refl, refl, refl)

-- an upgrade to a plan that is charged by the student
refused_run :
    quote thousandths no_text 864000000 "A" (record dto { to_plan_id = some "P1" }) tables
    ≡ err bad_request
unfolding quote resolve_plan_id code_for resolve parse_student_pricing check_student_priced
    assignment_for override_for list_price student_price count_students student_id trim
    calculate_student_quote check_student_change resolution
refused_run = refl

base_is_safe : quoted.amounts.base_amount < safe_limit
unfolding quote_of amounts_of money
base_is_safe = omega arith

price_is_safe : current_price (subscription_of "A" tables.subscriptions) < safe_limit
unfolding quote_of price_for_cycle
price_is_safe = omega arith

quote_is_exact_example :
    let rest =
      quoted.amounts.base_amount - quoted.amounts.credit_amount - quoted.amounts.discount_amount in
    ((quoted.amounts.credit_amount ≤ current_price (subscription_of "A" tables.subscriptions))
      × (quoted.amounts.amount_due ≡ rest + quoted.amounts.tax_amount)
      × (quoted.amounts.tax_amount ≤ rest))
    × (quoted.new_period_start ≡ quoted.effective_at)
    × ((is_fixed quoted.calculation.student_pricing_mode ≡ true)
        ⊎ IsPlain quoted.change_type quoted.effective_mode)
quote_is_exact_example =
    quote_is_exact thousandths no_text 864000000 "A" dto tables quoted quoted_run base_is_safe
      price_is_safe
