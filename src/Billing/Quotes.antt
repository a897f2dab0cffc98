-- ===== src/Billing/Quotes.antt =====
-- src/billing/subscription-change.service.ts, `quote`: what a change of subscription costs and when
-- it takes effect. The clock is read once; a relation that a query includes is a field of its row.
pub mod Bounds
mod Tests
use eleeveon_schools_backend.Prelude.{
  ℕ, ◌+◌, ◌-◌, ◌*◌, String, Bool, true, false, not, ◌&&◌, ◌||◌, Option, none, some, get_or,
  coalesce, is_some, List, [], ◌∷◌, ◌===◌, find, min, if◌then◌else◌,
}
use eleeveon_schools_backend.Number.{ℤ, pos, max_zero, Float}
use eleeveon_schools_backend.Json.{Value}
use eleeveon_schools_backend.Result.{
  Result, ok, err, not_found, bad_request, throw_if, or_throw, ◌>>=◌, ◌>>◌,
}
use eleeveon_schools_backend.Roles.Scope.{truthy}
use eleeveon_schools_backend.Billing.Calculator.{
  BillingCycle, PlanPrices, price_for_cycle, period_end, ProrationInput, ProrationResult,
  calculate_proration, percent_of, MoneyBreakdown, money,
}
use eleeveon_schools_backend.Billing.StudentPricing.{PricingMode}
use eleeveon_schools_backend.Billing.Pricing.{
  OfferAssignment, PricingOverride, Lookup, PriceRequest, is_fixed,
}
use eleeveon_schools_backend.Billing.Pricing.Resolution.{PriceResolution, resolve}

pub data ChangeType : Type 0 where
  new renewal extension upgrade downgrade complimentary manual_change : ChangeType

pub data EffectiveMode : Type 0 where
  immediate at_period_end : EffectiveMode

pub record QuoteRequest : Type 0 where
  pub plan_id : Option String
  pub to_plan_id : Option String
  pub billing_cycle : BillingCycle
  pub change_type : ChangeType
  pub effective_mode : Option EffectiveMode
  pub private_offer_id : Option String
  pub private_offer_code : Option String
  pub pricing_override_id : Option String
  pub tax_rate_percent : Option ℤ

-- a row of AccountSubscription, with the prices of its plan
pub record CurrentSubscription : Type 0 where
  pub id : String
  pub account_id : String
  pub plan_id : String
  pub prices : PlanPrices
  pub billing_cycle : BillingCycle
  pub current_period_start : Option ℕ
  pub current_period_end : Option ℕ

-- the columns of PrivateOffer that are selected
pub record OfferCode : Type 0 where
  pub id : String
  pub code : String

pub record QuoteTables : Type 0 where
  pub lookup : Lookup
  pub offers : List OfferCode
  pub subscriptions : List CurrentSubscription

unfoldable pub resolve_plan_id : QuoteRequest → Result String
resolve_plan_id dto =
    let id = coalesce dto.to_plan_id dto.plan_id in
    if truthy id then ok (get_or id "") else err bad_request

-- `offerCode`
abbrev pub offer_code : String → List OfferCode → Result (Option String)
offer_code id offers = do
  offer ← or_throw (find (λ o. o.id === id) offers) not_found
  ok (some offer.code)

unfoldable pub code_for : Option String → Option String → List OfferCode → Result (Option String)
code_for (some code) id offers = ok (some code)
code_for none id offers = if truthy id then offer_code (get_or id "") offers else ok none

abbrev pub price_request : ℕ → String → String → Option String → QuoteRequest → PriceRequest
price_request now account plan_id code dto = record {
  account_id = account;
  plan_id = plan_id;
  billing_cycle = dto.billing_cycle;
  private_offer_code = code;
  pricing_override_id = dto.pricing_override_id;
  at = now;
}

abbrev pub is_new_or_renewal : ChangeType → Bool
is_new_or_renewal new = true
is_new_or_renewal renewal = true
is_new_or_renewal _ = false

abbrev pub is_immediate : EffectiveMode → Bool
is_immediate immediate = true
is_immediate _ = false

abbrev pub default_mode : ChangeType → EffectiveMode
default_mode downgrade = at_period_end
default_mode _ = immediate

abbrev pub mode_of : QuoteRequest → EffectiveMode
mode_of dto = get_or dto.effective_mode (default_mode dto.change_type)

unfoldable pub check_student_change : QuoteRequest → PricingMode → Result (Unit {0})
check_student_change dto mode =
    throw_if (not (is_fixed mode) && not (is_new_or_renewal dto.change_type)) bad_request
    >> throw_if (not (is_fixed mode) && not (is_immediate (mode_of dto))) bad_request

abbrev pub subscription_of : String → List CurrentSubscription → Option CurrentSubscription
subscription_of account rows = find (λ s. s.account_id === account) rows

abbrev pub start_of : Option CurrentSubscription → Option ℕ
start_of none = none
start_of (some s) = s.current_period_start

abbrev pub end_of : Option CurrentSubscription → Option ℕ
end_of none = none
end_of (some s) = s.current_period_end

abbrev pub effective_time : ℕ → EffectiveMode → Option CurrentSubscription → ℕ
effective_time now immediate subscription = now
effective_time now at_period_end subscription = get_or (end_of subscription) now

abbrev pub current_price : Option CurrentSubscription → ℕ
current_price none = 0
current_price (some s) = price_for_cycle s.prices s.billing_cycle

abbrev tax_rate : Option ℤ → ℕ
tax_rate rate = min 100 (max_zero (get_or rate (pos 0)))

abbrev pub source_of : PriceResolution → String
source_of pricing =
    if is_some pricing.pricing_override
    then "pricing_override"
    else if is_some pricing.private_offer_assignment
    then "private_offer"
    else "plan"

abbrev id_of_subscription : Option CurrentSubscription → Option String
id_of_subscription none = none
id_of_subscription (some s) = some s.id

abbrev plan_of_subscription : Option CurrentSubscription → Option String
plan_of_subscription none = none
plan_of_subscription (some s) = some s.plan_id

abbrev id_of_offer : Option OfferAssignment → Option String
id_of_offer none = none
id_of_offer (some a) = some a.offer_id

abbrev id_of_override : Option PricingOverride → Option String
id_of_override none = none
id_of_override (some o) = some o.id

module _ (float : Float) where
  abbrev prorated : ℕ → CurrentSubscription → Option ℕ → Option ℕ → Option (ProrationResult float)
  prorated at s (some from) (some until) = some (
      calculate_proration float (record {
        current_period_start = from;
        current_period_end = until;
        effective_at = at;
        current_period_amount = price_for_cycle s.prices s.billing_cycle;
      }))
  prorated at s _ _ = none

  -- Only an upgrade that takes effect at once is credited.
  abbrev pub proration_of :
      ChangeType → EffectiveMode → ℕ → Option CurrentSubscription → Option (ProrationResult float)
  proration_of upgrade immediate at (some s) =
      prorated at s s.current_period_start s.current_period_end
  proration_of _ _ at subscription = none

  abbrev pub credit_in : Option (ProrationResult float) → ℕ
  credit_in none = 0
  credit_in (some result) = result.credit_amount

  pub record Calculation : Type 0 where
    pub pricing_source : String
    pub student_count : Option ℕ
    pub student_pricing_mode : PricingMode
    pub authoritative_at : Option ℕ
    pub tax_rate_percent : ℕ
    pub proration : Option (ProrationResult float)

  pub record Quote : Type 0 where
    pub account_id : String
    pub subscription_id : Option String
    pub from_plan_id : Option String
    pub to_plan_id : String
    pub private_offer_id : Option String
    pub pricing_override_id : Option String
    pub change_type : ChangeType
    pub billing_cycle : BillingCycle
    pub effective_mode : EffectiveMode
    pub effective_at : ℕ
    pub old_period_start : Option ℕ
    pub old_period_end : Option ℕ
    pub new_period_start : ℕ
    pub new_period_end : ℕ
    pub amounts : MoneyBreakdown
    pub calculation : Calculation
    pub calculation_version : ℕ
    pub quote_expires_at : ℕ

  -- `taxAmount`, on what is left of the base amount
  unfoldable pub amounts_of : PriceResolution → ℕ → ℕ → MoneyBreakdown
  amounts_of pricing credit rate =
      let before_tax = pricing.base_amount - credit - pricing.discount_amount in
      money (record {
        currency = pricing.currency;
        list_amount = pricing.list_amount;
        base_amount = pricing.base_amount;
        credit_amount = some (pos credit);
        discount_amount = some (pos pricing.discount_amount);
        tax_amount = some (pos (percent_of float before_tax rate));
      })

  unfoldable pub quote_of :
      ℕ → String → QuoteRequest → Option CurrentSubscription → String → PriceResolution → Quote
  quote_of now account dto subscription plan_id pricing =
      let mode = mode_of dto in
      let at = effective_time now mode subscription in
      let proration = proration_of dto.change_type mode at subscription in
      record {
        account_id = account;
        subscription_id = id_of_subscription subscription;
        from_plan_id = plan_of_subscription subscription;
        to_plan_id = plan_id;
        private_offer_id =
            coalesce (id_of_offer pricing.private_offer_assignment) dto.private_offer_id;
        pricing_override_id = id_of_override pricing.pricing_override;
        change_type = dto.change_type;
        billing_cycle = dto.billing_cycle;
        effective_mode = mode;
        effective_at = at;
        old_period_start = start_of subscription;
        old_period_end = end_of subscription;
        new_period_start = at;
        new_period_end = period_end at dto.billing_cycle;
        amounts = amounts_of pricing (credit_in proration) (tax_rate dto.tax_rate_percent);
        calculation = record {
          pricing_source = source_of pricing;
          student_count = pricing.student_count;
          student_pricing_mode = pricing.student_pricing_mode;
          authoritative_at = if is_some pricing.student_count then some now else none;
          tax_rate_percent = tax_rate dto.tax_rate_percent;
          proration = proration;
        };
        calculation_version = 1;
        quote_expires_at = now + 30 * 60 * 1000;
      }

  unfoldable pub quote : (Value → String) → ℕ → String → QuoteRequest → QuoteTables → Result Quote
  quote string_of now account dto db = do
    plan_id ← resolve_plan_id dto
    code ← code_for dto.private_offer_code dto.private_offer_id db.offers
    pricing ← resolve string_of float (price_request now account plan_id code dto) db.lookup
    check_student_change dto pricing.student_pricing_mode
    ok (quote_of now account dto (subscription_of account db.subscriptions) plan_id pricing)
