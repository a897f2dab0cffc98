-- ===== src/Billing/Pricing.antt =====
-- src/billing/pricing-resolution.service.ts: which price and which discount an account gets for a
-- plan. `lookup` is what the queries find: overrides stand the last updated first, and the rows of
-- the students are those of the table "students". Amounts are whole and not negative.
pub mod Resolution
pub mod Granted
pub mod Copies
pub mod Students
pub mod Tests
use eleeveon_schools_backend.Prelude.{
  ℕ, ◌*◌, ◌/◌, String, Bool, true, false, not, ◌&&◌, ◌||◌, Option, none, some, get_or, coalesce,
  is_some, List, [], ◌∷◌, map, ◌===◌, ◌!==◌, ◌==ℕ◌, leb, ltb, length, find, filter, includes,
  if◌then◌else◌,
}
use eleeveon_schools_backend.Text.{trim}
use eleeveon_schools_backend.Number.{ℤ, pos, negsuc, Float}
use eleeveon_schools_backend.Result.{
  Result, ok, err, not_found, bad_request, throw_if, or_throw, ◌>>=◌, ◌>>◌,
}
use eleeveon_schools_backend.Json.{
  finite, Value, undefined, null, number, text, array, object, bool, get, is_safe_integer,
}
use eleeveon_schools_backend.Roles.Scope.{truthy}
use eleeveon_schools_backend.Billing.Calculator.{
  BillingCycle, monthly, termly, yearly, manual, PlanPrices, price_for_cycle, apply_discount,
}
use eleeveon_schools_backend.Billing.StudentPricing.{
  PricingMode, fixed, StudentPricing, parse_student_pricing, calculate_student_quote,
}

pub record PricingPlan : Type 0 where
  pub id : String
  pub active : Bool
  pub license_model : String
  pub deployment_mode : String
  pub currency : String
  pub prices : PlanPrices
  pub max_students : Option ℕ
  pub metadata : Value

-- what an offer and an override both hold
pub record PriceTerms : Type 0 where
  pub currency : String
  pub price_monthly : Option ℕ
  pub price_termly : Option ℕ
  pub price_yearly : Option ℕ
  pub discount_type : Option String
  pub discount_value : Option ℤ

pub record PrivateOffer : Type 0 where
  pub code : String
  pub active : Bool
  pub base_plan_id : String
  pub terms : PriceTerms

pub record OfferAssignment : Type 0 where
  pub offer_id : String
  pub account_id : String
  pub status : String
  pub offer : PrivateOffer
  pub valid_from : Option ℕ
  pub valid_until : Option ℕ

pub record PricingOverride : Type 0 where
  pub id : String
  pub account_id : String
  pub plan_id : String
  pub active : Bool
  pub valid_from : Option ℕ
  pub valid_until : Option ℕ
  pub terms : PriceTerms

pub record StudentRow : Type 0 where
  pub account_id : String
  pub is_deleted : Bool
  pub local_id : Option String
  pub payload : Value

pub record Lookup : Type 0 where
  pub plans : List PricingPlan
  pub assignments : List OfferAssignment
  pub overrides : List PricingOverride
  pub students : List StudentRow

pub record PriceRequest : Type 0 where
  pub account_id : String
  pub plan_id : String
  pub billing_cycle : BillingCycle
  pub private_offer_code : Option String
  pub pricing_override_id : Option String
  pub at : ℕ

-- `validFrom` is null or not after `at`, and `validUntil` is null or after it.
abbrev has_begun : Option ℕ → ℕ → Bool
has_begun none at = true
has_begun (some from) at = leb from at

abbrev has_not_ended : Option ℕ → ℕ → Bool
has_not_ended none at = true
has_not_ended (some until) at = ltb at until

abbrev pub is_valid : Option ℕ → Option ℕ → ℕ → Bool
is_valid from until at = has_begun from at && has_not_ended until at

abbrev pub is_held : String → Bool
is_held status = includes status ("assigned" ∷ "active" ∷ "redeemed" ∷ [])

abbrev pub is_offered : PriceRequest → OfferAssignment → Bool
is_offered input a =
    (a.account_id === input.account_id && is_held a.status)
    && ((a.offer.code === get_or input.private_offer_code ""
          && (a.offer.active && a.offer.base_plan_id === input.plan_id))
        && is_valid a.valid_from a.valid_until input.at)

unfoldable pub assignment_for : PriceRequest → List OfferAssignment → Option OfferAssignment
assignment_for input rows =
    if truthy input.private_offer_code then find (is_offered input) rows else none

abbrev pub is_overridden : PriceRequest → PricingOverride → Bool
is_overridden input o =
    o.account_id === input.account_id && (o.plan_id === input.plan_id && o.active)

-- The dates of an override that is asked for by its id are not read.
unfoldable pub override_for : PriceRequest → List PricingOverride → Option PricingOverride
override_for input rows =
    if truthy input.pricing_override_id
    then find (λ o. o.id === get_or input.pricing_override_id "" && is_overridden input o) rows
    else find (λ o. is_overridden input o && is_valid o.valid_from o.valid_until input.at) rows

-- `explicitPrice`
unfoldable pub explicit_price : BillingCycle → PriceTerms → Option ℕ
explicit_price monthly terms = terms.price_monthly
explicit_price termly terms = terms.price_termly
explicit_price yearly terms = terms.price_yearly
explicit_price manual terms = none

abbrev pub is_fixed : PricingMode → Bool
is_fixed fixed = true
is_fixed _ = false

-- the exception of `parseStudentPricing` as a BadRequestException
abbrev pub as_bad_request : Result StudentPricing → Result StudentPricing
as_bad_request (ok pricing) = ok pricing
as_bad_request (err thrown) = err bad_request

abbrev cycle_text : BillingCycle → String
cycle_text monthly = "monthly"
cycle_text termly = "termly"
cycle_text yearly = "yearly"
cycle_text manual = "manual"

abbrev pub is_cycle : Option BillingCycle → BillingCycle → Bool
is_cycle none cycle = false
is_cycle (some period) cycle = cycle_text period === cycle_text cycle

unfoldable pub check_student_priced :
    PriceRequest
    → PricingPlan
    → StudentPricing
    → Option OfferAssignment
    → Option PricingOverride
    → Result (Unit {0})
check_student_priced input plan pricing assignment override =
    if is_fixed pricing.mode
    then ok tt
    else throw_if
        (plan.license_model !== "subscription" || plan.deployment_mode !== "eleeveon_cloud")
        bad_request
      >> throw_if (not (is_cycle pricing.billing_period input.billing_cycle)) bad_request
      >> throw_if
          ((truthy input.private_offer_code || truthy input.pricing_override_id)
            || (is_some assignment || is_some override))
          bad_request
