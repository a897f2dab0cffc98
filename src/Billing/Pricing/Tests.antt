-- ===== src/Billing/Pricing/Tests.antt =====
-- Concrete runs of the resolution of a price.
use eleeveon_schools_backend.Text.{trim}
use eleeveon_schools_backend.Prelude.{
  ◌≡◌, ◌<◌, ◌≤◌, refl, String, true, false, none, some, List, [], ◌∷◌, ◌++◌,
}
use eleeveon_schools_backend.Number.{pos, safe_limit}
use eleeveon_schools_backend.Json.{Value, object, field, end, text, undefined}
use eleeveon_schools_backend.Result.{ok, err, bad_request}
use eleeveon_schools_backend.Billing.Calculator.{
  termly, PlanPrices, apply_discount, price_for_cycle,
}
use eleeveon_schools_backend.Billing.StudentPricing.{
  fixed, tiered, calculate_student_quote, parse_student_pricing,
}
use eleeveon_schools_backend.Billing.Tests.{thousandths, metadata, pricing, parsed_example}
use eleeveon_schools_backend.Billing.Pricing.{
  PricingPlan, PriceTerms, OfferAssignment, PricingOverride, StudentRow, Lookup, PriceRequest,
  assignment_for, check_student_priced, explicit_price, override_for,
}
use eleeveon_schools_backend.Billing.Pricing.Resolution.{
  PriceResolution, count_students, exceeds, resolve, list_price, resolution, student_id,
  student_price,
}
use eleeveon_schools_backend.Billing.Pricing.Granted.{IsOffered, IsOverridden, terms_are_granted}
use eleeveon_schools_backend.Billing.Pricing.Copies.{copies_are_counted_once}
use eleeveon_schools_backend.Billing.Pricing.Students.{
  student_priced_quote, named_override_outlives_dates,
}

-- No identity here is anything but a text.
abbrev pub no_text : Value → String
no_text v = ""

abbrev prices : PlanPrices
prices = record { price_monthly = 50; price_termly = 180; price_yearly = 500 }

abbrev by_student : PricingPlan
by_student = record {
  id = "P1";
  active = true;
  license_model = "subscription";
  deployment_mode = "eleeveon_cloud";
  currency = "GHS";
  prices = prices;
  max_students = some 10;
  metadata = metadata;
}

abbrev pub standard : PricingPlan
standard = record by_student { id = "P2"; metadata = undefined }

abbrev student : String → String → StudentRow
student id device = record {
  account_id = "A";
  is_deleted = false;
  local_id = some device;
  payload = object (field "id" (text id) end);
}

abbrev two_students : List StudentRow
two_students = student "S1" "d1" ∷ student "S2" "d1" ∷ []

abbrev terms : PriceTerms
terms = record {
  currency = "GHS";
  price_monthly = none;
  price_termly = some 150;
  price_yearly = none;
  discount_type = some "fixed";
  discount_value = some (pos 30);
}

-- an override that ended at 20, and an offer that runs on
abbrev ended : PricingOverride
ended = record {
  id = "O";
  account_id = "A";
  plan_id = "P2";
  active = true;
  valid_from = some 10;
  valid_until = some 20;
  terms = terms;
}

abbrev held : OfferAssignment
held = record {
  offer_id = "F1";
  account_id = "A";
  status = "active";
  offer = record {
    code = "SAVE";
    active = true;
    base_plan_id = "P2";
    terms = record terms { price_termly = some 160 };
  };
  valid_from = none;
  valid_until = none;
}

abbrev pub db : Lookup
db = record {
  plans = by_student ∷ standard ∷ [];
  assignments = held ∷ [];
  overrides = ended ∷ [];
  students = two_students ++ student "S1" "d2" ∷ [];
}

abbrev request : PriceRequest
request = record {
  account_id = "A";
  plan_id = "P1";
  billing_cycle = termly;
  private_offer_code = none;
  pricing_override_id = none;
  at = 30;
}

abbrev with_code : PriceRequest
with_code = record request { plan_id = "P2"; private_offer_code = some "SAVE" }

abbrev with_override : PriceRequest
with_override = record request { plan_id = "P2"; pricing_override_id = some "O" }

abbrev student_priced : PriceResolution
student_priced = record {
  plan = by_student;
  student_count = some 2;
  student_pricing_mode = tiered;
  private_offer_assignment = none;
  pricing_override = none;
  currency = "GHS";
  list_amount = 100;
  base_amount = 100;
  discount_amount = 0;
}

abbrev offered : PriceResolution
offered = record {
  plan = standard;
  student_count = none;
  student_pricing_mode = fixed;
  private_offer_assignment = some held;
  pricing_override = none;
  currency = "GHS";
  list_amount = 180;
  base_amount = 160;
  discount_amount = 30;
}

student_priced_run : resolve no_text thousandths request db ≡ ok student_priced
unfolding resolve parse_student_pricing check_student_priced assignment_for override_for list_price
    student_price count_students student_id trim calculate_student_quote resolution apply_discount
student_priced_run = refl

offered_run : resolve no_text thousandths with_code db ≡ ok offered
unfolding resolve parse_student_pricing check_student_priced list_price resolution assignment_for
    override_for price_for_cycle explicit_price apply_discount
offered_run = refl

-- a code for a plan that is charged by the student
refused_run :
    resolve no_text thousandths (record request { private_offer_code = some "SAVE" }) db
    ≡ err bad_request
unfolding resolve parse_student_pricing check_student_priced
refused_run = refl

student_priced_quote_example :
    let count = count_students no_text "A" db.students in
    ((student_priced.private_offer_assignment ≡ none) × (student_priced.pricing_override ≡ none))
    × ((student_priced.student_count ≡ some count)
        × (1 ≤ count)
        × (exceeds no_text count (some 10) ≡ false)
        × (calculate_student_quote thousandths pricing count ≡ ok (thousandths.of_nat 100))
        × (100 < safe_limit))
    × ((student_priced.base_amount ≡ student_priced.list_amount)
        × (student_priced.discount_amount ≡ 0))
student_priced_quote_example =
    student_priced_quote no_text thousandths request db student_priced pricing student_priced_run
      parsed_example refl

terms_are_granted_example :
    (offered.plan.id ≡ "P2")
    × (offered.plan.active ≡ true)
    × IsOffered with_code offered.private_offer_assignment
    × IsOverridden with_code offered.pricing_override
terms_are_granted_example = terms_are_granted no_text thousandths with_code db offered offered_run

copies_are_counted_once_example :
    count_students no_text "A" (two_students ++ student "S1" "d2" ∷ [])
    ≡ count_students no_text "A" two_students
unfolding resolve student_id trim
copies_are_counted_once_example =
    copies_are_counted_once no_text "A" (student "S1" "d2") two_students refl refl

named_override_outlives_dates_example :
    resolve no_text thousandths (record with_override { at = 1000 }) db
    ≡ resolve no_text thousandths with_override db
unfolding resolve
named_override_outlives_dates_example =
    named_override_outlives_dates no_text thousandths with_override db 1000 refl refl
