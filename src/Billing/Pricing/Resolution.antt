-- ===== src/Billing/Pricing/Resolution.antt =====
-- src/billing/pricing-resolution.service.ts, `resolve`: the number of students, the list price, and
-- the price that an offer or an override puts in its place.
use eleeveon_schools_backend.Prelude.{
  ℕ, String, Bool, true, false, not, ◌&&◌, ◌||◌, Option, none, some, get_or, coalesce, List, [],
  ◌∷◌, ◌===◌, ◌!==◌, ◌==ℕ◌, ltb, length, find, filter, includes, if◌then◌else◌,
}
use eleeveon_schools_backend.Text.{trim}
use eleeveon_schools_backend.Number.{pos, negsuc, Float}
use eleeveon_schools_backend.Result.{
  Result, ok, not_found, bad_request, throw_if, or_throw, ◌>>=◌, ◌>>◌,
}
use eleeveon_schools_backend.Json.{finite, Value, undefined, number, text, array, object, bool, get}
use eleeveon_schools_backend.Billing.Calculator.{BillingCycle, price_for_cycle, apply_discount}
use eleeveon_schools_backend.Billing.StudentPricing.{
  PricingMode, StudentPricing, parse_student_pricing, calculate_student_quote,
}
use eleeveon_schools_backend.Billing.Pricing.{
  PricingPlan, PriceTerms, OfferAssignment, PricingOverride, StudentRow, Lookup, PriceRequest,
  assignment_for, override_for, explicit_price, is_fixed, as_bad_request, check_student_priced,
}

pub record ListPrice : Type 0 where
  pub student_count : Option ℕ
  pub amount : ℕ

pub record PriceResolution : Type 0 where
  pub plan : PricingPlan
  pub student_count : Option ℕ
  pub student_pricing_mode : PricingMode
  pub private_offer_assignment : Option OfferAssignment
  pub pricing_override : Option PricingOverride
  pub currency : String
  pub list_amount : ℕ
  pub base_amount : ℕ
  pub discount_amount : ℕ

abbrev truthy_value : Value → Bool
truthy_value (text s) = s !== ""
truthy_value (number (finite (pos n))) = not (n ==ℕ 0)
truthy_value (number (finite (negsuc n))) = true
truthy_value (bool b) = b
truthy_value (object o) = true
truthy_value (array vs) = true
truthy_value _ = false

abbrev id_in : Value → Value
id_in (object o) = get o "id"
id_in _ = undefined

-- `String(v)` of a value that is no text is a parameter: the language's own rendering.
module _ (string_of : Value → String) where
  abbrev as_text : Value → String
  as_text (text s) = s
  as_text v = string_of v

  -- `String(payload.id || row.localId || "").trim()`
  unfoldable pub student_id : StudentRow → String
  unfolding get
  student_id row =
      let id = id_in row.payload in
      trim (if truthy_value id then as_text id else get_or row.local_id "")

  abbrev pub is_counted : String → StudentRow → Bool
  is_counted account row = row.account_id === account && not row.is_deleted

  -- `if (studentId) ids.add(studentId)`; the order of the set is not read.
  abbrev pub add_id : String → List String → List String
  add_id id ids = if id === "" || includes id ids then ids else id ∷ ids

  unfoldable pub collect : List StudentRow → List String → List String
  collect [] ids = ids
  collect (row ∷ rows) ids = collect rows (add_id (student_id row) ids)

  unfoldable pub count_students : String → List StudentRow → ℕ
  unfolding collect
  count_students account rows = length (collect (filter (is_counted account) rows) [])

  -- `plan.maxStudents !== null && studentCount > plan.maxStudents`
  abbrev pub exceeds : ℕ → Option ℕ → Bool
  exceeds count none = false
  exceeds count (some most) = ltb most count

  module _ (float : Float) where
    -- `if (!Number.isSafeInteger(listAmount)) throw`: what passes is the whole number.
    unfoldable pub student_price : PricingPlan → StudentPricing → ℕ → Result ListPrice
    student_price plan pricing count = do
      throw_if (count ==ℕ 0) bad_request
      throw_if (exceeds count plan.max_students) bad_request
      quote ← calculate_student_quote float pricing count
      amount ← or_throw (float.safe_integer quote) bad_request
      ok (record { student_count = some count; amount = amount })

    unfoldable pub list_price :
        PriceRequest → PricingPlan → StudentPricing → List StudentRow → Result ListPrice
    list_price input plan pricing rows =
        if is_fixed pricing.mode
        then ok (record {
          student_count = none;
          amount = price_for_cycle plan.prices input.billing_cycle;
        })
        else student_price plan pricing (count_students input.account_id rows)

    abbrev pub offer_terms : Option OfferAssignment → Option PriceTerms
    offer_terms none = none
    offer_terms (some a) = some a.offer.terms

    abbrev pub override_terms : Option PricingOverride → Option PriceTerms
    override_terms none = none
    override_terms (some o) = some o.terms

    abbrev pub price_in : BillingCycle → Option PriceTerms → Option ℕ
    price_in cycle none = none
    price_in cycle (some terms) = explicit_price cycle terms

    abbrev pub discount_from : ℕ → Option PriceTerms → ℕ
    discount_from base none = apply_discount float base none none
    discount_from base (some terms) =
        apply_discount float base terms.discount_type terms.discount_value

    abbrev currency_in : String → Option PriceTerms → String
    currency_in default none = default
    currency_in default (some terms) = terms.currency

    unfoldable pub resolution :
        PriceRequest
        → PricingPlan
        → StudentPricing
        → Option OfferAssignment
        → Option PricingOverride
        → ListPrice
        → PriceResolution
    resolution input plan pricing assignment override listed =
        let offered = offer_terms assignment in
        let overridden = override_terms override in
        let base =
          get_or
            (coalesce (price_in input.billing_cycle overridden)
              (price_in input.billing_cycle offered))
            listed.amount in
        record {
          plan = plan;
          student_count = listed.student_count;
          student_pricing_mode = pricing.mode;
          private_offer_assignment = assignment;
          pricing_override = override;
          currency = currency_in plan.currency (coalesce overridden offered);
          list_amount = listed.amount;
          base_amount = base;
          discount_amount = discount_from base (coalesce overridden offered);
        }

    abbrev pub resolve_with :
        PriceRequest
        → Lookup
        → PricingPlan
        → Option OfferAssignment
        → Option PricingOverride
        → Result PriceResolution
    resolve_with input db plan assignment override = do
      pricing ← as_bad_request (parse_student_pricing plan.metadata)
      check_student_priced input plan pricing assignment override
      listed ← list_price input plan pricing db.students
      ok (resolution input plan pricing assignment override listed)

    unfoldable pub resolve : PriceRequest → Lookup → Result PriceResolution
    resolve input db = do
      plan ← or_throw (find (λ p. p.id === input.plan_id) db.plans) not_found
      throw_if (not plan.active) not_found
      resolve_with input db plan (assignment_for input db.assignments)
          (override_for input db.overrides)
