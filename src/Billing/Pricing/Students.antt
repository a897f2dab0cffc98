-- ===== src/Billing/Pricing/Students.antt =====
-- src/billing/pricing-resolution.service.ts: the price of a plan that is charged by the student,
-- and of one whose override is asked for by its id.
use eleeveon_schools_backend.Prelude.{
  ℕ, ◌≤◌, ◌<◌, ◌≡◌, ◌∙◌, sym, refl, ap, String, Bool, true, false, ◌||◌, Option, none, some,
  is_some, List, ◌==ℕ◌, arith,
}
use eleeveon_schools_backend.Number.{Float, safe_limit}
use eleeveon_schools_backend.Json.{Value}
use eleeveon_schools_backend.Result.{
  ok, bad_request, throw_if-eq-ok, throw_if-passed, or_throw, or_throw-eq-ok, bind-eq-ok,
  guard-eq-ok, ok_injective,
}
use eleeveon_schools_backend.Roles.Scope.{truthy}
use eleeveon_schools_backend.Billing.Calculator.{apply_discount}
use eleeveon_schools_backend.Billing.StudentPricing.{
  StudentPricing, parse_student_pricing, calculate_student_quote,
}
use eleeveon_schools_backend.Billing.Pricing.{
  PricingPlan, OfferAssignment, PricingOverride, StudentRow, Lookup, PriceRequest, is_fixed,
  assignment_for, override_for, check_student_priced,
}
use eleeveon_schools_backend.Billing.Pricing.Resolution.{
  PriceResolution, ListPrice, count_students, exceeds, student_price, list_price, resolution,
  resolve,
}
use eleeveon_schools_backend.Billing.Pricing.Granted.{resolve_with-resolution, resolve-resolve_with}

none_of {ℓ} : {A : Type ℓ} (o : Option A) → is_some o ≡ false → o ≡ none
none_of none h = refl
none_of (some a) h = cc

neither : (a b : Bool) → (a || b) ≡ false → (a ≡ false) × (b ≡ false)
neither true b h = cc
neither false b h = (refl, h)

check_student_priced-none :
    (input : PriceRequest) (plan : PricingPlan) (pricing : StudentPricing)
    (assignment : Option OfferAssignment) (override : Option PricingOverride)
    → is_fixed pricing.mode ≡ false
    → check_student_priced input plan pricing assignment override ≡ ok tt
    → (assignment ≡ none) × (override ≡ none)
unfolding check_student_priced
check_student_priced-none input plan pricing assignment override e h =
    let (_, custom) = guard-eq-ok _ _ (rw e at h) in
    let (_, unsupported) = neither _ _ (throw_if-passed _ bad_request custom) in
    let (no_assignment, no_override) = neither _ _ unsupported in
    (none_of assignment no_assignment, none_of override no_override)

module _ (string_of : Value → String) where
  module _ (float : Float) where
    student_price-eq-ok :
        (plan : PricingPlan) (pricing : StudentPricing) (count : ℕ) (listed : ListPrice)
        → student_price string_of float plan pricing count ≡ ok listed
        → (listed.student_count ≡ some count)
          × (1 ≤ count)
          × (exceeds string_of count plan.max_students ≡ false)
          × (calculate_student_quote float pricing count ≡ ok (float.of_nat listed.amount))
          × (listed.amount < safe_limit)
    unfolding student_price
    student_price-eq-ok plan pricing count listed h =
        let (some_students, fits) = throw_if-eq-ok (count ==ℕ 0) bad_request _ h in
        let (within, quoted) =
          throw_if-eq-ok (exceeds string_of count plan.max_students) bad_request _ fits in
        let (quote, e, checked) =
          bind-eq-ok (calculate_student_quote float pricing count) _ quoted in
        let (amount, whole, done) =
          bind-eq-ok (or_throw (float.safe_integer quote) bad_request) _ checked in
        let (exact, small) =
          float.safe_integer_sound quote amount
            (or_throw-eq-ok (float.safe_integer quote) bad_request amount whole) in
        let same = ok_injective _ listed done in
        rw (← same) (refl, ground arith, within, e ∙ ap ok exact, small)

    list_price-eq-ok :
        (input : PriceRequest) (plan : PricingPlan) (pricing : StudentPricing)
        (rows : List StudentRow) (listed : ListPrice)
        → is_fixed pricing.mode ≡ false
        → list_price string_of float input plan pricing rows ≡ ok listed
        → student_price string_of float plan pricing
            (count_students string_of input.account_id rows)
          ≡ ok listed
    unfolding list_price
    list_price-eq-ok input plan pricing rows listed by_student h = rw by_student at h

    -- what a price that was resolved without an offer and an override holds
    list_price_is_kept :
        (input : PriceRequest) (plan : PricingPlan) (pricing : StudentPricing)
        (assignment : Option OfferAssignment) (override : Option PricingOverride)
        (listed : ListPrice)
        → assignment ≡ none
        → override ≡ none
        → let r = resolution string_of float input plan pricing assignment override listed in
          ((r.private_offer_assignment ≡ none) × (r.pricing_override ≡ none))
          × ((r.base_amount ≡ r.list_amount) × (r.discount_amount ≡ 0))
    unfolding resolution apply_discount
    list_price_is_kept input plan pricing assignment override listed a o =
        rw a (rw o ((refl, refl), (refl, refl)))

    -- When a price is resolved for a plan that is charged by the student, then no offer and no
    -- override take part in it, the number of students is the number of distinct identities in the
    -- live student rows of the account, at least 1 and at most the maximum of the plan, and the
    -- quote for that number is exactly the list amount, a safe whole number of cedis; that is the
    -- base amount, and the discount is 0.
    pub student_priced_quote :
        (input : PriceRequest) (db : Lookup) (r : PriceResolution) (pricing : StudentPricing)
        → resolve string_of float input db ≡ ok r
        → parse_student_pricing r.plan.metadata ≡ ok pricing
        → is_fixed pricing.mode ≡ false
        → let count = count_students string_of input.account_id db.students in
          ((r.private_offer_assignment ≡ none) × (r.pricing_override ≡ none))
          × ((r.student_count ≡ some count)
              × (1 ≤ count)
              × (exceeds string_of count r.plan.max_students ≡ false)
              × (calculate_student_quote float pricing count ≡ ok (float.of_nat r.list_amount))
              × (r.list_amount < safe_limit))
          × ((r.base_amount ≡ r.list_amount) × (r.discount_amount ≡ 0))
    unfolding resolution
    student_priced_quote input db r pricing h read by_student =
        let (plan, _, _, rest) = resolve-resolve_with string_of float input db r h in
        let (pricing', listed, parsed, checked, list, e) =
          resolve_with-resolution string_of float input db plan _ _ r rest in
        let same_plan : plan ≡ r.plan = ap (λ x. x.plan) e in
        let same : pricing' ≡ pricing =
          ok_injective pricing' pricing
            (sym parsed ∙ ap (λ p. parse_student_pricing p.metadata) same_plan ∙ read) in
        let fixed' : is_fixed pricing'.mode ≡ false = ap (λ p. is_fixed p.mode) same ∙ by_student in
        let (no_offer, no_override) =
          check_student_priced-none input plan pricing' _ _ fixed' checked in
        let quoted =
          student_price-eq-ok plan pricing' _ listed
            (list_price-eq-ok input plan pricing' db.students listed fixed' list) in
        let (unaltered, amounts) =
          list_price_is_kept input plan pricing' _ _ listed no_offer no_override in
        rw (← same) (rw (← e) (unaltered, quoted, amounts))

    -- When a price is asked for with the id of an override and without an offer code, it is the
    -- same at every time: the dates of the override are not read.
    pub named_override_outlives_dates :
        (input : PriceRequest) (db : Lookup) (later : ℕ)
        → truthy input.pricing_override_id ≡ true
        → truthy input.private_offer_code ≡ false
        → resolve string_of float (record input { at = later }) db
          ≡ resolve string_of float input db
    unfolding resolve assignment_for override_for list_price check_student_priced resolution
    named_override_outlives_dates input db later named uncoded = rw named (rw uncoded refl)
