-- ===== src/Billing/Pricing/Granted.antt =====
-- src/billing/pricing-resolution.service.ts: the plan, the offer and the override of a price are
-- those the account has been granted.
use eleeveon_schools_backend.Prelude.{
  ◌≡◌, ◌⊎◌, refl, inl, inr, String, Bool, true, false, not, ◌&&◌, Option, none, some, get_or, List,
  ◌===◌, find, eq_iff, Bool-cases,
}
use eleeveon_schools_backend.Number.{Float}
use eleeveon_schools_backend.Json.{Value}
use eleeveon_schools_backend.Slices.{find-true}
use eleeveon_schools_backend.Result.{
  Result, ok, err, not_found, throw_if-eq-ok, or_throw-eq-ok, bind-eq-ok, guard-eq-ok, ok_injective,
}
use eleeveon_schools_backend.Roles.Scope.{truthy}
use eleeveon_schools_backend.Billing.StudentPricing.{StudentPricing, parse_student_pricing}
use eleeveon_schools_backend.Billing.Pricing.{
  PricingPlan, OfferAssignment, PricingOverride, Lookup, PriceRequest, is_held, is_valid,
  is_offered, is_overridden, assignment_for, override_for, as_bad_request, check_student_priced,
}
use eleeveon_schools_backend.Billing.Pricing.Resolution.{
  PriceResolution, ListPrice, list_price, resolution, resolve_with, resolve,
}

both : (a b : Bool) → (a && b) ≡ true → (a ≡ true) × (b ≡ true)
both true b h = (refl, h)
both false b h = cc

-- an offer that the account holds, for this plan, with this code, at this time
abbrev pub IsOffered : PriceRequest → Option OfferAssignment → Type 0
IsOffered input none = Unit
IsOffered input (some a) =
    ((a.account_id ≡ input.account_id) × (is_held a.status ≡ true))
    × ((a.offer.code ≡ get_or input.private_offer_code "")
        × (a.offer.active ≡ true)
        × (a.offer.base_plan_id ≡ input.plan_id))
    × (is_valid a.valid_from a.valid_until input.at ≡ true)

-- an active override of the account for the plan
abbrev pub IsGranted : PriceRequest → PricingOverride → Type 0
IsGranted input o =
    (o.account_id ≡ input.account_id) × (o.plan_id ≡ input.plan_id) × (o.active ≡ true)

-- an active override of the account for this plan, in force unless it was asked for by its id
abbrev pub IsOverridden : PriceRequest → Option PricingOverride → Type 0
IsOverridden input none = Unit
IsOverridden input (some o) =
    IsGranted input o
    × (((truthy input.pricing_override_id ≡ true) × (o.id ≡ get_or input.pricing_override_id ""))
        ⊎ ((truthy input.pricing_override_id ≡ false)
            × (is_valid o.valid_from o.valid_until input.at ≡ true)))

is_offered-IsOffered :
    (input : PriceRequest) (a : OfferAssignment)
    → is_offered input a ≡ true
    → IsOffered input (some a)
is_offered-IsOffered input a h =
    let (holds, offers) = both _ _ h in
    let (account, held) = both _ _ holds in
    let (offer, valid) = both _ _ offers in
    let (code, active_for) = both _ _ offer in
    let (active, plan) = both _ _ active_for in
    (
      ((eq_iff a.account_id input.account_id).0 account, held),
      (
        (eq_iff a.offer.code (get_or input.private_offer_code "")).0 code,
        active,
        (eq_iff a.offer.base_plan_id input.plan_id).0 plan,
      ),
      valid,
    )

is_overridden-IsGranted :
    (input : PriceRequest) (o : PricingOverride) → is_overridden input o ≡ true → IsGranted input o
is_overridden-IsGranted input o h =
    let (account, rest) = both _ _ h in
    let (plan, active) = both _ _ rest in
    (
      (eq_iff o.account_id input.account_id).0 account,
      (eq_iff o.plan_id input.plan_id).0 plan,
      active,
    )

found-IsOffered :
    (input : PriceRequest) (found : Option OfferAssignment) (rows : List OfferAssignment)
    → find (is_offered input) rows ≡ found
    → IsOffered input found
found-IsOffered input none rows h = tt
found-IsOffered input (some a) rows h =
    is_offered-IsOffered input a (find-true (is_offered input) rows a h)

assignment_for-IsOffered :
    (input : PriceRequest) (rows : List OfferAssignment)
    → IsOffered input (assignment_for input rows)
unfolding assignment_for
assignment_for-IsOffered input rows = elim (Bool-cases (truthy input.private_offer_code)) [
  | inl e ↦ rw e (found-IsOffered input (find (is_offered input) rows) rows refl)
  | inr e ↦ rw e tt
]

found_by_id :
    (input : PriceRequest) (found : Option PricingOverride) (rows : List PricingOverride)
    → truthy input.pricing_override_id ≡ true
    → find (λ o. o.id === get_or input.pricing_override_id "" && is_overridden input o) rows ≡ found
    → IsOverridden input found
found_by_id input none rows asked h = tt
found_by_id input (some o) rows asked h =
    let (same, granted) = both _ _ (find-true _ rows o h) in
    (
      is_overridden-IsGranted input o granted,
      inl (asked, (eq_iff o.id (get_or input.pricing_override_id "")).0 same),
    )

found_in_force :
    (input : PriceRequest) (found : Option PricingOverride) (rows : List PricingOverride)
    → truthy input.pricing_override_id ≡ false
    → find (λ o. is_overridden input o && is_valid o.valid_from o.valid_until input.at) rows ≡ found
    → IsOverridden input found
found_in_force input none rows asked h = tt
found_in_force input (some o) rows asked h =
    let (granted, valid) = both _ _ (find-true _ rows o h) in
    (is_overridden-IsGranted input o granted, inr (asked, valid))

override_for-IsOverridden :
    (input : PriceRequest) (rows : List PricingOverride)
    → IsOverridden input (override_for input rows)
unfolding override_for
override_for-IsOverridden input rows = elim (Bool-cases (truthy input.pricing_override_id)) [
  | inl e ↦ rw e (found_by_id input _ rows e refl)
  | inr e ↦ rw e (found_in_force input _ rows e refl)
]

module _ (string_of : Value → String) (float : Float) where
  pub resolve_with-resolution :
      (input : PriceRequest) (db : Lookup) (plan : PricingPlan)
      (assignment : Option OfferAssignment) (override : Option PricingOverride)
      (r : PriceResolution)
      → resolve_with string_of float input db plan assignment override ≡ ok r
      → (pricing : StudentPricing) × (listed : ListPrice) × (parse_student_pricing plan.metadata
          ≡ ok pricing)
        × (check_student_priced input plan pricing assignment override ≡ ok tt)
        × (list_price string_of float input plan pricing db.students ≡ ok listed)
        × (resolution string_of float input plan pricing assignment override listed ≡ r)
  resolve_with-resolution input db plan assignment override r h =
      let (pricing, parsed, next) =
        bind-eq-ok (as_bad_request (parse_student_pricing plan.metadata)) _ h in
      let (checked, priced) =
        guard-eq-ok (check_student_priced input plan pricing assignment override) _ next in
      let (listed, list, done) =
        bind-eq-ok (list_price string_of float input plan pricing db.students) _ priced in
      (pricing, listed, not_caught _ pricing parsed, checked, list, ok_injective _ r done)
    where
      not_caught :
          (read : Result StudentPricing) (pricing : StudentPricing)
          → as_bad_request read ≡ ok pricing
          → read ≡ ok pricing
      not_caught (ok p) pricing e = e
      not_caught (err thrown) pricing e = cc

  pub resolve-resolve_with :
      (input : PriceRequest) (db : Lookup) (r : PriceResolution)
      → resolve string_of float input db ≡ ok r
      → (plan : PricingPlan) × (plan.id ≡ input.plan_id)
        × (plan.active ≡ true)
        × (resolve_with string_of float input db plan
              (assignment_for input db.assignments)
              (override_for input db.overrides)
            ≡ ok r)
  unfolding resolve
  resolve-resolve_with input db r h =
      let (plan, found, next) = bind-eq-ok _ _ h in
      let held = or_throw-eq-ok _ not_found plan found in
      let (active, rest) = throw_if-eq-ok (not plan.active) not_found _ next in
      (
        plan,
        (eq_iff plan.id input.plan_id).0 (find-true _ db.plans plan held),
        active_of plan.active active,
        rest,
      )
    where
      active_of : (b : Bool) → not b ≡ false → b ≡ true
      active_of true e = refl
      active_of false e = cc

  -- A price is resolved only for an active plan, the one that was asked for. The offer in it is
  -- held by the account, active, for that plan, with the given code and within its dates; the
  -- override in it is an active one of the account for that plan, and either has the given id or,
  -- when no id was given, is within its dates.
  pub terms_are_granted :
      (input : PriceRequest) (db : Lookup) (r : PriceResolution)
      → resolve string_of float input db ≡ ok r
      → (r.plan.id ≡ input.plan_id)
        × (r.plan.active ≡ true)
        × IsOffered input r.private_offer_assignment
        × IsOverridden input r.pricing_override
  unfolding resolution
  terms_are_granted input db r h =
      let (plan, same, active, rest) = resolve-resolve_with input db r h in
      let (pricing, listed, _, _, _, e) = resolve_with-resolution input db plan _ _ r rest in
      rw (← e) (
        same,
        active,
        assignment_for-IsOffered input db.assignments,
        override_for-IsOverridden input db.overrides,
      )
