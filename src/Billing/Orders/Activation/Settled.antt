-- ===== src/Billing/Orders/Activation/Settled.antt =====
-- An activation is paid for.
use eleeveon_schools_backend.Prelude.{
  ℕ, ◌≡◌, refl, ap, ◌⊎◌, inl, inr, String, Bool, true, false, not, ◌&&◌, ◌||◌, Option, none, some,
  get_or, ltb, arith, Bool-cases, Option-cases, eq_iff,
}
use eleeveon_schools_backend.Result.{
  or_throw, or_throw-eq-ok, Result, ok, err, bad_request, not_found, ◌>>◌, throw_if, bind-eq-ok,
  throw_if-eq-ok,
}
use eleeveon_schools_backend.Roles.Scope.{truthy}
use eleeveon_schools_backend.Billing.StudentPricing.{StudentPricing}
use eleeveon_schools_backend.Billing.Orders.{
  Order, Payment, Tables, find_order, is_applied, is_fixed, pricing_of_plan,
}
use eleeveon_schools_backend.Billing.Orders.Activation.{
  Environment, settles, find_payment, is_settled_by, settled_payment, is_verified, may_apply,
  is_scheduled, check_payment, check_apply, as_bad_request, activation_enabled, activate, apply,
  same_text,
}

same_text→eq : (a b : Option String) → same_text a b ≡ true → a ≡ b
same_text→eq none none h = refl
same_text→eq none (some b) h = cc
same_text→eq (some a) none h = cc
same_text→eq (some a) (some b) h = ap some ((eq_iff a b).0 h)

-- The table holds the order's payment, paid by the same account, for the same invoice, of the
-- amount due in the order's currency.
pub record IsPaidBy (order : Order) (db : Tables) (payment : Payment) : Type 0 where
  pub listed : find_payment (get_or order.payment_id "") db ≡ some payment
  pub is_paid : payment.status ≡ "paid"
  pub account : payment.account_id ≡ order.account_id
  pub invoice : payment.invoice_id ≡ order.invoice_id
  pub amount : payment.amount ≡ order.amount_due
  pub currency : payment.currency ≡ order.currency

settled_payment-IsPaidBy :
    (order : Order) (db : Tables) (payment : Payment)
    → settled_payment order db ≡ ok payment
    → IsPaidBy order db payment
unfolding settled_payment
settled_payment-IsPaidBy order db payment h =
    let (_, found) =
      throw_if-eq-ok (not (truthy order.payment_id) || not (truthy order.invoice_id)) bad_request _
        h in
    elim (Option-cases (find_payment (get_or order.payment_id "") db)) [
      | inl missing ↦ absurd (ground arith)
      | inr (p, here) ↦ paid_by p here (ground arith)
    ]
  where
    paid_by :
        (p : Payment)
        → find_payment (get_or order.payment_id "") db ≡ some p
        → is_settled_by order (some p) ≡ ok payment
        → IsPaidBy order db payment
    paid_by p here settled =
        let same : p ≡ payment = ground arith in
        let good : settles order payment ≡ true = ground arith in
        record {
          listed = ground arith;
          is_paid = (eq_iff payment.status "paid").0 (ground arith);
          account = (eq_iff payment.account_id order.account_id).0 (ground arith);
          invoice = same_text→eq payment.invoice_id order.invoice_id (ground arith);
          amount = ground arith;
          currency = (eq_iff payment.currency order.currency).0 (ground arith);
        }

-- Nothing was due, or a matching payment is settled, which is a verified one where the price is
-- by students.
abbrev pub IsCovered : Bool → Order → Tables → Type 0
IsCovered by_student order db =
    ((order.amount_due ≡ 0) × (by_student ≡ false))
    ⊎ ((payment : Payment) × IsPaidBy order db payment
        × ((by_student ≡ false) ⊎ (is_verified payment ≡ true)))

check_payment-IsCovered :
    (by_student : Bool) (order : Order) (db : Tables)
    → check_payment by_student order db ≡ ok tt
    → IsCovered by_student order db
unfolding check_payment
check_payment-IsCovered by_student order db h = elim (Bool-cases (ltb 0 order.amount_due)) [
  | inl due ↦
      let (payment, paid, verified) =
        bind-eq-ok (settled_payment order db)
          (λ payment. throw_if (by_student && not (is_verified payment)) bad_request)
          (ground arith) in
      inr (
        payment,
        settled_payment-IsPaidBy order db payment paid,
        verified_or by_student payment verified,
      )
  | inr free ↦ inl (ground arith, ground arith)
]
  where
    verified_or :
        (b : Bool) (payment : Payment)
        → throw_if (b && not (is_verified payment)) bad_request ≡ ok tt
        → (b ≡ false) ⊎ (is_verified payment ≡ true)
    verified_or false payment h = inl refl
    verified_or true payment h = elim (Bool-cases (is_verified payment)) [
      | inl v ↦ inr v
      | inr v ↦ absurd (ground arith)
    ]

-- An application that succeeds leaves an applied order alone, or activates an order that was paid
-- or scheduled, whose pricing reads, and which is covered: nothing is due and the price is fixed,
-- or the order's payment is paid, by the order's account, for its invoice, over exactly the amount
-- due in its currency, and verified if the plan's price is by students.
pub apply-IsCovered :
    (env : Environment) (now : ℕ) (payment by : Option String) (id : String) (db after : Tables)
    → apply env now payment by id db ≡ ok after
    → (order : Order) × (find_order id db ≡ some order)
      × (((is_applied order.status ≡ true) × (after ≡ db))
          ⊎ ((may_apply order.status ≡ true)
              × (after ≡ activate now payment by order db)
              × ((pricing : StudentPricing) × (pricing_of_plan order.to_plan_id db ≡ ok pricing)
                  × IsCovered (not (is_fixed pricing.mode)) order db)))
unfolding apply check_apply
apply-IsCovered env now payment by id db after h =
    let (order, found, applied) = bind-eq-ok (or_throw (find_order id db) not_found) _ h in
    (
      order,
      or_throw-eq-ok (find_order id db) not_found order found,
      elim (Bool-cases (is_applied order.status)) [
        | inl done ↦ inl (done, ground arith)
        | inr new ↦ inr (activation order (rw new at applied))
      ],
    )
  where
    parsed : (r : Result StudentPricing) (p : StudentPricing) → as_bad_request r ≡ ok p → r ≡ ok p
    parsed (ok q) p e = e
    parsed (err x) p e = cc

    activation :
        (order : Order)
        → (check_apply env order db >> ok (activate now payment by order db)) ≡ ok after
        → (may_apply order.status ≡ true)
          × (after ≡ activate now payment by order db)
          × ((pricing : StudentPricing) × (pricing_of_plan order.to_plan_id db ≡ ok pricing)
              × IsCovered (not (is_fixed pricing.mode)) order db)
    activation order e =
        let (_, checked, same) = bind-eq-ok (check_apply env order db) _ e in
        let (may, next) = throw_if-eq-ok (not (may_apply order.status)) bad_request _ checked in
        let (pricing, read, rest) =
          bind-eq-ok (as_bad_request (pricing_of_plan order.to_plan_id db)) _ next in
        let (_, enabled) =
          throw_if-eq-ok (is_scheduled order.status && not (is_fixed pricing.mode)) bad_request _
            rest in
        let (_, covered) =
          throw_if-eq-ok (not (is_fixed pricing.mode) && not (activation_enabled env)) bad_request _
            enabled in
        (
          ground arith,
          ground arith,
          (
            pricing,
            parsed _ pricing read,
            check_payment-IsCovered (not (is_fixed pricing.mode)) order db covered,
          ),
        )
