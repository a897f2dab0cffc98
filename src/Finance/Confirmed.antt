-- ===== src/Finance/Confirmed.antt =====
-- A payment is confirmed on what Paystack says of its reference.
use eleeveon_schools_backend.Prelude.{
  ◌≡◌, refl, ap, sym, ℕ, String, Bool, true, false, not, Option, none, some, get_or, ◌===◌,
  or_default, inl, inr, Bool-cases, find,
}
use eleeveon_schools_backend.Text.{to_lower_case}
use eleeveon_schools_backend.Result.{Result, ok, bad_request, throw_if-eq-ok, ok_injective}
use eleeveon_schools_backend.Action.{after-eq-ok, after, query, pure}
use eleeveon_schools_backend.Action
use eleeveon_schools_backend.Roles.Scope.{AuthUser, first_truthy, truthy}
use eleeveon_schools_backend.RecordStore.{Row, list}
use eleeveon_schools_backend.Finance.{Invoice, FeePayment, Tables, is_paid_status}
use eleeveon_schools_backend.Finance.Payments.{Fresh}
use eleeveon_schools_backend.Finance.Gateway.{
  Charge, Verified, charge_status, settle_intent, is_intent_of, verify_payment, ConfirmRequest,
  confirmed_invoice, verify_confirmation, confirm_student_fee_payment,
}

nonempty : (s : Option String) → truthy s ≡ true → (get_or s "" === "") ≡ false
nonempty none h = cc
nonempty (some s) h = elim (Bool-cases (s === "")) [
  | inl e ↦ let impossible : false ≡ true = rw e at h in cc
  | inr e ↦ e
]

-- the answer of Paystack that a verification has taken over
verify_payment-eq-ok :
    (paystack : String → Result Charge) (user : AuthUser) (reference : String) (db end : Tables)
    (verified : Verified)
    → (reference === "") ≡ false
    → verify_payment paystack user "paystack" reference db ≡ (ok verified, end)
    → (charge : Charge) × (paystack reference ≡ ok charge)
      × (verified.status ≡ some (charge_status charge))
unfolding verify_payment
verify_payment-eq-ok paystack user reference db end verified given h =
    let h0 : Action.after (pure (paystack reference) db) (λ charge. _) ≡ (ok verified, end) =
      rw given at h in
    let (charge, d1, h1, k1) = after-eq-ok (pure (paystack reference) db) _ h0 in
    let (intents, d2, h2, k2) =
      after-eq-ok (query (λ d. list user false none none d.intents) d1) _ k1 in
    let (_, d3, h3, k3) =
      after-eq-ok
        (settle_intent user (charge_status charge) (find (is_intent_of reference) intents) d2) _
        k2 in
    let answered = ok_injective _ _ (ap (λ p. p.0) k3) in
    (charge, ap (λ p. p.0) h1, sym (ap (λ v. v.status) answered))

abbrev reference_to_verify : ConfirmRequest → Option String
reference_to_verify dto = first_truthy dto.reference dto.provider_reference

verify_confirmation-eq-ok :
    (paystack : String → Result Charge) (user : AuthUser) (dto : ConfirmRequest) (db end : Tables)
    (verified : Option Verified)
    → truthy (reference_to_verify dto) ≡ true
    → or_default dto.provider "paystack" ≡ "paystack"
    → verify_confirmation paystack user dto db ≡ (ok verified, end)
    → (charge : Charge) × (answer : Verified) × (paystack (get_or (reference_to_verify dto) "")
        ≡ ok charge)
      × (verified ≡ some answer)
      × (answer.status ≡ some (charge_status charge))
unfolding verify_confirmation
verify_confirmation-eq-ok paystack user dto db end verified given provider h =
    let h0 : Action.after
          (verify_payment paystack user "paystack" (get_or (reference_to_verify dto) "") db)
          (λ v. pure (ok (some v)))
        ≡ (ok verified, end) =
      rw provider at (rw given at h) in
    let (answer, d1, h1, k1) =
      after-eq-ok (verify_payment paystack user "paystack" (get_or (reference_to_verify dto) "") db)
        _ h0 in
    let (charge, asked, status) =
      verify_payment-eq-ok paystack user (get_or (reference_to_verify dto) "") db d1 answer
        (nonempty (reference_to_verify dto) given) h1 in
    (charge, answer, asked, sym (ok_injective _ _ (ap (λ p. p.0) k1)), status)

confirmed_invoice-paid :
    (user : AuthUser) (dto : ConfirmRequest) (answer : Verified) (word : String) (db : Tables)
    (invoice : Row Invoice)
    → answer.status ≡ some word
    → (word === "") ≡ false
    → confirmed_invoice user dto (some answer) db ≡ ok invoice
    → is_paid_status word ≡ true
unfolding confirmed_invoice
confirmed_invoice-paid user dto answer word db invoice status word_given h =
    let paid : first_truthy answer.status (first_truthy dto.status (some "paid")) ≡ some word =
      rw status (rw word_given refl) in
    let (checked, _) =
      throw_if-eq-ok
        (not (
          is_paid_status
            (get_or (first_truthy answer.status (first_truthy dto.status (some "paid"))) "")))
        bad_request _ h in
    not-false (is_paid_status word) (rw paid at checked)
  where
    not-false : (b : Bool) → not b ≡ false → b ≡ true
    not-false true e = refl
    not-false false e = cc

or_default-given :
    (s : Option String) (d : String) → (d === "") ≡ false → (or_default s d === "") ≡ false
or_default-given none d h = h
or_default-given (some s) d h = elim (Bool-cases (s === "")) [ inl e ↦ rw e h | inr e ↦ rw e e ]

charge_status-given : (charge : Charge) → (charge_status charge === "") ≡ false
charge_status-given charge =
    elim (Bool-cases (to_lower_case (get_or charge.status "") === "success")) [
      | inl e ↦ rw e refl
      | inr e ↦ rw e (or_default-given charge.status "failed" refl)
    ]

-- A confirmation with a reference, for Paystack, that records a payment has asked Paystack about
-- that reference and got a charge that is paid, whatever status the request claims.
pub confirmation_is_verified :
    (paystack : String → Result Charge) (user : AuthUser) (now : ℕ) (fresh : Fresh)
    (dto : ConfirmRequest) (db end : Tables) (payment : Row FeePayment) (invoice : Row Invoice)
    → truthy (first_truthy dto.reference dto.provider_reference) ≡ true
    → or_default dto.provider "paystack" ≡ "paystack"
    → confirm_student_fee_payment paystack user now fresh dto db ≡ (ok (payment, invoice), end)
    → (charge : Charge) × (paystack (get_or (first_truthy dto.reference dto.provider_reference) "")
        ≡ ok charge)
      × (is_paid_status (charge_status charge) ≡ true)
unfolding confirm_student_fee_payment
confirmation_is_verified paystack user now fresh dto db end payment invoice given provider h =
    let (verified, d1, h1, k1) = after-eq-ok (verify_confirmation paystack user dto db) _ h in
    let (charge, answer, asked, e, status) =
      verify_confirmation-eq-ok paystack user dto db d1 verified given provider h1 in
    let (found, d2, h2, k2) = after-eq-ok (query (confirmed_invoice user dto verified) d1) _ k1 in
    let checked : confirmed_invoice user dto verified d1 ≡ ok found = ap (λ p. p.0) h2 in
    let known : confirmed_invoice user dto (some answer) d1 ≡ ok found = rw e at checked in
    (
      charge,
      asked,
      confirmed_invoice-paid user dto answer (charge_status charge) d1 found status
          (charge_status-given charge) known,
    )
