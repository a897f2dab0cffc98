-- ===== src/Finance/Gateway.antt =====
-- src/payment-gateway/payment-gateway.service.ts, and the online payments of
-- src/finance/finance.service.ts. What Paystack answers is an argument: a failed request is a
-- `Result` that threw. The texts that are sent to it are left out.
use eleeveon_schools_backend.Prelude.{
  ℕ, String, Bool, false, not, ◌&&◌, ◌||◌, Option, none, some, get_or, [], ◌∷◌, ◌===◌, ◌!==◌, ◌==ℕ◌,
  find, includes, or_default, if◌then◌else◌,
}
use eleeveon_schools_backend.Text.{trim, to_lower_case}
use eleeveon_schools_backend.Result.{Result, ok, err, bad_request, throw_if, or_throw}
use eleeveon_schools_backend.Result
use eleeveon_schools_backend.Action.{Action, pure, query, ◌>>=◌, ◌>>◌}
use eleeveon_schools_backend.Roles.Scope.{AuthUser, first_truthy, truthy}
use eleeveon_schools_backend.RecordStore.{Row, list, patched}
use eleeveon_schools_backend.Finance.{
  Invoice, FeePayment, Transaction, Intent, Tables, update_intent_row, id_of, is_paid_status,
}
use eleeveon_schools_backend.Finance.Invoices.{find_invoice}
use eleeveon_schools_backend.Finance.Payments.{PaymentRequest, Fresh, record_fee_payment}

-- `providerFor`
abbrev pub provider_for : String → String
provider_for channel =
    if channel === "momo" || channel === "card"
    then "paystack"
    else if channel === "cash"
    then "cash"
    else if channel === "bank"
    then "bank"
    else "manual"

-- `normalizeTransferStatus`
unfoldable pub normalize_transfer_status : Option String → String
normalize_transfer_status status =
    let value = to_lower_case (trim (get_or status "")) in
    if includes value ("success" ∷ "successful" ∷ "completed" ∷ [])
    then "paid"
    else if includes value ("pending" ∷ "otp" ∷ "processing" ∷ "received" ∷ [])
    then "processing"
    else if includes value ("failed" ∷ "reversed" ∷ "rejected" ∷ [])
    then "failed"
    else if value === ""
    then "processing"
    else value

-- the data of a verified transaction; amounts are in the smallest unit on both sides
pub record Charge : Type 0 where
  pub status : Option String
  pub amount : ℕ
  pub invoice_id : Option String

-- what `verifyPayment` or `verifyReference` returns, as far as a confirmation reads it
pub record Verified : Type 0 where
  pub status : Option String
  pub amount : Option ℕ
  pub invoice_id : Option String

abbrev same_reference : String → Option String → Bool
same_reference reference none = false
same_reference reference (some held) = held === reference

abbrev pub is_transaction_of : String → String → Row Transaction → Bool
is_transaction_of provider reference r =
    r.body.provider === provider && same_reference reference r.body.provider_reference

-- `verifyReference`: the status of the transaction that is found is not part of the answer.
unfoldable pub verify_reference : AuthUser → String → String → Tables → Result Verified
unfolding list
verify_reference user provider reference db =
    Result.◌>>=◌ (list user false none none db.transactions) (λ rows.
      Result.◌>>=◌ (or_throw (find (is_transaction_of provider reference) rows) bad_request)
        (λ found. ok (record { status = none; amount = none; invoice_id = none })))

abbrev pub is_intent_of : String → Row Intent → Bool
is_intent_of reference r =
    r.body.provider === "paystack" && same_reference reference r.body.provider_reference

-- `paid ? "paid" : data.status || "failed"`
abbrev pub charge_status : Charge → String
charge_status charge =
    if to_lower_case (get_or charge.status "") === "success"
    then "paid"
    else or_default charge.status "failed"

-- the intent of the reference, if there is one, gets the status of the charge
unfoldable pub settle_intent : AuthUser → String → Option (Row Intent) → Action Tables (Unit {0})
settle_intent user status none = pure (ok tt)
settle_intent user status (some intent) = do
  updated ←
      update_intent_row user (get_or (first_truthy intent.local_id (some intent.cloud_id)) "")
        (patched user (λ i. record i { status = status }))
  pure (ok tt)

module _ (paystack : String → Result Charge) where
  -- `verifyPayment`
  unfoldable pub verify_payment : AuthUser → String → String → Action Tables Verified
  unfolding verify_reference settle_intent list
  verify_payment user provider reference =
      if reference === ""
      then pure (err bad_request)
      else if provider !== "paystack"
      then query (verify_reference user provider reference)
      else (pure (paystack reference) >>= λ charge.
          query (λ db. list user false none none db.intents) >>= λ intents.
          settle_intent user (charge_status charge) (find (is_intent_of reference) intents)
          >> pure (
              ok (record {
                status = some (charge_status charge);
                amount = some charge.amount;
                invoice_id = charge.invoice_id;
              })))

pub record ConfirmRequest : Type 0 where
  pub invoice_id : Option String
  pub reference : Option String
  pub provider_reference : Option String
  pub status : Option String
  pub provider : Option String
  pub amount : ℕ

abbrev verified_status : Option Verified → Option String
verified_status none = none
verified_status (some v) = v.status

abbrev verified_amount : Option Verified → ℕ
verified_amount none = 0
verified_amount (some v) = get_or v.amount 0

abbrev verified_invoice : Option Verified → Option String
verified_invoice none = none
verified_invoice (some v) = v.invoice_id

-- `a || b` of two amounts
abbrev pub first_amount : ℕ → ℕ → ℕ
first_amount a b = if a ==ℕ 0 then b else a

abbrev pub confirmed_request : ConfirmRequest → Option Verified → Row Invoice → PaymentRequest
confirmed_request dto verified invoice =
    let reference = first_truthy dto.reference dto.provider_reference in
    record {
      school_id = invoice.school_id;
      branch_id = invoice.branch_id;
      invoice_id = id_of invoice;
      student_id = some invoice.body.student_id;
      amount =
          first_amount dto.amount (first_amount (verified_amount verified) invoice.body.balance);
      provider = some (or_default dto.provider "paystack");
      receipt_number = none;
      reference_number = first_truthy dto.reference reference;
      provider_reference = first_truthy dto.provider_reference reference;
    }

-- the invoice that is paid, once the status is
unfoldable pub confirmed_invoice :
    AuthUser → ConfirmRequest → Option Verified → Tables → Result (Row Invoice)
unfolding is_paid_status find_invoice
confirmed_invoice user dto verified db =
    let status =
      get_or (first_truthy (verified_status verified) (first_truthy dto.status (some "paid"))) "" in
    let id = first_truthy dto.invoice_id (verified_invoice verified) in
    Result.◌>>◌ (throw_if (not (is_paid_status status)) bad_request)
      (Result.◌>>◌ (throw_if (not (truthy id)) bad_request) (find_invoice user (get_or id "") db))

module _ (paystack : String → Result Charge) where
  -- the check of the reference, when there is one
  unfoldable pub verify_confirmation : AuthUser → ConfirmRequest → Action Tables (Option Verified)
  unfolding verify_payment
  verify_confirmation user dto =
      let reference = first_truthy dto.reference dto.provider_reference in
      if truthy reference
      then (verify_payment paystack user (or_default dto.provider "paystack") (get_or reference "")
          >>= λ verified. pure (ok (some verified)))
      else pure (ok none)

  -- `confirmStudentFeePayment`: the payment and the invoice as it becomes
  unfoldable pub confirm_student_fee_payment :
      AuthUser → ℕ → Fresh → ConfirmRequest → Action Tables (Row FeePayment × Row Invoice)
  unfolding verify_confirmation confirmed_invoice record_fee_payment find_invoice
  confirm_student_fee_payment user now fresh dto = do
    verified ← verify_confirmation user dto
    invoice ← query (confirmed_invoice user dto verified)
    payment ← record_fee_payment user now fresh (confirmed_request dto verified invoice)
    fresh_invoice ← query (find_invoice user (id_of invoice))
    pure (ok (payment, fresh_invoice))
