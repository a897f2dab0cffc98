-- ===== src/Finance/Checkout.antt =====
-- src/finance/finance.service.ts, `initiateStudentFeePayment`, with `initiatePayment` and
-- `createIntent` of src/payment-gateway/payment-gateway.service.ts: an online payment is started.
-- What Paystack answers is an argument; the texts that are sent to it are left out.
use eleeveon_schools_backend.Prelude.{
  ◌≡◌, refl, ℕ, ◌<◌, String, true, false, not, Option, none, some, get_or, ◌!==◌, ◌==ℕ◌, ltb,
  or_default, if◌then◌else◌, arith,
}
use eleeveon_schools_backend.Result.{Result, ok, err, bad_request, throw_if, ◌>>=◌, ◌>>◌}
use eleeveon_schools_backend.Action.{Action, pure, query}
use eleeveon_schools_backend.Action
use eleeveon_schools_backend.Roles.Scope.{AuthUser, first_truthy, truthy}
use eleeveon_schools_backend.RecordStore.{Row, Payload}
use eleeveon_schools_backend.Finance.{Invoice, Intent, Tables, create_intent_row, id_of}
use eleeveon_schools_backend.Finance.Invoices.{find_invoice}
use eleeveon_schools_backend.Finance.Payments.{cleaned}
use eleeveon_schools_backend.Finance.Gateway.{provider_for, first_amount}

-- what is passed to the gateway
pub record Checkout : Type 0 where
  pub school_id : Option String
  pub branch_id : Option String
  pub invoice_id : String
  pub amount : ℕ
  pub provider : Option String
  pub channel : Option String
  pub reference_number : Option String
  pub provider_reference : Option String

abbrev pub intent_payload : Checkout → String → String → Payload Intent
intent_payload dto provider reference = record {
  school_id = dto.school_id;
  branch_id = dto.branch_id;
  is_deleted = some false;
  body = record {
    invoice_id = some dto.invoice_id;
    amount = dto.amount;
    provider = provider;
    provider_reference = some reference;
    status = "pending";
  };
}

-- `createIntent`
unfoldable pub create_intent : AuthUser → String → Checkout → Action Tables (Row Intent)
create_intent user id dto = create_intent_row user id (
    intent_payload dto (or_default dto.provider (provider_for (get_or dto.channel "")))
      (get_or dto.provider_reference ""))

-- `paystack` is the answer to `/transaction/initialize`: the address of the checkout.
module _ (paystack : Result String) (user : AuthUser) (id made_reference : String) where
  -- `initiatePayment`: the intent, and the address when it is Paystack that is to collect
  unfoldable pub initiate_payment : Checkout → Action Tables (Row Intent × Option String)
  unfolding create_intent cleaned
  initiate_payment dto =
      let provider = or_default dto.provider (provider_for (or_default dto.channel "card")) in
      let reference =
        or_default (some (cleaned (first_truthy dto.reference_number dto.provider_reference)))
          made_reference in
      if dto.amount ==ℕ 0
      then pure (err bad_request)
      else if provider !== "paystack"
      then Action.◌>>=◌ (create_intent user id (record dto { provider = some provider }))
          (λ intent. pure (ok (intent, none)))
      else Action.◌>>=◌ (create_intent_row user id (intent_payload dto "paystack" reference))
          (λ intent. Action.◌>>=◌ (pure paystack) (λ url. pure (ok (intent, some url))))

pub record InitiateRequest : Type 0 where
  pub school_id : Option String
  pub branch_id : Option String
  pub invoice_id : Option String
  pub amount : Option ℕ
  pub method : Option String
  pub provider : Option String

-- `invoice.balance || invoice.total`
abbrev pub balance_to_pay : Invoice → ℕ
balance_to_pay i = first_amount i.balance i.total

-- `dto.amount ? toNumber(dto.amount) : balance`
abbrev pub amount_to_pay : InitiateRequest → Invoice → ℕ
amount_to_pay dto i = first_amount (get_or dto.amount 0) (balance_to_pay i)

-- the checks, with the invoice
unfoldable pub check_initiate : AuthUser → InitiateRequest → Tables → Result (Row Invoice)
unfolding find_invoice
check_initiate user dto db = do
  throw_if (not (truthy dto.invoice_id)) bad_request
  invoice ← find_invoice user (get_or dto.invoice_id "") db
  throw_if (amount_to_pay dto invoice.body ==ℕ 0) bad_request
  throw_if (ltb (balance_to_pay invoice.body) (amount_to_pay dto invoice.body)) bad_request
  ok invoice

-- `SF-…-<invoice id>` for a time in base 36
abbrev pub checkout_of : String → InitiateRequest → Row Invoice → Checkout
checkout_of reference dto invoice = record {
  school_id = first_truthy dto.school_id invoice.school_id;
  branch_id = first_truthy dto.branch_id invoice.branch_id;
  invoice_id = id_of invoice;
  amount = amount_to_pay dto invoice.body;
  provider = some (or_default dto.provider "paystack");
  channel = some (or_default dto.method "card");
  reference_number = some reference;
  provider_reference = some reference;
}

-- `initiateStudentFeePayment`, whose gateway has `initiatePayment`
unfoldable pub initiate_student_fee_payment :
    Result String
    → AuthUser
    → String
    → String
    → InitiateRequest
    → Action Tables (Row Intent × Option String)
unfolding check_initiate initiate_payment
initiate_student_fee_payment paystack user id reference dto =
    Action.◌>>=◌ (query (check_initiate user dto))
      (λ invoice. initiate_payment paystack user id reference (checkout_of reference dto invoice))

-- An invoice with nothing left to pay can be paid again online: where the balance is 0 and the
-- total is not, a request that names no amount passes the checks, and the amount to pay is the
-- whole total.
pub settled_invoice_is_charged :
    (user : AuthUser) (dto : InitiateRequest) (db : Tables) (invoice : Row Invoice)
    → truthy dto.invoice_id ≡ true
    → find_invoice user (get_or dto.invoice_id "") db ≡ ok invoice
    → dto.amount ≡ none
    → invoice.body.balance ≡ 0
    → 0 < invoice.body.total
    → (check_initiate user dto db ≡ ok invoice)
      × (amount_to_pay dto invoice.body ≡ invoice.body.total)
unfolding check_initiate
settled_invoice_is_charged user dto db invoice given found amount balance owing =
    let total : amount_to_pay dto invoice.body ≡ invoice.body.total = rw amount (rw balance refl) in
    let held : balance_to_pay invoice.body ≡ invoice.body.total = rw balance refl in
    (rw given (rw found (rw total (rw held (ground arith)))), total)
