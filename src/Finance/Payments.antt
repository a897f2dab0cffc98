-- ===== src/Finance/Payments.antt =====
-- src/finance/finance.service.ts, `recordFeePayment`: a payment by hand, or one that the provider
-- has confirmed. The rows are written one after the other, in no transaction.
use eleeveon_schools_backend.Prelude.{
  ℕ, ◌-◌, String, Bool, false, not, ◌&&◌, ◌||◌, Option, some, get_or, List, [], ◌∷◌, ◌===◌, ◌==ℕ◌,
  ltb, any, filter, includes, or_default,
}
use eleeveon_schools_backend.Text.{trim, to_lower_case}
use eleeveon_schools_backend.Result.{Result, ok, bad_request, throw_if, ◌>>=◌, ◌>>◌}
use eleeveon_schools_backend.Action.{Action, pure, query}
use eleeveon_schools_backend.Action
use eleeveon_schools_backend.Roles.Scope.{AuthUser, first_truthy}
use eleeveon_schools_backend.RecordStore.{Row, Payload}
use eleeveon_schools_backend.Finance.{
  Invoice, FeePayment, Transaction, Tables, create_payment_row, create_transaction_row, id_of, sum,
}
use eleeveon_schools_backend.Finance.Invoices.{
  find_invoice, list_invoice_payments, counted_status, fee_amount, recalculate_invoice_balance,
}

-- `amount` is what `toNumber` makes of the amount, or 0 for a negative one, which is refused alike
pub record PaymentRequest : Type 0 where
  pub school_id : Option String
  pub branch_id : Option String
  pub invoice_id : String
  pub student_id : Option String
  pub amount : ℕ
  pub provider : Option String
  pub receipt_number : Option String
  pub reference_number : Option String
  pub provider_reference : Option String

-- `String(value || "").trim()`
unfoldable pub cleaned : Option String → String
cleaned value = trim (get_or value "")

abbrev pub reference_of : PaymentRequest → String
reference_of dto = cleaned (first_truthy dto.reference_number dto.provider_reference)

-- the callback of `priorPayments.some`
abbrev pub repeats : String → String → Row FeePayment → Bool
repeats reference receipt entry =
    (not (reference === "")
      && (cleaned entry.body.reference_number === reference
          || cleaned entry.body.provider_reference === reference))
    || (not (receipt === "") && cleaned entry.body.receipt_number === receipt)

abbrev pub lost_words : List String
lost_words = "failed" ∷ "cancelled" ∷ "reversed" ∷ "refunded" ∷ []

abbrev pub is_standing : Row FeePayment → Bool
is_standing entry =
    not entry.is_deleted
    && not (includes (to_lower_case (counted_status entry.body.status)) lost_words)

abbrev pub already_paid : List (Row FeePayment) → ℕ
already_paid prior = sum fee_amount (filter is_standing prior)

-- the checks on the payments that are there, in their order
unfoldable pub check_prior :
    PaymentRequest → Row Invoice → List (Row FeePayment) → Result (Row Invoice)
unfolding cleaned
check_prior dto invoice prior = do
  throw_if (reference_of dto === "" && cleaned dto.receipt_number === "") bad_request
  throw_if (any (repeats (reference_of dto) (cleaned dto.receipt_number)) prior) bad_request
  throw_if (ltb (invoice.body.total - already_paid prior) dto.amount) bad_request
  ok invoice

-- everything up to the first write
unfoldable pub check_payment : AuthUser → PaymentRequest → Tables → Result (Row Invoice)
unfolding find_invoice list_invoice_payments check_prior
check_payment user dto db = do
  invoice ← find_invoice user dto.invoice_id db
  throw_if (dto.amount ==ℕ 0) bad_request
  prior ← list_invoice_payments user (id_of invoice) db
  check_prior dto invoice prior

-- the ids and the receipt number that are made for a payment
pub record Fresh : Type 0 where
  pub payment_id : String
  pub transaction_id : String
  pub receipt_number : String

-- `value || default` of a text
abbrev pub or_else : Option String → String → String
or_else value default = or_default value default

abbrev pub payment_payload : Fresh → PaymentRequest → Row Invoice → Payload FeePayment
payment_payload fresh dto invoice = record {
  school_id = dto.school_id;
  branch_id = dto.branch_id;
  is_deleted = some false;
  body = record {
    invoice_id = some (id_of invoice);
    student_id = or_else dto.student_id invoice.body.student_id;
    amount = dto.amount;
    status = some "paid";
    receipt_number = some (or_else dto.receipt_number fresh.receipt_number);
    reference_number = dto.reference_number;
    provider_reference = dto.provider_reference;
  };
}

abbrev pub transaction_payload : PaymentRequest → Row Invoice → Row FeePayment → Payload Transaction
transaction_payload dto invoice payment = record {
  school_id = first_truthy dto.school_id invoice.school_id;
  branch_id = first_truthy dto.branch_id invoice.branch_id;
  is_deleted = some false;
  body = record {
    invoice_id = some (id_of invoice);
    payment_id = some (id_of payment);
    direction = "inflow";
    amount = dto.amount;
    provider = or_else dto.provider "manual";
    status = some "paid";
    provider_reference = dto.provider_reference;
  };
}

-- the three writes
unfoldable pub write_payment :
    AuthUser → ℕ → Fresh → PaymentRequest → Row Invoice → Action Tables (Row FeePayment)
unfolding recalculate_invoice_balance
write_payment user now fresh dto invoice =
    Action.◌>>=◌ (create_payment_row user fresh.payment_id (payment_payload fresh dto invoice))
      (λ payment.
        Action.◌>>=◌
          (create_transaction_row user fresh.transaction_id
            (transaction_payload dto invoice payment))
          (λ transaction.
            Action.◌>>=◌ (recalculate_invoice_balance user now invoice)
              (λ balanced. pure (ok payment))))

-- `recordFeePayment`
unfoldable pub record_fee_payment :
    AuthUser → ℕ → Fresh → PaymentRequest → Action Tables (Row FeePayment)
unfolding check_payment write_payment
record_fee_payment user now fresh dto =
    Action.◌>>=◌ (query (check_payment user dto)) (write_payment user now fresh dto)
