-- ===== src/Finance/Accepted.antt =====
-- The checks that `recordFeePayment` has passed when it writes.
use eleeveon_schools_backend.Prelude.{◌≡◌, ◌-◌, false, ◌&&◌, List, ◌===◌, ◌==ℕ◌, ltb, any}
use eleeveon_schools_backend.Result.{
  ok, bad_request, bind-eq-ok, throw_if-eq-ok, ok_injective, throw_if, ◌>>=◌, ◌>>◌,
}
use eleeveon_schools_backend.Roles.Scope.{AuthUser}
use eleeveon_schools_backend.RecordStore.{Row}
use eleeveon_schools_backend.Finance.{Invoice, FeePayment, Tables, id_of}
use eleeveon_schools_backend.Finance.Invoices.{find_invoice, list_invoice_payments}
use eleeveon_schools_backend.Finance.Payments.{
  PaymentRequest, check_payment, check_prior, cleaned, reference_of, repeats, already_paid,
}

-- the checks on earlier payments that a request has passed
pub record IsNew (dto : PaymentRequest) (invoice : Row Invoice) (prior : List (Row FeePayment))
    : Type 0 where
  pub named : (reference_of dto === "" && cleaned dto.receipt_number === "") ≡ false
  pub unrepeated : any (repeats (reference_of dto) (cleaned dto.receipt_number)) prior ≡ false
  pub covered : ltb (invoice.body.total - already_paid prior) dto.amount ≡ false

check_prior-IsNew :
    (dto : PaymentRequest) (invoice same : Row Invoice) (prior : List (Row FeePayment))
    → check_prior dto invoice prior ≡ ok same
    → IsNew dto invoice prior × (invoice ≡ same)
unfolding check_prior
check_prior-IsNew dto invoice same prior h =
    let (named, h1) =
      throw_if-eq-ok (reference_of dto === "" && cleaned dto.receipt_number === "") bad_request _
        h in
    let (unrepeated, h2) =
      throw_if-eq-ok (any (repeats (reference_of dto) (cleaned dto.receipt_number)) prior)
        bad_request _ h1 in
    let (covered, h3) =
      throw_if-eq-ok (ltb (invoice.body.total - already_paid prior) dto.amount) bad_request
        (ok invoice) h2 in
    (record { named = named; unrepeated = unrepeated; covered = covered }, ok_injective _ _ h3)

-- the checks that a request has passed
pub record IsAccepted (user : AuthUser) (dto : PaymentRequest) (db : Tables) (invoice : Row Invoice)
    : Type 0 where
  pub found : find_invoice user dto.invoice_id db ≡ ok invoice
  pub positive : (dto.amount ==ℕ 0) ≡ false
  pub prior : List (Row FeePayment)
  pub paying : list_invoice_payments user (id_of invoice) db ≡ ok prior
  pub is_new : IsNew dto invoice prior

check_found-IsAccepted :
    (user : AuthUser) (dto : PaymentRequest) (db : Tables) (invoice same : Row Invoice)
    → find_invoice user dto.invoice_id db ≡ ok invoice
    → (throw_if (dto.amount ==ℕ 0) bad_request
        >> (list_invoice_payments user (id_of invoice) db >>= check_prior dto invoice))
      ≡ ok same
    → IsAccepted user dto db same
check_found-IsAccepted user dto db invoice same found h =
    let (positive, h1) = throw_if-eq-ok (dto.amount ==ℕ 0) bad_request _ h in
    let (prior, paying, h2) =
      bind-eq-ok (list_invoice_payments user (id_of invoice) db) (check_prior dto invoice) h1 in
    let (is_new, e) = check_prior-IsNew dto invoice same prior h2 in
    rw (← e) (record {
      found = found;
      positive = positive;
      prior = prior;
      paying = paying;
      is_new = is_new;
    })

pub check_payment-IsAccepted :
    (user : AuthUser) (dto : PaymentRequest) (db : Tables) (invoice : Row Invoice)
    → check_payment user dto db ≡ ok invoice
    → IsAccepted user dto db invoice
unfolding check_payment
check_payment-IsAccepted user dto db invoice h =
    let (found_row, found, h1) = bind-eq-ok (find_invoice user dto.invoice_id db) _ h in
    check_found-IsAccepted user dto db found_row invoice found h1
