-- ===== src/Finance/Unbalanced.antt =====
-- A payment for an invoice with an id of its own.
use eleeveon_schools_backend.Prelude.{
  false, ◌≡◌, refl, ℕ, String, true, none, some, ◌∷◌, find, filter,
}
use eleeveon_schools_backend.Result.{ok, err, not_found}
use eleeveon_schools_backend.Roles.Scope.{AuthUser, first_truthy, assert_same_account_or_developer}
use eleeveon_schools_backend.RecordStore.{
  Row, new_row, list, patched, is_listed, can_access, has_cloud_id,
}
use eleeveon_schools_backend.RecordStore.Rows.{create-reached, update-missing}
use eleeveon_schools_backend.Finance.{Invoice, Tables, id_of, sum}
use eleeveon_schools_backend.Finance.Invoices.{
  list_invoice_payments, pays, fee_amount, rebalance, recalculate_invoice_balance,
}
use eleeveon_schools_backend.Finance.Payments.{
  PaymentRequest, Fresh, check_payment, payment_payload, transaction_payload, write_payment,
  record_fee_payment,
}
use eleeveon_schools_backend.Finance.Accepted.{check_payment-IsAccepted}
use eleeveon_schools_backend.Finance.Balance.{find_invoice-eq-ok}

-- the tables with the payment and its transaction
abbrev pub unbalanced : AuthUser → Fresh → PaymentRequest → Row Invoice → Tables → Tables
unbalanced user fresh dto invoice db =
    let payment = new_row user fresh.payment_id (payment_payload fresh dto invoice) in
    record db {
      payments = payment ∷ db.payments;
      transactions =
          new_row user fresh.transaction_id (transaction_payload dto invoice payment)
          ∷ db.transactions;
    }

list_invoice_payments-reached :
    (user : AuthUser) (id : String) (db : Tables)
    → assert_same_account_or_developer user (some user.account_id) ≡ ok tt
    → list_invoice_payments user id db
      ≡ ok (filter (pays id) (filter (is_listed user false none none) db.payments))
unfolding list_invoice_payments list
list_invoice_payments-reached user id db reached = rw reached refl

recalculation-missing :
    (user : AuthUser) (now : ℕ) (invoice : Row Invoice) (db : Tables)
    → assert_same_account_or_developer user (some user.account_id) ≡ ok tt
    → find (has_cloud_id user (id_of invoice)) db.invoices ≡ none
    → recalculate_invoice_balance user now invoice db ≡ (err not_found, db)
unfolding recalculate_invoice_balance
recalculation-missing user now invoice db reached missing =
    let paid =
      sum fee_amount
        (filter (pays (id_of invoice)) (filter (is_listed user false none none) db.payments)) in
    let gone =
      update-missing user (id_of invoice) (patched user (rebalance now paid invoice.body))
        db.invoices missing in
    rw (list_invoice_payments-reached user (id_of invoice) db reached) (rw gone refl)

written_without_balance :
    (user : AuthUser) (now : ℕ) (fresh : Fresh) (dto : PaymentRequest) (db : Tables)
    (invoice : Row Invoice)
    → assert_same_account_or_developer user (some user.account_id) ≡ ok tt
    → find (has_cloud_id user (id_of invoice)) db.invoices ≡ none
    → can_access user dto.school_id dto.branch_id ≡ true
    → can_access user
        (first_truthy dto.school_id invoice.school_id)
        (first_truthy dto.branch_id invoice.branch_id)
      ≡ true
    → write_payment user now fresh dto invoice db
      ≡ (err not_found, unbalanced user fresh dto invoice db)
unfolding write_payment
written_without_balance user now fresh dto db invoice reached missing paying moving =
    let payment = new_row user fresh.payment_id (payment_payload fresh dto invoice) in
    let end = unbalanced user fresh dto invoice db in
    rw
      (create-reached user fresh.payment_id (payment_payload fresh dto invoice) db.payments reached
        paying)
      (rw
        (create-reached user fresh.transaction_id (transaction_payload dto invoice payment)
          db.transactions reached moving)
        (rw (recalculation-missing user now invoice end reached missing) refl))

-- Where the id of an invoice, which is the id in its payload if there is one, is that of no row of
-- the table, a payment that passes the checks, in a school and branch that the session may reach,
-- is answered with not found after the payment and the transaction are written: the invoices stay
-- as they are.
pub payment_without_balance :
    (user : AuthUser) (now : ℕ) (fresh : Fresh) (dto : PaymentRequest) (db : Tables)
    (invoice : Row Invoice)
    → check_payment user dto db ≡ ok invoice
    → find (has_cloud_id user (id_of invoice)) db.invoices ≡ none
    → can_access user dto.school_id dto.branch_id ≡ true
    → can_access user
        (first_truthy dto.school_id invoice.school_id)
        (first_truthy dto.branch_id invoice.branch_id)
      ≡ true
    → record_fee_payment user now fresh dto db
      ≡ (err not_found, unbalanced user fresh dto invoice db)
unfolding record_fee_payment
payment_without_balance user now fresh dto db invoice checked missing paying moving =
    let accepted = check_payment-IsAccepted user dto db invoice checked in
    let (reached, _) = find_invoice-eq-ok user dto.invoice_id db invoice accepted.found in
    rw checked (written_without_balance user now fresh dto db invoice reached missing paying moving)
