-- ===== src/Finance/Recorded.antt =====
-- What `recordFeePayment` has checked and written when it answers.
use eleeveon_schools_backend.Prelude.{◌≡◌, ap, ◌∙◌, sym, ℕ, String, true, List, ◌∷◌, map}
use eleeveon_schools_backend.Result.{Result, ok, err, ok_injective}
use eleeveon_schools_backend.Action.{after-eq-ok, query}
use eleeveon_schools_backend.Roles.Scope.{AuthUser}
use eleeveon_schools_backend.RecordStore.{
  Row, Payload, create, update, new_row, patch_row, patched, can_access,
}
use eleeveon_schools_backend.RecordStore.Rows.{create-eq-ok, update-eq-ok}
use eleeveon_schools_backend.Finance.{
  Invoice, FeePayment, Transaction, Tables, create_payment_row, create_transaction_row,
  update_invoice_row, id_of, sum, stored,
}
use eleeveon_schools_backend.Finance.Invoices.{
  list_invoice_payments, fee_amount, recalculate_invoice_balance, rebalance,
}
use eleeveon_schools_backend.Finance.Payments.{
  PaymentRequest, Fresh, check_payment, payment_payload, transaction_payload, write_payment,
  record_fee_payment,
}

abbrev with_payment : Row FeePayment → Tables → Tables
with_payment payment db = record db { payments = payment ∷ db.payments }

abbrev with_transaction : Row Transaction → Tables → Tables
with_transaction transaction db = record db { transactions = transaction ∷ db.transactions }

-- the invoice with the balance that `paid` leaves
abbrev pub rebalanced : AuthUser → ℕ → Row Invoice → ℕ → Row Invoice → Row Invoice
rebalanced user now invoice paid =
    patch_row user (id_of invoice) (patched user (rebalance now paid invoice.body))

abbrev with_balance : AuthUser → ℕ → Row Invoice → ℕ → Tables → Tables
with_balance user now invoice paid db = record db {
  invoices = map (rebalanced user now invoice paid) db.invoices;
}

-- the rows of a payment that was recorded; the balance is that of the payments in `counted`
pub record IsWritten (user : AuthUser) (now : ℕ) (fresh : Fresh) (dto : PaymentRequest)
    (invoice : Row Invoice) (db : Tables) (payment : Row FeePayment) (end : Tables) : Type 0 where
  pub reached : can_access user dto.school_id dto.branch_id ≡ true
  pub paid_by : payment ≡ new_row user fresh.payment_id (payment_payload fresh dto invoice)
  pub counted : List (Row FeePayment)
  pub counting : list_invoice_payments user (id_of invoice) end ≡ ok counted
  pub ends :
      end
      ≡ with_balance user now invoice (sum fee_amount counted) (
          with_transaction
            (new_row user fresh.transaction_id (transaction_payload dto invoice payment))
            (with_payment payment db))

pub stored-eq-ok :
    {Body : Type 0} (put : List (Row Body) → Tables) (db end : Tables) (r : Row Body)
    (step : Result (Row Body × List (Row Body)))
    → stored put db step ≡ (ok r, end)
    → (rows : List (Row Body)) × (step ≡ ok (r, rows)) × (put rows ≡ end)
stored-eq-ok put db end r (err e) h = cc
stored-eq-ok put db end r (ok (row, rows)) h =
    let same : row ≡ r = ok_injective _ _ (ap (λ p. p.0) h) in
    (rows, ap (λ x. ok (x, rows)) same, ap (λ p. p.1) h)

create_payment_row-eq-ok :
    (user : AuthUser) (id : String) (payload : Payload FeePayment) (db end : Tables)
    (r : Row FeePayment)
    → create_payment_row user id payload db ≡ (ok r, end)
    → (can_access user payload.school_id payload.branch_id ≡ true)
      × ((r ≡ new_row user id payload) × (end ≡ with_payment r db))
create_payment_row-eq-ok user id payload db end r h =
    let (rows, made, e) = stored-eq-ok _ db end r (create user id payload db.payments) h in
    let (reached, (new, all)) = create-eq-ok user id payload db.payments rows r made in
    (
      reached,
      (
        new,
        sym e ∙ ap (λ x. record db { payments = x }) (all ∙ ap (λ x. x ∷ db.payments) (sym new)),
      ),
    )

create_transaction_row-eq-ok :
    (user : AuthUser) (id : String) (payload : Payload Transaction) (db end : Tables)
    (r : Row Transaction)
    → create_transaction_row user id payload db ≡ (ok r, end)
    → end ≡ with_transaction (new_row user id payload) db
create_transaction_row-eq-ok user id payload db end r h =
    let (rows, made, e) = stored-eq-ok _ db end r (create user id payload db.transactions) h in
    let (_, (_, all)) = create-eq-ok user id payload db.transactions rows r made in
    sym e ∙ ap (λ x. record db { transactions = x }) all

update_invoice_row-eq-ok :
    (user : AuthUser) (id : String) (change : Row Invoice → Row Invoice) (db end : Tables)
    (r : Row Invoice)
    → update_invoice_row user id change db ≡ (ok r, end)
    → end ≡ record db { invoices = map (patch_row user id change) db.invoices }
update_invoice_row-eq-ok user id change db end r h =
    let (rows, made, e) = stored-eq-ok _ db end r (update user id change db.invoices) h in
    sym e
    ∙ ap (λ x. record db { invoices = x }) (update-eq-ok user id change db.invoices rows r made)

recalculate_invoice_balance-eq-ok :
    (user : AuthUser) (now : ℕ) (invoice r : Row Invoice) (db end : Tables)
    → recalculate_invoice_balance user now invoice db ≡ (ok r, end)
    → (counted : List (Row FeePayment)) × (list_invoice_payments user (id_of invoice) db
        ≡ ok counted)
      × (end ≡ with_balance user now invoice (sum fee_amount counted) db)
unfolding recalculate_invoice_balance
recalculate_invoice_balance-eq-ok user now invoice r db end h =
    let (counted, db1, h1, k1) =
      after-eq-ok (query (list_invoice_payments user (id_of invoice)) db) _ h in
    let counting : list_invoice_payments user (id_of invoice) db ≡ ok counted = ap (λ p. p.0) h1 in
    let same : db ≡ db1 = ap (λ p. p.1) h1 in
    let (updated, db2, h2, k2) =
      after-eq-ok
        (update_invoice_row user (id_of invoice)
          (patched user (rebalance now (sum fee_amount counted) invoice.body)) db1)
        _ k1 in
    let e = update_invoice_row-eq-ok user (id_of invoice) _ db1 db2 updated h2 in
    (
      counted,
      counting,
      sym (ap (λ p. p.1) k2)
          ∙ e
          ∙ ap (with_balance user now invoice (sum fee_amount counted)) (sym same),
    )

pub write_payment-IsWritten :
    (user : AuthUser) (now : ℕ) (fresh : Fresh) (dto : PaymentRequest) (invoice : Row Invoice)
    (db end : Tables) (payment : Row FeePayment)
    → write_payment user now fresh dto invoice db ≡ (ok payment, end)
    → IsWritten user now fresh dto invoice db payment end
unfolding write_payment list_invoice_payments
write_payment-IsWritten user now fresh dto invoice db end payment h =
    let (paid, db1, h1, k1) =
      after-eq-ok (create_payment_row user fresh.payment_id (payment_payload fresh dto invoice) db)
        _ h in
    let (moved, db2, h2, k2) =
      after-eq-ok
        (create_transaction_row user fresh.transaction_id (transaction_payload dto invoice paid)
          db1)
        _ k1 in
    let (balanced, db3, h3, k3) =
      after-eq-ok (recalculate_invoice_balance user now invoice db2) _ k2 in
    let (reached, (new, e1)) =
      create_payment_row-eq-ok user fresh.payment_id (payment_payload fresh dto invoice) db db1 paid
        h1 in
    let e2 =
      create_transaction_row-eq-ok user fresh.transaction_id (transaction_payload dto invoice paid)
        db1 db2 moved h2 in
    let (counted, counting, e3) =
      recalculate_invoice_balance-eq-ok user now invoice balanced db2 db3 h3 in
    let transaction = new_row user fresh.transaction_id (transaction_payload dto invoice paid) in
    let ends =
      sym (ap (λ p. p.1) k3)
      ∙ e3
      ∙ ap (with_balance user now invoice (sum fee_amount counted))
          (e2 ∙ ap (with_transaction transaction) e1) in
    let same : paid ≡ payment = ok_injective _ _ (ap (λ p. p.0) k3) in
    let paying : list_invoice_payments user (id_of invoice) end ≡ ok counted =
      ap (list_invoice_payments user (id_of invoice)) (sym (ap (λ p. p.1) k3) ∙ e3) ∙ counting in
    let w : IsWritten user now fresh dto invoice db paid end = record {
      reached = reached;
      paid_by = new;
      counted = counted;
      counting = paying;
      ends = ends;
    } in
    rw same at w

-- A payment that was recorded has passed the checks and is written.
pub record_fee_payment-IsWritten :
    (user : AuthUser) (now : ℕ) (fresh : Fresh) (dto : PaymentRequest) (db end : Tables)
    (payment : Row FeePayment)
    → record_fee_payment user now fresh dto db ≡ (ok payment, end)
    → (invoice : Row Invoice) × (check_payment user dto db ≡ ok invoice)
      × IsWritten user now fresh dto invoice db payment end
unfolding record_fee_payment
record_fee_payment-IsWritten user now fresh dto db end payment h =
    let (invoice, db1, h1, k1) = after-eq-ok (query (check_payment user dto) db) _ h in
    let same : db ≡ db1 = ap (λ p. p.1) h1 in
    let written : write_payment user now fresh dto invoice db ≡ (ok payment, end) =
      ap (write_payment user now fresh dto invoice) same ∙ k1 in
    (
      invoice,
      ap (λ p. p.0) h1,
      write_payment-IsWritten user now fresh dto invoice db end payment written,
    )
