-- ===== src/Finance/Balance.antt =====
-- The balance of an invoice after a payment, and the bound on what is paid.
use eleeveon_schools_backend.Prelude.{
  ◌≡◌, refl, ap, ◌∙◌, sym, ℕ, ◌+◌, ◌-◌, ◌≤◌, String, true, false, none, some, List, ◌∷◌, ◌===◌,
  ◌==ℕ◌, ltb, filter, find, map, arith, inl, inr, Bool-cases, eq_refl,
}
use eleeveon_schools_backend.Slices.{find-filter, find-filter-map}
use eleeveon_schools_backend.Text.{trim, to_lower_case}
use eleeveon_schools_backend.Result.{
  ok, not_found, or_throw-eq-ok, bind-eq-ok, guard-eq-ok, ok_injective,
}
use eleeveon_schools_backend.Roles.Scope.{AuthUser, assert_same_account_or_developer}
use eleeveon_schools_backend.RecordStore.{
  Row, new_row, is_listed, list, patched, can_access, has_cloud_id,
}
use eleeveon_schools_backend.Finance.{
  Invoice, FeePayment, Tables, id_of, sum, is_paid_status, normalize_status,
}
use eleeveon_schools_backend.Finance.Invoices.{
  find_invoice, list_invoice_payments, is_invoice, pays, fee_amount, rebalance,
}
use eleeveon_schools_backend.Finance.Status.{already_paid-filter}
use eleeveon_schools_backend.Finance.Payments.{
  PaymentRequest, Fresh, already_paid, payment_payload, record_fee_payment,
}
use eleeveon_schools_backend.Finance.Accepted.{IsAccepted, check_payment-IsAccepted}
use eleeveon_schools_backend.Finance.Recorded.{IsWritten, record_fee_payment-IsWritten, rebalanced}

paid-is_paid_status : is_paid_status "paid" ≡ true
unfolding is_paid_status normalize_status to_lower_case trim
paid-is_paid_status = refl

-- the new row is among the payments that are listed next
pub list_invoice_payments-new :
    (user : AuthUser) (id : String) (db end : Tables) (r : Row FeePayment)
    (prior : List (Row FeePayment))
    → list_invoice_payments user id db ≡ ok prior
    → end.payments ≡ r ∷ db.payments
    → is_listed user false none none r ≡ true
    → pays id r ≡ true
    → list_invoice_payments user id end ≡ ok (r ∷ prior)
unfolding list_invoice_payments list
list_invoice_payments-new user id db end r prior h e listed paying =
    let (rows, h1, h2) = bind-eq-ok (list user false none none db.payments) _ h in
    let (reached, h3) =
      guard-eq-ok (assert_same_account_or_developer user (some user.account_id)) _ h1 in
    rw reached (
      rw e (
        rw listed (
          rw paying (
            ap (λ xs. ok (r ∷ xs))
              (ap (filter (pays id)) (ok_injective _ _ h3) ∙ ok_injective _ _ h2)))))

pub new_payment-pays :
    (user : AuthUser) (fresh : Fresh) (dto : PaymentRequest) (invoice : Row Invoice)
    → pays (id_of invoice) (new_row user fresh.payment_id (payment_payload fresh dto invoice))
      ≡ true
new_payment-pays user fresh dto invoice = rw (eq_refl (id_of invoice)) paid-is_paid_status

pub new_payment-is_listed :
    (user : AuthUser) (fresh : Fresh) (dto : PaymentRequest) (invoice : Row Invoice)
    → can_access user dto.school_id dto.branch_id ≡ true
    → is_listed user false none none
        (new_row user fresh.payment_id (payment_payload fresh dto invoice))
      ≡ true
new_payment-is_listed user fresh dto invoice reached =
    rw (eq_refl user.account_id) (rw reached refl)

pub find_invoice-eq-ok :
    (user : AuthUser) (id : String) (db : Tables) (invoice : Row Invoice)
    → find_invoice user id db ≡ ok invoice
    → (assert_same_account_or_developer user (some user.account_id) ≡ ok tt)
      × (find (is_invoice id) (filter (is_listed user false none none) db.invoices) ≡ some invoice)
unfolding find_invoice list
find_invoice-eq-ok user id db invoice h =
    let (rows, h1, h2) = bind-eq-ok (list user false none none db.invoices) _ h in
    let (reached, h3) =
      guard-eq-ok (assert_same_account_or_developer user (some user.account_id)) _ h1 in
    let found = or_throw-eq-ok (find (is_invoice id) rows) not_found invoice h2 in
    (reached, ap (find (is_invoice id)) (ok_injective _ _ h3) ∙ found)

module _ (user : AuthUser) (now : ℕ) (invoice : Row Invoice) (paid : ℕ) where
  rebalanced-listed :
      (r : Row Invoice)
      → is_listed user false none none (rebalanced user now invoice paid r)
        ≡ is_listed user false none none r
  rebalanced-listed r = elim (Bool-cases (has_cloud_id user (id_of invoice) r)) [
    | inl e ↦ rw e refl
    | inr e ↦ rw e refl
  ]

  rebalanced-is_invoice :
      (id : String) (r : Row Invoice)
      → is_invoice id (rebalanced user now invoice paid r) ≡ is_invoice id r
  rebalanced-is_invoice id r = elim (Bool-cases (has_cloud_id user (id_of invoice) r)) [
    | inl e ↦ rw e refl
    | inr e ↦ rw e refl
  ]

  -- the invoice that was found, after the update
  pub find_invoice-rebalanced :
      (id : String) (db end : Tables)
      → find_invoice user id db ≡ ok invoice
      → end.invoices ≡ map (rebalanced user now invoice paid) db.invoices
      → find_invoice user id end ≡ ok (rebalanced user now invoice paid invoice)
  unfolding find_invoice list
  find_invoice-rebalanced id db end h e =
      let (reached, found) = find_invoice-eq-ok user id db invoice h in
      rw reached (
        rw e (
          rw
            (find-filter-map (is_invoice id) (is_listed user false none none)
              (rebalanced user now invoice paid) db.invoices invoice (rebalanced-is_invoice id)
              rebalanced-listed found)
            refl))

  -- an invoice without an id of its own is the row that the update finds
  find_invoice-own :
      (id : String) (db : Tables)
      → find_invoice user id db ≡ ok invoice
      → invoice.local_id ≡ none
      → has_cloud_id user (id_of invoice) invoice ≡ true
  find_invoice-own id db h own =
      let (_, found) = find_invoice-eq-ok user id db invoice h in
      let listed =
        find-filter (is_invoice id) (is_listed user false none none) db.invoices invoice found in
      let account : (invoice.account_id === user.account_id) ≡ true = ground arith in
      rw own (rw (eq_refl invoice.cloud_id) account)

-- what a payment leaves of an invoice, between the tables before it and after it
pub record IsBalanced (user : AuthUser) (dto : PaymentRequest) (db end : Tables) : Type 0 where
  pub before : Row Invoice
  pub afterwards : Row Invoice
  pub prior : List (Row FeePayment)
  pub paying : List (Row FeePayment)
  pub found : find_invoice user dto.invoice_id db ≡ ok before
  pub found_after : find_invoice user dto.invoice_id end ≡ ok afterwards
  pub listed : list_invoice_payments user (id_of before) db ≡ ok prior
  pub listed_after : list_invoice_payments user (id_of before) end ≡ ok paying
  pub grows : sum fee_amount paying ≡ dto.amount + sum fee_amount prior
  pub same_total : afterwards.body.total ≡ before.body.total
  pub amount_paid : afterwards.body.amount_paid ≡ sum fee_amount paying
  pub balances : afterwards.body.amount_paid + afterwards.body.balance ≡ before.body.total

already_paid-listed :
    (user : AuthUser) (id : String) (db : Tables) (prior : List (Row FeePayment))
    → list_invoice_payments user id db ≡ ok prior
    → already_paid prior ≡ sum fee_amount prior
unfolding list_invoice_payments
already_paid-listed user id db prior h =
    let (rows, _, e) = bind-eq-ok (list user false none none db.payments) _ h in
    let same = ok_injective _ _ e in rw (← same) (already_paid-filter id rows)

covered_amount :
    (amount total prior : ℕ)
    → (amount ==ℕ 0) ≡ false
    → ltb (total - prior) amount ≡ false
    → amount + prior ≤ total
covered_amount amount total prior positive covered = ground arith

module _ (user : AuthUser) (now : ℕ) (fresh : Fresh) (dto : PaymentRequest) (db end : Tables)
    (payment : Row FeePayment) (invoice : Row Invoice) (accepted : IsAccepted user dto db invoice)
    (w : IsWritten user now fresh dto invoice db payment end) where
  -- the payments that are listed after a payment are those before it and itself
  pub counted_payments : w.counted ≡ payment ∷ accepted.prior
  counted_payments =
      let listed : is_listed user false none none payment ≡ true =
        rw w.paid_by (new_payment-is_listed user fresh dto invoice w.reached) in
      let paying : pays (id_of invoice) payment ≡ true =
        rw w.paid_by (new_payment-pays user fresh dto invoice) in
      let all =
        list_invoice_payments-new user (id_of invoice) db end payment accepted.prior accepted.paying
          (ap (λ d. d.payments) w.ends) listed paying in
      ok_injective _ _ (sym w.counting ∙ all)

  counted_sum : sum fee_amount w.counted ≡ dto.amount + sum fee_amount accepted.prior
  counted_sum =
      let amount : payment.body.amount ≡ dto.amount = ap (λ r. r.body.amount) w.paid_by in
      rw counted_payments (ap (λ n. n + sum fee_amount accepted.prior) amount)

  counted-le : sum fee_amount w.counted ≤ invoice.body.total
  counted-le =
      let standing = already_paid-listed user (id_of invoice) db accepted.prior accepted.paying in
      rw counted_sum (
        covered_amount dto.amount invoice.body.total (sum fee_amount accepted.prior)
          accepted.positive (rw standing at accepted.is_new.covered))

  rebalanced_self :
      invoice.local_id ≡ none
      → rebalanced user now invoice (sum fee_amount w.counted) invoice
        ≡ patched user (rebalance now (sum fee_amount w.counted) invoice.body) invoice
  rebalanced_self own =
      rw
        (find_invoice-own user now invoice (sum fee_amount w.counted) dto.invoice_id db
          accepted.found own)
        refl

  written-IsBalanced : invoice.local_id ≡ none → IsBalanced user dto db end
  written-IsBalanced own =
      let le = counted-le in
      let same = rebalanced_self own in
      record {
        before = invoice;
        afterwards = rebalanced user now invoice (sum fee_amount w.counted) invoice;
        prior = accepted.prior;
        paying = w.counted;
        found = accepted.found;
        found_after =
            find_invoice-rebalanced user now invoice (sum fee_amount w.counted) dto.invoice_id db
              end accepted.found (ap (λ d. d.invoices) w.ends);
        listed = accepted.paying;
        listed_after = w.counting;
        grows = counted_sum;
        same_total = ap (λ r. r.body.total) same;
        amount_paid = ap (λ r. r.body.amount_paid) same;
        balances = rw same (omega arith);
      }

-- A payment that is recorded is added to the sum of the payments of its invoice, and the invoice,
-- unless it has an id of its own, is stored with that sum as the amount paid and the rest of its
-- total as the balance: the two together are the total, and no more is paid than the total.
pub record_fee_payment-IsBalanced :
    (user : AuthUser) (now : ℕ) (fresh : Fresh) (dto : PaymentRequest) (db end : Tables)
    (payment : Row FeePayment) (invoice : Row Invoice)
    → find_invoice user dto.invoice_id db ≡ ok invoice
    → invoice.local_id ≡ none
    → record_fee_payment user now fresh dto db ≡ (ok payment, end)
    → IsBalanced user dto db end
record_fee_payment-IsBalanced user now fresh dto db end payment invoice found own h =
    let (invoice2, checked, w) = record_fee_payment-IsWritten user now fresh dto db end payment h in
    let accepted = check_payment-IsAccepted user dto db invoice2 checked in
    let one : invoice2 ≡ invoice = ok_injective _ _ (sym accepted.found ∙ found) in
    let same_accepted : IsAccepted user dto db invoice = rw one at accepted in
    let same_written : IsWritten user now fresh dto invoice db payment end = rw one at w in
    written-IsBalanced user now fresh dto db end payment invoice same_accepted same_written own
