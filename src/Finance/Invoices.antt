-- ===== src/Finance/Invoices.antt =====
-- src/finance/finance.service.ts: invoices, and the balance that their payments leave.
use eleeveon_schools_backend.Prelude.{
  ℕ, suc, ◌+◌, ◌-◌, String, Bool, true, false, not, ◌&&◌, Option, none, some, get_or, List, [], ◌∷◌,
  ◌===◌, find, filter, or_default, if◌then◌else◌, length,
}
use eleeveon_schools_backend.Result.{Result, ok, err, not_found, or_throw}
use eleeveon_schools_backend.Action.{Action, pure, query, ◌>>=◌}
use eleeveon_schools_backend.Roles.Scope.{AuthUser}
use eleeveon_schools_backend.RecordStore.{Row, list, patched}
use eleeveon_schools_backend.Finance.{
  Invoice, FeePayment, Transaction, Tables, create_invoice_row, create_item_row, update_invoice_row,
  is_paid_status, normalize_status, id_of, sum, invoice_status,
}
use eleeveon_schools_backend.Result

abbrev pub is_invoice : String → Row Invoice → Bool
is_invoice id r = id_of r === id

-- `findInvoice`
unfoldable pub find_invoice : AuthUser → String → Tables → Result (Row Invoice)
unfolding list
find_invoice user id db =
    Result.◌>>=◌ (list user false none none db.invoices)
      (λ rows. or_throw (find (is_invoice id) rows) not_found)

-- `row.status || "paid"`
abbrev pub counted_status : Option String → String
counted_status status = or_default status "paid"

abbrev pub pays : String → Row FeePayment → Bool
pays id r =
    not r.is_deleted
    && (get_or r.body.invoice_id "" === id && is_paid_status (counted_status r.body.status))

-- `listInvoicePayments`
unfoldable pub list_invoice_payments : AuthUser → String → Tables → Result (List (Row FeePayment))
unfolding list
list_invoice_payments user id db =
    Result.◌>>=◌ (list user false none none db.payments) (λ rows. ok (filter (pays id) rows))

abbrev pub fee_amount : FeePayment → ℕ
fee_amount p = p.amount

abbrev pub recalculated : ℕ → ℕ → Invoice → Invoice
recalculated now paid i =
    let status = invoice_status now i.total paid i.due_date in
    record i {
      amount_paid = paid;
      balance = i.total - paid;
      status = some status;
      paid_at = if status === "paid" then some now else i.paid_at;
    }

-- what the update writes: the columns that are computed from the row as it was found
abbrev pub rebalance : ℕ → ℕ → Invoice → Invoice → Invoice
rebalance now paid found stored =
    let fresh = recalculated now paid found in
    record stored {
      amount_paid = fresh.amount_paid;
      balance = fresh.balance;
      status = fresh.status;
      paid_at = fresh.paid_at;
    }

-- `recalculateInvoiceBalance`
unfoldable pub recalculate_invoice_balance :
    AuthUser → ℕ → Row Invoice → Action Tables (Row Invoice)
unfolding list_invoice_payments
recalculate_invoice_balance user now invoice = do
  paying ← query (list_invoice_payments user (id_of invoice))
  let paid = sum fee_amount paying
  updated ← update_invoice_row user (id_of invoice) (patched user (rebalance now paid invoice.body))
  pure (ok (record invoice { body = recalculated now paid invoice.body }))

pub record ItemRequest : Type 0 where
  pub name : String
  pub amount : Option ℕ
  pub required : Option Bool

pub record InvoiceRequest : Type 0 where
  pub school_id : Option String
  pub branch_id : Option String
  pub student_id : String
  pub items : List ItemRequest
  pub subtotal : Option ℕ
  pub discount : Option ℕ
  pub tax : Option ℕ
  pub total : Option ℕ
  pub due_date : Option ℕ

abbrev pub item_total : List ItemRequest → ℕ
item_total [] = 0
item_total (item ∷ items) = get_or item.amount 0 + item_total items

-- The subtotal and the tax come first, so that the subtraction stops at 0 as `Math.max` does.
abbrev pub issued : InvoiceRequest → Invoice
issued dto =
    let subtotal = get_or dto.subtotal (item_total dto.items) in
    let discount = get_or dto.discount 0 in
    let tax = get_or dto.tax 0 in
    let total = get_or dto.total (subtotal + tax - discount) in
    record {
      student_id = dto.student_id;
      subtotal = subtotal;
      discount = discount;
      tax = tax;
      total = total;
      amount_paid = 0;
      balance = total;
      status = some "issued";
      due_date = dto.due_date;
      paid_at = none;
    }

-- the rows of `studentFeeInvoiceItems`; `ids` gives a new id by position
unfoldable pub create_items :
    AuthUser
    → InvoiceRequest
    → String
    → (ℕ → String)
    → ℕ
    → List ItemRequest
    → Action Tables (Unit {0})
create_items user dto invoice ids index [] = pure (ok tt)
create_items user dto invoice ids index (item ∷ items) = do
  created ← create_item_row user (ids index) (record {
    school_id = dto.school_id;
    branch_id = dto.branch_id;
    is_deleted = some false;
    body = record {
      invoice_id = invoice;
      name = item.name;
      amount = get_or item.amount 0;
      required = get_or item.required true;
      order = suc index;
    };
  })
  create_items user dto invoice ids (suc index) items

-- `createInvoice`
unfoldable pub create_invoice :
    AuthUser → String → (ℕ → String) → InvoiceRequest → Action Tables (Row Invoice)
unfolding create_items
create_invoice user id item_ids dto = do
  invoice ← create_invoice_row user id (record {
    school_id = dto.school_id;
    branch_id = dto.branch_id;
    is_deleted = some false;
    body = issued dto;
  })
  done ← create_items user dto (id_of invoice) item_ids 0 dto.items
  pure (ok invoice)

pub record Dashboard : Type 0 where
  pub total_invoiced : ℕ
  pub total_paid : ℕ
  pub transaction_inflow : ℕ
  pub outstanding : ℕ
  pub invoice_count : ℕ
  pub payment_count : ℕ
  pub transaction_count : ℕ
  pub overdue_count : ℕ
  pub paid_invoice_count : ℕ

abbrev has_status : String → Row Invoice → Bool
has_status word r = normalize_status (get_or r.body.status "") === word

abbrev pub is_paid_inflow : Row Transaction → Bool
is_paid_inflow r =
    not r.is_deleted
    && (r.body.direction === "inflow" && is_paid_status (counted_status r.body.status))

abbrev pub is_paid_payment : Row FeePayment → Bool
is_paid_payment r = not r.is_deleted && is_paid_status (counted_status r.body.status)

abbrev pub is_kept : {Body : Type 0} → Row Body → Bool
is_kept r = not r.is_deleted

abbrev pub transaction_amount : Transaction → ℕ
transaction_amount t = t.amount

abbrev overview : List (Row Invoice) → List (Row FeePayment) → List (Row Transaction) → Dashboard
overview invoices payments transactions =
    let active = filter is_kept invoices in
    let paying = filter is_paid_payment payments in
    record {
      total_invoiced = sum (λ i. i.total) active;
      total_paid = sum fee_amount paying;
      transaction_inflow = sum transaction_amount (filter is_paid_inflow transactions);
      outstanding = sum (λ i. i.balance) active;
      invoice_count = length active;
      payment_count = length paying;
      transaction_count = length transactions;
      overdue_count = length (filter (has_status "overdue") active);
      paid_invoice_count = length (filter (has_status "paid") active);
    }

-- `dashboard`, without the currency settings that it passes on
unfoldable pub dashboard : AuthUser → Option String → Option String → Tables → Result Dashboard
unfolding list
dashboard user school branch db =
    Result.◌>>=◌ (list user false school branch db.invoices) (λ invoices.
      Result.◌>>=◌ (list user false school branch db.payments) (λ payments.
        Result.◌>>=◌ (list user false school branch db.transactions)
          (λ transactions. ok (overview invoices payments transactions))))
