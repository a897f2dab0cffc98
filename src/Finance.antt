-- ===== src/Finance.antt =====
-- src/finance/finance.service.ts: school fees, from the invoice to the payments, the wallet of a
-- branch and the withdrawals. Rows live in the record store. An amount is a whole number of the
-- smallest unit and not negative: sums are exact, where the code adds floats, and `toNumber` of
-- what is missing is 0. Ids that the store and the clock make are arguments; columns that no
-- decision reads are left out.
pub mod Status
pub mod Invoices
pub mod Payments
pub mod Gateway
pub mod Wallet
pub mod Accepted
pub mod Recorded
pub mod Balance
pub mod Duplicates
pub mod Unbalanced
pub mod Confirmed
pub mod Checkout
pub mod Transfers
pub mod Withdrawals
mod Tests
use eleeveon_schools_backend.Prelude.{
  ℕ, ◌+◌, String, Bool, true, false, ◌&&◌, Option, none, some, get_or, List, [], ◌∷◌, ◌===◌, ltb,
  leb, or_default, includes, if◌then◌else◌, not,
}
use eleeveon_schools_backend.Text.{trim, to_lower_case}
use eleeveon_schools_backend.Result.{Result, ok, err}
use eleeveon_schools_backend.Action.{Action}
use eleeveon_schools_backend.Roles.Scope.{AuthUser}
use eleeveon_schools_backend.RecordStore.{Row, Payload, create, update}

pub record Invoice : Type 0 where
  pub student_id : String
  pub subtotal : ℕ
  pub discount : ℕ
  pub tax : ℕ
  pub total : ℕ
  pub amount_paid : ℕ
  pub balance : ℕ
  pub status : Option String
  pub due_date : Option ℕ
  pub paid_at : Option ℕ

pub record InvoiceItem : Type 0 where
  pub invoice_id : String
  pub name : String
  pub amount : ℕ
  pub required : Bool
  pub order : ℕ

pub record FeePayment : Type 0 where
  pub invoice_id : Option String
  pub student_id : String
  pub amount : ℕ
  pub status : Option String
  pub receipt_number : Option String
  pub reference_number : Option String
  pub provider_reference : Option String

pub record Transaction : Type 0 where
  pub invoice_id : Option String
  pub payment_id : Option String
  pub direction : String
  pub amount : ℕ
  pub provider : String
  pub status : Option String
  pub provider_reference : Option String

pub record Intent : Type 0 where
  pub invoice_id : Option String
  pub amount : ℕ
  pub provider : String
  pub provider_reference : Option String
  pub status : String

pub record Withdrawal : Type 0 where
  pub amount : ℕ
  pub status : Option String
  pub reference_number : String

pub record Tables : Type 0 where
  pub invoices : List (Row Invoice)
  pub items : List (Row InvoiceItem)
  pub payments : List (Row FeePayment)
  pub transactions : List (Row Transaction)
  pub intents : List (Row Intent)
  pub withdrawals : List (Row Withdrawal)

-- what a write of the record store leaves in its table
abbrev pub stored :
    {Body : Type 0}
    → (List (Row Body) → Tables)
    → Tables
    → Result (Row Body × List (Row Body))
    → Result (Row Body) × Tables
stored put db (err e) = (err e, db)
stored put db (ok (row, rows)) = (ok row, put rows)

module _ (user : AuthUser) where
  abbrev pub create_invoice_row : String → Payload Invoice → Action Tables (Row Invoice)
  create_invoice_row id payload db =
      stored (λ rows. record db { invoices = rows }) db (create user id payload db.invoices)

  abbrev pub create_item_row : String → Payload InvoiceItem → Action Tables (Row InvoiceItem)
  create_item_row id payload db =
      stored (λ rows. record db { items = rows }) db (create user id payload db.items)

  abbrev pub create_payment_row : String → Payload FeePayment → Action Tables (Row FeePayment)
  create_payment_row id payload db =
      stored (λ rows. record db { payments = rows }) db (create user id payload db.payments)

  abbrev pub create_transaction_row : String → Payload Transaction → Action Tables (Row Transaction)
  create_transaction_row id payload db =
      stored (λ rows. record db { transactions = rows }) db (create user id payload db.transactions)

  abbrev pub create_withdrawal_row : String → Payload Withdrawal → Action Tables (Row Withdrawal)
  create_withdrawal_row id payload db =
      stored (λ rows. record db { withdrawals = rows }) db (create user id payload db.withdrawals)

  abbrev pub update_invoice_row : String → (Row Invoice → Row Invoice) → Action Tables (Row Invoice)
  update_invoice_row id change db =
      stored (λ rows. record db { invoices = rows }) db (update user id change db.invoices)

  abbrev pub create_intent_row : String → Payload Intent → Action Tables (Row Intent)
  create_intent_row id payload db =
      stored (λ rows. record db { intents = rows }) db (create user id payload db.intents)

  abbrev pub update_intent_row : String → (Row Intent → Row Intent) → Action Tables (Row Intent)
  update_intent_row id change db =
      stored (λ rows. record db { intents = rows }) db (update user id change db.intents)

-- `normalizeStatus` and `isPaidStatus`
unfoldable pub normalize_status : String → String
normalize_status status = to_lower_case (trim status)

abbrev pub paid_words : List String
paid_words = "paid" ∷ "success" ∷ "succeeded" ∷ "successful" ∷ []

unfoldable pub is_paid_status : String → Bool
unfolding normalize_status
is_paid_status status = includes (normalize_status status) paid_words

-- `idOf`
abbrev pub id_of : {Body : Type 0} → Row Body → String
id_of r = get_or r.local_id r.cloud_id

-- `rows.reduce((sum, row) => sum + toNumber(row.amount), 0)`
module _ {Body : Type 0} (amount : Body → ℕ) where
  abbrev pub sum : List (Row Body) → ℕ
  sum [] = 0
  sum (r ∷ rows) = amount r.body + sum rows

abbrev is_past : ℕ → Option ℕ → Bool
is_past now none = false
is_past now (some date) = ltb date now

-- `invoiceStatus`
unfoldable pub invoice_status : ℕ → ℕ → ℕ → Option ℕ → String
invoice_status now total paid due_date =
    if leb total paid && ltb 0 total
    then "paid"
    else if ltb 0 paid
    then "part_paid"
    else if is_past now due_date
    then "overdue"
    else "issued"
