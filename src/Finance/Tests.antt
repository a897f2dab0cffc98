-- ===== src/Finance/Tests.antt =====
-- Concrete runs of the record store and of the finance service.
use eleeveon_schools_backend.Roles.{is_developer, normalize_role}
use eleeveon_schools_backend.Prelude.{
  ◌≡◌, refl, ◌≤◌, String, true, false, none, some, [], ◌∷◌, All, arith,
}
use eleeveon_schools_backend.Result.{Result, ok, err, error, bad_request, not_found}
use eleeveon_schools_backend.Roles.Scope.{
  AuthUser, assert_same_account_or_developer, user_can_access_school_branch,
}
use eleeveon_schools_backend.RecordStore.{Row, list, can_access, create, update}
use eleeveon_schools_backend.RecordStore.Rows.{IsReached, list_is_scoped}
use eleeveon_schools_backend.Finance.{
  Invoice, FeePayment, Transaction, Withdrawal, Tables, is_paid_status, invoice_status,
}
use eleeveon_schools_backend.Finance.Invoices.{find_invoice}
use eleeveon_schools_backend.Finance.Payments.{
  PaymentRequest, Fresh, check_payment, record_fee_payment,
}
use eleeveon_schools_backend.Finance.Gateway.{
  Charge, ConfirmRequest, confirm_student_fee_payment, charge_status,
}
use eleeveon_schools_backend.Finance.Checkout.{
  InitiateRequest, check_initiate, amount_to_pay, settled_invoice_is_charged,
}
use eleeveon_schools_backend.Finance.Wallet.{
  WithdrawalRequest, FreshWithdrawal, Wallet, initiate_withdrawal,
}
use eleeveon_schools_backend.Finance.Balance.{IsBalanced, record_fee_payment-IsBalanced}
use eleeveon_schools_backend.Finance.Duplicates.{payment_is_recorded_once}
use eleeveon_schools_backend.Finance.Unbalanced.{unbalanced, payment_without_balance}
use eleeveon_schools_backend.Finance.Confirmed.{confirmation_is_verified}
use eleeveon_schools_backend.Finance.Withdrawals.{initiate_withdrawal_is_covered}

abbrev user : AuthUser
user = record {
  id = "head";
  account_id = "account";
  role = "super_admin";
  active = some true;
  memberships = [];
}

abbrev fees : Row Invoice
fees = record {
  cloud_id = "invoice";
  account_id = "account";
  local_id = none;
  school_id = some "school";
  branch_id = some "branch";
  is_deleted = false;
  version = 1;
  body = record {
    student_id = "student";
    subtotal = 900;
    discount = 0;
    tax = 0;
    total = 900;
    amount_paid = 0;
    balance = 900;
    status = some "issued";
    due_date = none;
    paid_at = none;
  };
}

abbrev db : Tables
db = record {
  invoices = fees ∷ [];
  items = [];
  payments = [];
  transactions = [];
  intents = [];
  withdrawals = [];
}

abbrev fresh : Fresh
fresh = record { payment_id = "payment"; transaction_id = "transaction"; receipt_number = "RCPT-1" }

abbrev request : PaymentRequest
request = record {
  school_id = some "school";
  branch_id = some "branch";
  invoice_id = "invoice";
  student_id = none;
  amount = 400;
  provider = none;
  receipt_number = none;
  reference_number = some " MOMO-7 ";
  provider_reference = none;
}

abbrev paid : Row FeePayment
paid = record {
  cloud_id = "payment";
  account_id = "account";
  local_id = none;
  school_id = some "school";
  branch_id = some "branch";
  is_deleted = false;
  version = 1;
  body = record {
    invoice_id = some "invoice";
    student_id = "student";
    amount = 400;
    status = some "paid";
    receipt_number = some "RCPT-1";
    reference_number = some " MOMO-7 ";
    provider_reference = none;
  };
}

abbrev moved : Row Transaction
moved = record {
  cloud_id = "transaction";
  account_id = "account";
  local_id = none;
  school_id = some "school";
  branch_id = some "branch";
  is_deleted = false;
  version = 1;
  body = record {
    invoice_id = some "invoice";
    payment_id = some "payment";
    direction = "inflow";
    amount = 400;
    provider = "manual";
    status = some "paid";
    provider_reference = none;
  };
}

abbrev part_paid : Row Invoice
part_paid = record fees {
  version = 2;
  body = record fees.body { amount_paid = 400; balance = 500; status = some "part_paid" };
}

abbrev paid_db : Tables
paid_db = record db { invoices = part_paid ∷ []; payments = paid ∷ []; transactions = moved ∷ [] }

payment_recorded : record_fee_payment user 5 fresh request db ≡ (ok paid, paid_db)
unfolding record_fee_payment assert_same_account_or_developer is_developer normalize_role
    user_can_access_school_branch create update is_paid_status invoice_status
payment_recorded = refl

invoice_found : find_invoice user "invoice" db ≡ ok fees
unfolding record_fee_payment assert_same_account_or_developer is_developer normalize_role
    user_can_access_school_branch
invoice_found = refl

invoice_listed : list user false none none db.invoices ≡ ok (fees ∷ [])
unfolding record_fee_payment assert_same_account_or_developer is_developer normalize_role
    user_can_access_school_branch
invoice_listed = refl

list_is_scoped_example : All (IsReached user false none none) (fees ∷ [])
list_is_scoped_example = list_is_scoped user false none none db.invoices (fees ∷ []) invoice_listed

record_fee_payment-IsBalanced_example : IsBalanced user request db paid_db
record_fee_payment-IsBalanced_example =
    record_fee_payment-IsBalanced user 5 fresh request db paid_db paid fees invoice_found refl
      payment_recorded

payment_is_recorded_once_example :
    record_fee_payment user 9 fresh request paid_db ≡ (err bad_request, paid_db)
payment_is_recorded_once_example =
    payment_is_recorded_once user 5 9 fresh fresh request db paid_db paid payment_recorded

-- an invoice that a client has made offline, with an id of its own
abbrev offline_fees : Row Invoice
offline_fees = record fees { local_id = some "7" }

abbrev offline_db : Tables
offline_db = record db { invoices = offline_fees ∷ [] }

abbrev offline_request : PaymentRequest
offline_request = record request { invoice_id = "7" }

offline_checked : check_payment user offline_request offline_db ≡ ok offline_fees
unfolding record_fee_payment assert_same_account_or_developer is_developer normalize_role
    user_can_access_school_branch
offline_checked = refl

school_reached : can_access user (some "school") (some "branch") ≡ true
unfolding record_fee_payment user_can_access_school_branch normalize_role
school_reached = refl

payment_without_balance_example :
    record_fee_payment user 5 fresh offline_request offline_db
    ≡ (err not_found, unbalanced user fresh offline_request offline_fees offline_db)
payment_without_balance_example =
    payment_without_balance user 5 fresh offline_request offline_db offline_fees offline_checked
      refl school_reached school_reached

abbrev settled_fees : Row Invoice
settled_fees = record fees {
  body = record fees.body { amount_paid = 900; balance = 0; status = some "paid" };
}

abbrev settled_db : Tables
settled_db = record db { invoices = settled_fees ∷ [] }

abbrev initiate : InitiateRequest
initiate = record {
  school_id = some "school";
  branch_id = some "branch";
  invoice_id = some "invoice";
  amount = none;
  method = none;
  provider = none;
}

settled_found : find_invoice user "invoice" settled_db ≡ ok settled_fees
unfolding record_fee_payment assert_same_account_or_developer is_developer normalize_role
    user_can_access_school_branch
settled_found = refl

settled_invoice_is_charged_example :
    (check_initiate user initiate settled_db ≡ ok settled_fees)
    × (amount_to_pay initiate settled_fees.body ≡ 900)
settled_invoice_is_charged_example =
    settled_invoice_is_charged user initiate settled_db settled_fees refl settled_found refl refl
      (omega arith)

abbrev paystack : String → Result Charge
paystack reference =
    ok (record { status = some "success"; amount = 400; invoice_id = some "invoice" })

abbrev confirm : ConfirmRequest
confirm = record {
  invoice_id = some "invoice";
  reference = some " MOMO-7 ";
  provider_reference = none;
  status = none;
  provider = none;
  amount = 0;
}

abbrev confirmed : Row FeePayment
confirmed = record paid { body = record paid.body { provider_reference = some " MOMO-7 " } }

abbrev confirmed_db : Tables
confirmed_db = record paid_db {
  payments = confirmed ∷ [];
  transactions =
      record moved {
        body = record moved.body { provider = "paystack"; provider_reference = some " MOMO-7 " };
      }
      ∷ [];
}

payment_confirmed :
    confirm_student_fee_payment paystack user 5 fresh confirm db
    ≡ (ok (confirmed, part_paid), confirmed_db)
unfolding record_fee_payment confirm_student_fee_payment assert_same_account_or_developer
    is_developer normalize_role user_can_access_school_branch create update invoice_status
payment_confirmed = refl

confirmation_is_verified_example :
    (charge : Charge) × (paystack " MOMO-7 " ≡ ok charge)
    × (is_paid_status (charge_status charge) ≡ true)
confirmation_is_verified_example =
    confirmation_is_verified paystack user 5 fresh confirm db confirmed_db confirmed part_paid refl
      refl payment_confirmed

-- The amount of the request is recorded, not the one that Paystack has verified.
request_amount_wins :
    (confirm_student_fee_payment paystack user 5 fresh (record confirm { amount = 900 }) db).0
    ≡ ok (
      record confirmed { body = record confirmed.body { amount = 900 } },
      record fees {
        version = 2;
        body = record fees.body {
          amount_paid = 900;
          balance = 0;
          status = some "paid";
          paid_at = some 5;
        };
      },
    )
unfolding record_fee_payment confirm_student_fee_payment assert_same_account_or_developer
    is_developer normalize_role user_can_access_school_branch create update invoice_status
request_amount_wins = refl

abbrev withdraw : WithdrawalRequest
withdraw = record {
  school_id = some "school";
  branch_id = some "branch";
  amount = 150;
  has_destination = true;
  reference_number = none;
}

abbrev fresh_withdrawal : FreshWithdrawal
fresh_withdrawal = record {
  transaction_id = "transfer";
  withdrawal_id = "withdrawal";
  reference_number = "WD-1";
}

abbrev pending : Row Withdrawal
pending = record {
  cloud_id = "withdrawal";
  account_id = "account";
  local_id = none;
  school_id = some "school";
  branch_id = some "branch";
  is_deleted = false;
  version = 1;
  body = record { amount = 150; status = some "requested"; reference_number = "WD-1" };
}

abbrev left : Wallet
left = record {
  inflow = 400;
  withdrawn = 0;
  pending_withdrawals = 150;
  available = 250;
  transaction_count = 1;
  withdrawal_count = 1;
}

-- Paystack cannot be reached: the withdrawal is requested all the same.
withdrawal_requested :
    initiate_withdrawal (err error) user fresh_withdrawal withdraw paid_db
    ≡ (ok (pending, left), record paid_db { withdrawals = pending ∷ [] })
unfolding record_fee_payment initiate_withdrawal assert_same_account_or_developer is_developer
    normalize_role user_can_access_school_branch create
withdrawal_requested = refl

initiate_withdrawal_is_covered_example : 150 ≤ 400
initiate_withdrawal_is_covered_example =
    initiate_withdrawal_is_covered (err error) user fresh_withdrawal withdraw paid_db
      (record paid_db { withdrawals = pending ∷ [] }) pending left withdrawal_requested
