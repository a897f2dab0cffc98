-- ===== src/Finance/Wallet.antt =====
-- src/finance/finance.service.ts, `wallet` and `initiateWithdrawal`, with `initiateTransfer` of
-- src/payment-gateway/payment-gateway.service.ts. What Paystack answers to the recipient and to
-- the transfer is one argument, a `Result` that may have thrown.
use eleeveon_schools_backend.Prelude.{
  ℕ, ◌-◌, String, Bool, false, not, ◌&&◌, ◌||◌, Option, none, some, get_or, List, [], ◌∷◌, ◌===◌,
  ◌==ℕ◌, ltb, filter, includes, length, or_default,
}
use eleeveon_schools_backend.Text.{to_lower_case}
use eleeveon_schools_backend.Result.{Result, ok, err, bad_request, throw_if}
use eleeveon_schools_backend.Result
use eleeveon_schools_backend.Action.{Action, pure, query, ◌>>=◌}
use eleeveon_schools_backend.Roles.Scope.{AuthUser, truthy}
use eleeveon_schools_backend.RecordStore.{Row, Payload, list}
use eleeveon_schools_backend.Finance.{
  FeePayment, Transaction, Withdrawal, Tables, create_transaction_row, create_withdrawal_row, sum,
}
use eleeveon_schools_backend.Finance.Invoices.{fee_amount, transaction_amount}
use eleeveon_schools_backend.Finance.Gateway.{normalize_transfer_status, first_amount}

abbrev pub paid_statuses : List String
paid_statuses = "paid" ∷ "success" ∷ "succeeded" ∷ "settled" ∷ "approved" ∷ []

abbrev pub pending_statuses : List String
pending_statuses = "pending" ∷ "requested" ∷ "processing" ∷ "review" ∷ []

abbrev pub has_status_in : List String → Option String → Bool
has_status_in words status = includes (to_lower_case (get_or status "")) words

abbrev pub is_inflow : Row Transaction → Bool
is_inflow r =
    not r.is_deleted && (r.body.direction === "inflow" && has_status_in paid_statuses r.body.status)

abbrev pub is_fee_inflow : Row FeePayment → Bool
is_fee_inflow r =
    not r.is_deleted && includes (to_lower_case (or_default r.body.status "paid")) paid_statuses

abbrev pub is_withdrawn : Row Withdrawal → Bool
is_withdrawn r = not r.is_deleted && has_status_in paid_statuses r.body.status

abbrev pub is_pending_withdrawal : Row Withdrawal → Bool
is_pending_withdrawal r = not r.is_deleted && has_status_in pending_statuses r.body.status

abbrev pub withdrawal_amount : Withdrawal → ℕ
withdrawal_amount w = w.amount

pub record Wallet : Type 0 where
  pub inflow : ℕ
  pub withdrawn : ℕ
  pub pending_withdrawals : ℕ
  pub available : ℕ
  pub transaction_count : ℕ
  pub withdrawal_count : ℕ

abbrev pub wallet_of :
    List (Row Transaction) → List (Row Withdrawal) → List (Row FeePayment) → Wallet
wallet_of transactions withdrawals payments =
    let inflow =
      first_amount (sum transaction_amount (filter is_inflow transactions))
        (sum fee_amount (filter is_fee_inflow payments)) in
    let withdrawn = sum withdrawal_amount (filter is_withdrawn withdrawals) in
    let pending = sum withdrawal_amount (filter is_pending_withdrawal withdrawals) in
    record {
      inflow = inflow;
      withdrawn = withdrawn;
      pending_withdrawals = pending;
      available = inflow - withdrawn - pending;
      transaction_count = length transactions;
      withdrawal_count = length withdrawals;
    }

-- `wallet`, without the payout setting that it passes on
unfoldable pub wallet : AuthUser → Option String → Option String → Tables → Result Wallet
unfolding list
wallet user school branch db =
    Result.◌>>=◌ (list user false school branch db.transactions) (λ transactions.
      Result.◌>>=◌ (list user false school branch db.withdrawals) (λ withdrawals.
        Result.◌>>=◌ (list user false school branch db.payments)
          (λ payments. ok (wallet_of transactions withdrawals payments))))

pub record WithdrawalRequest : Type 0 where
  pub school_id : Option String
  pub branch_id : Option String
  pub amount : ℕ
  pub has_destination : Bool
  pub reference_number : Option String

-- the ids and the reference that are made for a withdrawal
pub record FreshWithdrawal : Type 0 where
  pub transaction_id : String
  pub withdrawal_id : String
  pub reference_number : String

abbrev pub withdrawal_reference : FreshWithdrawal → WithdrawalRequest → String
withdrawal_reference fresh dto = or_default dto.reference_number fresh.reference_number

abbrev pub transfer_status : Option String → String
transfer_status status = normalize_transfer_status (some (or_default status "processing"))

-- `transfer.data`: what Paystack answers to a transfer
pub record Transfer : Type 0 where
  pub status : Option String
  pub transfer_code : Option String

abbrev pub outflow_payload : FreshWithdrawal → WithdrawalRequest → Transfer → Payload Transaction
outflow_payload fresh dto transfer = record {
  school_id = dto.school_id;
  branch_id = dto.branch_id;
  is_deleted = some false;
  body = record {
    invoice_id = none;
    payment_id = none;
    direction = "outflow";
    amount = dto.amount;
    provider = "paystack";
    status = some (transfer_status transfer.status);
    provider_reference = some (or_default transfer.transfer_code (withdrawal_reference fresh dto));
  };
}

-- `initiateTransfer`: the status that the withdrawal takes over
unfoldable pub initiate_transfer :
    Result Transfer → AuthUser → FreshWithdrawal → WithdrawalRequest → Action Tables String
unfolding normalize_transfer_status
initiate_transfer paystack user fresh dto = do
  checked ← pure (throw_if (dto.amount ==ℕ 0) bad_request)
  transfer ← pure paystack
  transaction ←
      create_transaction_row user fresh.transaction_id (outflow_payload fresh dto transfer)
  pure (ok (transfer_status transfer.status))

-- the `catch` around the transfer, and `transferResult.status || "processing"`; what was written
-- stays
abbrev pub caught : Result String × Tables → Result String × Tables
caught (err e, db) = (ok "requested", db)
caught (ok status, db) = (ok (or_default (some status) "processing"), db)

abbrev pub attempt : Action Tables String → Action Tables String
attempt step db = caught (step db)

-- the checks, and the wallet that they read
unfoldable pub check_withdrawal : AuthUser → WithdrawalRequest → Tables → Result Wallet
unfolding wallet
check_withdrawal user dto db = Result.◌>>◌ (throw_if (dto.amount ==ℕ 0) bad_request) (
    Result.◌>>◌ (throw_if (not (truthy dto.school_id) || not (truthy dto.branch_id)) bad_request) (
      Result.◌>>◌ (throw_if (not dto.has_destination) bad_request) (
        Result.◌>>=◌ (wallet user dto.school_id dto.branch_id db)
          (λ held. Result.◌>>◌ (throw_if (ltb held.available dto.amount) bad_request) (ok held)))))

abbrev pub withdrawal_payload : FreshWithdrawal → WithdrawalRequest → String → Payload Withdrawal
withdrawal_payload fresh dto status = record {
  school_id = dto.school_id;
  branch_id = dto.branch_id;
  is_deleted = some false;
  body = record {
    amount = dto.amount;
    status = some status;
    reference_number = withdrawal_reference fresh dto;
  };
}

-- `initiateWithdrawal`: the row and the wallet as it becomes
unfoldable pub initiate_withdrawal :
    Result Transfer
    → AuthUser
    → FreshWithdrawal
    → WithdrawalRequest
    → Action Tables (Row Withdrawal × Wallet)
unfolding check_withdrawal initiate_transfer wallet
initiate_withdrawal paystack user fresh dto = do
  held ← query (check_withdrawal user dto)
  status ← attempt (initiate_transfer paystack user fresh dto)
  withdrawal ← create_withdrawal_row user fresh.withdrawal_id (withdrawal_payload fresh dto status)
  left ← query (wallet user dto.school_id dto.branch_id)
  pure (ok (withdrawal, left))
