-- ===== src/Finance/Transfers.antt =====
-- What a withdrawal takes from a wallet, and what a transfer leaves as it is.
use eleeveon_schools_backend.Prelude.{
  ◌≡◌, refl, ap, ◌∙◌, sym, ℕ, ◌+◌, ◌≤◌, String, Bool, true, false, not, ◌&&◌, Option, get_or, List,
  ◌∷◌, ◌==ℕ◌, filter, includes, arith, inl, inr, Bool-cases,
}
use eleeveon_schools_backend.Slices.{includes-All}
use eleeveon_schools_backend.Text.{to_lower_case}
use eleeveon_schools_backend.Result.{Result, ok, err, bind-eq-ok, ok_injective}
use eleeveon_schools_backend.Action.{after, pure}
use eleeveon_schools_backend.Roles.Scope.{AuthUser}
use eleeveon_schools_backend.RecordStore.{Row, Payload, new_row, create, list, is_listed}
use eleeveon_schools_backend.RecordStore.Rows.{list-eq-ok, create-eq-ok}
use eleeveon_schools_backend.Finance.{
  Transaction, Withdrawal, Tables, create_transaction_row, sum, stored,
}
use eleeveon_schools_backend.Finance.Wallet.{
  Transfer, paid_statuses, pending_statuses, is_inflow, is_withdrawn, is_pending_withdrawal,
  withdrawal_amount, Wallet, wallet_of, wallet, WithdrawalRequest, FreshWithdrawal,
  initiate_transfer, outflow_payload, transfer_status, attempt, caught,
}

-- No status is both paid and pending.
paid-unpending :
    (status : String)
    → includes status paid_statuses ≡ true
    → includes status pending_statuses ≡ false
paid-unpending status paid =
    includes-All (λ word. includes word pending_statuses ≡ false) status paid_statuses
      (refl, (refl, (refl, (refl, (refl, tt))))) paid

and-true : (a b : Bool) → (a && b) ≡ true → b ≡ true
and-true true b h = h
and-true false b h = cc

and-false : (a b : Bool) → b ≡ false → (a && b) ≡ false
and-false true b h = h
and-false false b h = refl

-- the part of a wallet that has left it or is about to
abbrev pub taken : List (Row Withdrawal) → ℕ
taken rows =
    sum withdrawal_amount (filter is_withdrawn rows)
    + sum withdrawal_amount (filter is_pending_withdrawal rows)

taken-cons :
    (r : Row Withdrawal) (rows : List (Row Withdrawal))
    → taken (r ∷ rows) ≤ r.body.amount + taken rows
taken-cons r rows = elim (Bool-cases (is_withdrawn r)) [
  | inl e ↦
      let pending : is_pending_withdrawal r ≡ false = and-false (not r.is_deleted) _ (
        paid-unpending (to_lower_case (get_or r.body.status ""))
          (and-true (not r.is_deleted) _ e)) in
      rw e (rw pending (omega arith))
  | inr e ↦ elim (Bool-cases (is_pending_withdrawal r)) [
    | inl f ↦ rw e (rw f (omega arith))
    | inr f ↦ rw e (rw f (omega arith))
  ]
]

pub taken-filter :
    (user : AuthUser) (school branch : Option String) (r : Row Withdrawal)
    (rows : List (Row Withdrawal))
    → taken (filter (is_listed user false school branch) (r ∷ rows))
      ≤ r.body.amount + taken (filter (is_listed user false school branch) rows)
taken-filter user school branch r rows = elim (Bool-cases (is_listed user false school branch r)) [
  | inl e ↦ rw e (taken-cons r (filter (is_listed user false school branch) rows))
  | inr e ↦ rw e (omega arith)
]

module _ (user : AuthUser) (school branch : Option String) where
  abbrev pub listed_wallet : Tables → Wallet
  listed_wallet db =
      wallet_of (filter (is_listed user false school branch) db.transactions)
        (filter (is_listed user false school branch) db.withdrawals)
        (filter (is_listed user false school branch) db.payments)

  pub wallet-eq-ok :
      (db : Tables) (held : Wallet)
      → wallet user school branch db ≡ ok held
      → held ≡ listed_wallet db
  unfolding wallet
  wallet-eq-ok db held h =
      let (transactions, h1, k1) = bind-eq-ok (list user false school branch db.transactions) _ h in
      let (withdrawals, h2, k2) = bind-eq-ok (list user false school branch db.withdrawals) _ k1 in
      let (payments, h3, k3) = bind-eq-ok (list user false school branch db.payments) _ k2 in
      let e1 = list-eq-ok user false school branch db.transactions transactions h1 in
      let e2 = list-eq-ok user false school branch db.withdrawals withdrawals h2 in
      let e3 = list-eq-ok user false school branch db.payments payments h3 in
      sym (ok_injective _ _ k3)
      ∙ ap (λ x. wallet_of x withdrawals payments) e1
      ∙ ap (λ x. wallet_of (filter (is_listed user false school branch) db.transactions) x payments)
          e2
      ∙ ap
          (wallet_of (filter (is_listed user false school branch) db.transactions)
            (filter (is_listed user false school branch) db.withdrawals))
          e3

  -- the tables after a transfer was tried, which adds no inflow
  pub record IsKept (db end : Tables) : Type 0 where
    pub withdrawals : end.withdrawals ≡ db.withdrawals
    pub inflow : (listed_wallet end).inflow ≡ (listed_wallet db).inflow

  IsKept-same : (db end : Tables) → end ≡ db → IsKept db end
  IsKept-same db end e = rw e (record { withdrawals = refl; inflow = refl })

  outflow-IsKept :
      (db : Tables) (r : Row Transaction)
      → r.body.direction ≡ "outflow"
      → IsKept db (record db { transactions = r ∷ db.transactions })
  outflow-IsKept db r e =
      let no_inflow : is_inflow r ≡ false = and-false (not r.is_deleted) _ (rw e refl) in
      elim (Bool-cases (is_listed user false school branch r)) [
        | inl f ↦ record { withdrawals = refl; inflow = rw f (rw no_inflow refl) }
        | inr f ↦ record { withdrawals = refl; inflow = rw f refl }
      ]

created-IsKept :
    (user : AuthUser) (school branch : Option String) (db : Tables) (id : String)
    (payload : Payload Transaction) (made : Result (Row Transaction × List (Row Transaction)))
    → create user id payload db.transactions ≡ made
    → payload.body.direction ≡ "outflow"
    → IsKept user school branch db ((stored (λ rows. record db { transactions = rows }) db made).1)
created-IsKept user school branch db id payload (err e) made out =
    IsKept-same user school branch db db refl
created-IsKept user school branch db id payload (ok (r, rows)) made out =
    let (_, (_, all)) = create-eq-ok user id payload db.transactions rows r made in
    rw all (outflow-IsKept user school branch db (new_row user id payload) out)

-- `caught` and the last step of the transfer leave the tables alone
caught-tables :
    (db : Tables) (status : String) (step : Result (Row Transaction) × Tables)
    → (caught (after step (λ transaction. pure (ok status)))).1 ≡ step.1
caught-tables db status (err e, end) = refl
caught-tables db status (ok r, end) = refl

pub transfer-IsKept :
    (paystack : Result Transfer) (user : AuthUser) (fresh : FreshWithdrawal)
    (dto : WithdrawalRequest) (db : Tables)
    → IsKept user dto.school_id dto.branch_id db
        ((attempt (initiate_transfer paystack user fresh dto) db).1)
unfolding initiate_transfer
transfer-IsKept (err thrown) user fresh dto db = elim (Bool-cases (dto.amount ==ℕ 0)) [
  | inl e ↦ rw e (IsKept-same user dto.school_id dto.branch_id db db refl)
  | inr e ↦ rw e (IsKept-same user dto.school_id dto.branch_id db db refl)
]
transfer-IsKept (ok transfer) user fresh dto db = elim (Bool-cases (dto.amount ==ℕ 0)) [
  | inl e ↦ rw e (IsKept-same user dto.school_id dto.branch_id db db refl)
  | inr e ↦
      let payload = outflow_payload fresh dto transfer in
      let made = create user fresh.transaction_id payload db.transactions in
      rw e (
        rw
          (caught-tables db (transfer_status transfer.status)
            (create_transaction_row user fresh.transaction_id payload db))
          (created-IsKept user dto.school_id dto.branch_id db fresh.transaction_id payload made refl
            refl))
]
