-- ===== src/Finance/Withdrawals.antt =====
-- No more is withdrawn than came in.
use eleeveon_schools_backend.Prelude.{
  ◌≡◌, ap, ◌∙◌, sym, ℕ, ◌+◌, ◌-◌, ◌≤◌, String, false, not, ◌||◌, ◌∷◌, ◌==ℕ◌, ltb, arith,
}
use eleeveon_schools_backend.Result.{
  Result, ok, bad_request, bind-eq-ok, throw_if-eq-ok, ok_injective,
}
use eleeveon_schools_backend.Action.{after-eq-ok, query}
use eleeveon_schools_backend.Roles.Scope.{AuthUser, truthy}
use eleeveon_schools_backend.RecordStore.{Row, Payload, new_row, create}
use eleeveon_schools_backend.RecordStore.Rows.{create-eq-ok}
use eleeveon_schools_backend.Finance.{Withdrawal, Tables, create_withdrawal_row}
use eleeveon_schools_backend.Finance.Recorded.{stored-eq-ok}
use eleeveon_schools_backend.Finance.Wallet.{
  Transfer, Wallet, wallet, WithdrawalRequest, FreshWithdrawal, check_withdrawal, initiate_transfer,
  attempt, withdrawal_payload, initiate_withdrawal,
}
use eleeveon_schools_backend.Finance.Transfers.{
  listed_wallet, IsKept, taken-filter, wallet-eq-ok, transfer-IsKept,
}

check_withdrawal-eq-ok :
    (user : AuthUser) (dto : WithdrawalRequest) (db : Tables) (held : Wallet)
    → check_withdrawal user dto db ≡ ok held
    → ((dto.amount ==ℕ 0) ≡ false)
      × ((held ≡ listed_wallet user dto.school_id dto.branch_id db)
          × (ltb held.available dto.amount ≡ false))
unfolding check_withdrawal
check_withdrawal-eq-ok user dto db held h =
    let (positive, h1) = throw_if-eq-ok (dto.amount ==ℕ 0) bad_request _ h in
    let (_, h2) =
      throw_if-eq-ok (not (truthy dto.school_id) || not (truthy dto.branch_id)) bad_request _ h1 in
    let (_, h3) = throw_if-eq-ok (not dto.has_destination) bad_request _ h2 in
    let (there, h4, h5) = bind-eq-ok (wallet user dto.school_id dto.branch_id db) _ h3 in
    let (covered, h6) = throw_if-eq-ok (ltb there.available dto.amount) bad_request (ok there) h5 in
    let same : there ≡ held = ok_injective _ _ h6 in
    let listed = wallet-eq-ok user dto.school_id dto.branch_id db there h4 in
    (positive, (sym same ∙ listed, rw same at covered))

create_withdrawal_row-eq-ok :
    (user : AuthUser) (id : String) (payload : Payload Withdrawal) (db end : Tables)
    (r : Row Withdrawal)
    → create_withdrawal_row user id payload db ≡ (ok r, end)
    → end ≡ record db { withdrawals = new_row user id payload ∷ db.withdrawals }
create_withdrawal_row-eq-ok user id payload db end r h =
    let (rows, made, e) = stored-eq-ok _ db end r (create user id payload db.withdrawals) h in
    let (_, (_, all)) = create-eq-ok user id payload db.withdrawals rows r made in
    sym e ∙ ap (λ x. record db { withdrawals = x }) all

fits_wallet :
    (amount inflow withdrawn pending : ℕ)
    → (amount ==ℕ 0) ≡ false
    → ltb (inflow - withdrawn - pending) amount ≡ false
    → amount + (withdrawn + pending) ≤ inflow
fits_wallet amount inflow withdrawn pending positive covered = ground arith

at_most : (a b c : ℕ) → a ≤ b → b ≤ c → a ≤ c
at_most a b c h k = omega arith

-- the wallet after the row of a withdrawal is added
wallet-withdrawn :
    (user : AuthUser) (fresh : FreshWithdrawal) (dto : WithdrawalRequest) (status : String)
    (db between end : Tables)
    → IsKept user dto.school_id dto.branch_id db between
    → end ≡ record between {
      withdrawals =
          new_row user fresh.withdrawal_id (withdrawal_payload fresh dto status)
          ∷ between.withdrawals;
    }
    → (dto.amount ==ℕ 0) ≡ false
    → ltb ((listed_wallet user dto.school_id dto.branch_id db).available) dto.amount ≡ false
    → (listed_wallet user dto.school_id dto.branch_id end).withdrawn
        + (listed_wallet user dto.school_id dto.branch_id end).pending_withdrawals
      ≤ (listed_wallet user dto.school_id dto.branch_id end).inflow
wallet-withdrawn user fresh dto status db between end kept e positive covered =
    let r = new_row user fresh.withdrawal_id (withdrawal_payload fresh dto status) in
    let added = taken-filter user dto.school_id dto.branch_id r db.withdrawals in
    let rows : end.withdrawals ≡ r ∷ db.withdrawals =
      ap (λ d. d.withdrawals) e ∙ ap (λ x. r ∷ x) kept.withdrawals in
    let inflow : (listed_wallet user dto.school_id dto.branch_id end).inflow
        ≡ (listed_wallet user dto.school_id dto.branch_id db).inflow =
      ap (λ d. (listed_wallet user dto.school_id dto.branch_id d).inflow) e ∙ kept.inflow in
    let fits =
      fits_wallet dto.amount ((listed_wallet user dto.school_id dto.branch_id db).inflow)
        ((listed_wallet user dto.school_id dto.branch_id db).withdrawn)
        ((listed_wallet user dto.school_id dto.branch_id db).pending_withdrawals) positive
        covered in
    rw inflow (rw rows (at_most _ _ _ added fits))

-- A withdrawal that is answered leaves the wallet of the school and branch covered: what is
-- withdrawn and what is pending, the new withdrawal with it, are together no more than the
-- inflow. It holds whatever Paystack answers to the transfer, a request that fails included.
pub initiate_withdrawal_is_covered :
    (paystack : Result Transfer) (user : AuthUser) (fresh : FreshWithdrawal)
    (dto : WithdrawalRequest) (db end : Tables) (withdrawal : Row Withdrawal) (left : Wallet)
    → initiate_withdrawal paystack user fresh dto db ≡ (ok (withdrawal, left), end)
    → left.withdrawn + left.pending_withdrawals ≤ left.inflow
unfolding initiate_withdrawal
initiate_withdrawal_is_covered paystack user fresh dto db end withdrawal left h =
    let (held, db1, h1, k1) = after-eq-ok (query (check_withdrawal user dto) db) _ h in
    let (status, db2, h2, k2) =
      after-eq-ok (attempt (initiate_transfer paystack user fresh dto) db1) _ k1 in
    let (made, db3, h3, k3) =
      after-eq-ok
        (create_withdrawal_row user fresh.withdrawal_id (withdrawal_payload fresh dto status) db2) _
        k2 in
    let (shown, db4, h4, k4) =
      after-eq-ok (query (wallet user dto.school_id dto.branch_id) db3) _ k3 in
    let (positive, (is_held, covered)) =
      check_withdrawal-eq-ok user dto db held (ap (λ p. p.0) h1) in
    let same : db ≡ db1 = ap (λ p. p.1) h1 in
    let between : (attempt (initiate_transfer paystack user fresh dto) db).1 ≡ db2 =
      ap (λ d. (attempt (initiate_transfer paystack user fresh dto) d).1) same ∙ ap (λ p. p.1) h2 in
    let kept : IsKept user dto.school_id dto.branch_id db db2 =
      rw (← between) (transfer-IsKept paystack user fresh dto db) in
    let written =
      create_withdrawal_row-eq-ok user fresh.withdrawal_id (withdrawal_payload fresh dto status) db2
        db3 made h3 in
    let fits =
      wallet-withdrawn user fresh dto status db db2 db3 kept written positive
        (rw is_held at covered) in
    let answer : shown ≡ left = ap (λ p. p.1) (ok_injective _ _ (ap (λ p. p.0) k4)) in
    let listed = wallet-eq-ok user dto.school_id dto.branch_id db3 shown (ap (λ p. p.0) h4) in
    rw (← answer) (rw listed fits)
