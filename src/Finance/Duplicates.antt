-- ===== src/Finance/Duplicates.antt =====
-- A payment that is sent again.
use eleeveon_schools_backend.Prelude.{
  ◌≡◌, refl, ap, ◌∙◌, ℕ, String, Bool, true, false, ◌&&◌, ◌||◌, Option, none, some, List, ◌∷◌,
  ◌===◌, inl, inr, Bool-cases, eq_refl, eq_iff, or_default,
}
use eleeveon_schools_backend.Text.{trim}
use eleeveon_schools_backend.Result.{ok, err, bad_request}
use eleeveon_schools_backend.Roles.Scope.{AuthUser, first_truthy}
use eleeveon_schools_backend.RecordStore.{Row, new_row, has_cloud_id}
use eleeveon_schools_backend.Finance.{Invoice, FeePayment, Tables, id_of, sum}
use eleeveon_schools_backend.Finance.Invoices.{list_invoice_payments, fee_amount}
use eleeveon_schools_backend.Finance.Payments.{
  PaymentRequest, Fresh, cleaned, reference_of, repeats, check_prior, check_payment,
  payment_payload, record_fee_payment,
}
use eleeveon_schools_backend.Finance.Accepted.{IsAccepted, check_payment-IsAccepted}
use eleeveon_schools_backend.Finance.Recorded.{IsWritten, record_fee_payment-IsWritten, rebalanced}
use eleeveon_schools_backend.Finance.Balance.{find_invoice-rebalanced, counted_payments}

or_true : (b : Bool) → (b || true) ≡ true
or_true true = refl
or_true false = refl

-- the reference is that of one of the two columns
either_reference :
    (a b : Option String)
    → (cleaned a === cleaned (first_truthy a b) || cleaned b === cleaned (first_truthy a b)) ≡ true
either_reference none b = rw (eq_refl (cleaned b)) (or_true _)
either_reference (some s) b = elim (Bool-cases (s === "")) [
  | inl e ↦ rw e (rw (eq_refl (cleaned b)) (or_true _))
  | inr e ↦ rw e (rw (eq_refl (cleaned (some s))) refl)
]

receipt_kept :
    (receipt : Option String) (made : String)
    → (cleaned receipt === "") ≡ false
    → cleaned (some (or_default receipt made)) ≡ cleaned receipt
unfolding cleaned trim
receipt_kept none made h = cc
receipt_kept (some s) made h = elim (Bool-cases (s === "")) [
  | inl e ↦
      let empty : s ≡ "" = (eq_iff s "").0 e in
      let impossible : (cleaned (some "") === "") ≡ false = rw empty at h in cc
  | inr e ↦ rw e refl
]

new_payment-repeats :
    (user : AuthUser) (fresh : Fresh) (dto : PaymentRequest) (invoice : Row Invoice)
    → (reference_of dto === "" && cleaned dto.receipt_number === "") ≡ false
    → repeats
        (reference_of dto)
        (cleaned dto.receipt_number)
        (new_row user fresh.payment_id (payment_payload fresh dto invoice))
      ≡ true
new_payment-repeats user fresh dto invoice named = elim (Bool-cases (reference_of dto === "")) [
  | inl e ↦
      let receipt : (cleaned dto.receipt_number === "") ≡ false = rw e at named in
      rw e (
        rw (receipt_kept dto.receipt_number fresh.receipt_number receipt)
          (rw receipt (eq_refl (cleaned dto.receipt_number))))
  | inr e ↦ rw e (rw (either_reference dto.reference_number dto.provider_reference) refl)
]

rebalanced-id_of :
    (user : AuthUser) (now : ℕ) (invoice r : Row Invoice) (paid : ℕ)
    → id_of (rebalanced user now invoice paid r) ≡ id_of r
rebalanced-id_of user now invoice r paid = elim (Bool-cases (has_cloud_id user (id_of invoice) r)) [
  | inl e ↦ rw e refl
  | inr e ↦ rw e refl
]

check_prior-repeated :
    (dto : PaymentRequest) (invoice : Row Invoice) (entry : Row FeePayment)
    (prior : List (Row FeePayment))
    → (reference_of dto === "" && cleaned dto.receipt_number === "") ≡ false
    → repeats (reference_of dto) (cleaned dto.receipt_number) entry ≡ true
    → check_prior dto invoice (entry ∷ prior) ≡ err bad_request
unfolding check_prior
check_prior-repeated dto invoice entry prior named repeated = rw named (rw repeated refl)

check_payment-repeated :
    (user : AuthUser) (now : ℕ) (fresh : Fresh) (dto : PaymentRequest) (db end : Tables)
    (payment : Row FeePayment) (invoice : Row Invoice)
    → IsAccepted user dto db invoice
    → IsWritten user now fresh dto invoice db payment end
    → check_payment user dto end ≡ err bad_request
unfolding check_payment
check_payment-repeated user now fresh dto db end payment invoice accepted w =
    let there = rebalanced user now invoice (sum fee_amount w.counted) invoice in
    let found =
      find_invoice-rebalanced user now invoice (sum fee_amount w.counted) dto.invoice_id db end
        accepted.found (ap (λ d. d.invoices) w.ends) in
    let counted = counted_payments user now fresh dto db end payment invoice accepted w in
    let listed : list_invoice_payments user (id_of there) end ≡ ok (payment ∷ accepted.prior) =
      rw (rebalanced-id_of user now invoice invoice (sum fee_amount w.counted))
        (w.counting ∙ ap ok counted) in
    let again : repeats (reference_of dto) (cleaned dto.receipt_number) payment ≡ true =
      rw w.paid_by (new_payment-repeats user fresh dto invoice accepted.is_new.named) in
    rw found (
      rw accepted.positive (
        rw listed
          (check_prior-repeated dto there payment accepted.prior accepted.is_new.named again)))

-- A payment is recorded once: the same request after it was answered, at any later time, is
-- refused and writes nothing.
pub payment_is_recorded_once :
    (user : AuthUser) (now later : ℕ) (fresh again : Fresh) (dto : PaymentRequest) (db end : Tables)
    (payment : Row FeePayment)
    → record_fee_payment user now fresh dto db ≡ (ok payment, end)
    → record_fee_payment user later again dto end ≡ (err bad_request, end)
unfolding record_fee_payment
payment_is_recorded_once user now later fresh again dto db end payment h =
    let (invoice, checked, w) = record_fee_payment-IsWritten user now fresh dto db end payment h in
    let accepted = check_payment-IsAccepted user dto db invoice checked in
    let refused = check_payment-repeated user now fresh dto db end payment invoice accepted w in
    rw refused refl
