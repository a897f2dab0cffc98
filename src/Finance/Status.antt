-- ===== src/Finance/Status.antt =====
-- The payments that are listed for an invoice all count as paid when the next one is checked.
use eleeveon_schools_backend.Prelude.{
  ◌≡◌, refl, ap, String, true, false, List, [], ◌∷◌, includes, inl, inr, arith, Bool-cases, filter,
  All,
}
use eleeveon_schools_backend.Text.{trim, to_lower_case, trim_start, trim_end, cons_unless_trailing}
use eleeveon_schools_backend.Text.Trimmed.{to_lower_case-trim}
use eleeveon_schools_backend.Slices.{includes-All, filter_none, All-filter_self}
use eleeveon_schools_backend.RecordStore.{Row}
use eleeveon_schools_backend.Finance.{FeePayment, is_paid_status, normalize_status, paid_words, sum}
use eleeveon_schools_backend.Finance.Invoices.{pays, counted_status, fee_amount}
use eleeveon_schools_backend.Finance.Payments.{is_standing, lost_words, already_paid}

abbrev IsUnpaid : String → Type 0
IsUnpaid word = includes (trim word) paid_words ≡ false

lost_words-IsUnpaid : All IsUnpaid lost_words
unfolding trim trim_start trim_end cons_unless_trailing
lost_words-IsUnpaid = (refl, (refl, (refl, (refl, tt))))

-- A status that is lost as it stands is not paid when it is trimmed.
lost-unpaid :
    (status : String)
    → includes (to_lower_case status) lost_words ≡ true
    → is_paid_status status ≡ false
unfolding is_paid_status normalize_status
lost-unpaid status lost =
    rw (to_lower_case-trim status)
      (includes-All IsUnpaid (to_lower_case status) lost_words lost_words-IsUnpaid lost)

paid-standing :
    (status : String)
    → is_paid_status status ≡ true
    → includes (to_lower_case status) lost_words ≡ false
paid-standing status paid = elim (Bool-cases (includes (to_lower_case status) lost_words)) [
  | inl e ↦ let unpaid = lost-unpaid status e in absurd (cc)
  | inr e ↦ e
]

pays-is_standing : (id : String) (r : Row FeePayment) → pays id r ≡ true → is_standing r ≡ true
pays-is_standing id r h =
    let paid : is_paid_status (counted_status r.body.status) ≡ true = ground arith in
    let standing = paid-standing (counted_status r.body.status) paid in rw standing (ground arith)

All-is_standing :
    (id : String) (rows : List (Row FeePayment))
    → All (λ r. pays id r ≡ true) rows
    → All (λ r. is_standing r ≡ true) rows
All-is_standing id [] all = tt
All-is_standing id (r ∷ rows) (p, ps) = (pays-is_standing id r p, All-is_standing id rows ps)

pub already_paid-filter :
    (id : String) (rows : List (Row FeePayment))
    → already_paid (filter (pays id) rows) ≡ sum fee_amount (filter (pays id) rows)
already_paid-filter id rows = ap (sum fee_amount) (
    filter_none is_standing (filter (pays id) rows)
      (All-is_standing id (filter (pays id) rows) (All-filter_self (pays id) rows)))
