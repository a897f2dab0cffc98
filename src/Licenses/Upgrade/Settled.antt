-- ===== src/Licenses/Upgrade/Settled.antt =====
-- No offer is paid or applied without its payment.
use eleeveon_schools_backend.Prelude.{
  ◌≡◌, refl, ℕ, String, Bool, true, false, not, ◌&&◌, ◌||◌, Option, none, some, get_or, List, [],
  ◌∷◌, ◌===◌, ◌==ℕ◌, ltb, any, find, All, arith, inl, inr, Bool-cases, if◌then◌else◌,
}
use eleeveon_schools_backend.Slices.{All-change_first}
use eleeveon_schools_backend.Result.{
  ok, bad_request, not_found, error, or_throw, guard-eq-ok, bind-eq-ok, or_throw-eq-ok,
  throw_if-eq-ok, ok_injective, throw_if-passed,
}
use eleeveon_schools_backend.Roles.Scope.{AuthUser, truthy, require_commercial_operator}
use eleeveon_schools_backend.Billing.Orders.{Payment}
use eleeveon_schools_backend.Licenses.Perpetual.{PerpetualLicense, Plan, Offer, Tables}
use eleeveon_schools_backend.Licenses.Upgrade.{
  OfferRequest, new_offer, amount_due_of, create_offer, has_id, find_offer, update_offer,
  mark_payment_pending, pays_for, check_paid, mark_paid, as_paid, change_license, cancel,
  grant_version, is_license_of,
}

-- `status` is one of those that a payment leads to
abbrev pub is_done : String → Bool
is_done status = status === "paid" || status === "applied"

-- a payment of the account of the offer, in its currency and of its amount
abbrev pub covers_offer : Offer → Payment → Bool
covers_offer o p =
    p.account_id === o.account_id
    && (p.status === "paid" && (p.currency === o.currency && p.amount ==ℕ o.amount_due))

abbrev pub is_settled : List Payment → Offer → Bool
is_settled payments o =
    not (is_done o.status) || (o.amount_due ==ℕ 0 || any (covers_offer o) payments)

abbrev pub IsSettled : Tables → Type 0
IsSettled db = All (λ o. is_settled db.payments o ≡ true) db.offers

pub update_offer-IsSettled :
    (id : String) (change : Offer → Offer) (db : Tables) (o : Offer)
    → IsSettled db
    → find_offer id db ≡ some o
    → is_settled db.payments (change o) ≡ true
    → IsSettled (update_offer id change db)
update_offer-IsSettled id change db o settled found after =
    All-change_first (has_id id) change (λ x. is_settled db.payments x ≡ true) db.offers o settled
      found after

new_offer-is_settled :
    (id : String) (now : ℕ) (actor : AuthUser) (dto : OfferRequest) (license : PerpetualLicense)
    (payments : List Payment)
    → is_settled payments (new_offer id now actor dto license) ≡ true
new_offer-is_settled id now actor dto license payments =
    elim (Bool-cases (amount_due_of dto ==ℕ 0)) [ inl e ↦ rw e refl | inr e ↦ rw e refl ]

pays-covers :
    (o : Offer) (id : String) (payments : List Payment)
    → any (pays_for o id) payments ≡ true
    → any (covers_offer o) payments ≡ true
pays-covers o id [] h = cc
pays-covers o id (p ∷ payments) h = elim (Bool-cases (pays_for o id p)) [
  | inl e ↦ let now : covers_offer o p ≡ true = ground arith in rw now refl
  | inr e ↦ let rest = pays-covers o id payments (rw e at h) in ground arith
]

not-not : (b : Bool) → not b ≡ false → b ≡ true
not-not true h = refl
not-not false h = cc

as_paid-is_settled :
    (now : ℕ) (payment : Option String) (db : Tables) (o : Offer)
    → (if ltb 0 o.amount_due then check_paid o payment db else ok tt) ≡ ok tt
    → is_settled db.payments (as_paid now payment o) ≡ true
unfolding check_paid
as_paid-is_settled now payment db o h = elim (Bool-cases (ltb 0 o.amount_due)) [
  | inl e ↦
      let checked : check_paid o payment db ≡ ok tt = rw e at h in
      let (_, h1) = throw_if-eq-ok (not (truthy payment)) bad_request _ checked in
      let there =
        throw_if-passed (not (any (pays_for o (get_or payment "")) db.payments)) bad_request h1 in
      let covered = pays-covers o (get_or payment "") db.payments (not-not _ there) in
      let owed : (o.amount_due ==ℕ 0) ≡ false = ground arith in rw owed (rw covered refl)
  | inr e ↦ let free : (o.amount_due ==ℕ 0) ≡ true = ground arith in rw free refl
]

pub marked-IsSettled :
    (now : ℕ) (id : String) (payment : Option String) (actor : AuthUser) (db end : Tables)
    → IsSettled db
    → mark_paid now id payment actor db ≡ ok end
    → IsSettled end
unfolding mark_paid
marked-IsSettled now id payment actor db end settled h =
    let (_, h1) = guard-eq-ok (require_commercial_operator actor) _ h in
    let (o, found, h2) = bind-eq-ok (or_throw (find_offer id db) not_found) _ h1 in
    let there = or_throw-eq-ok (find_offer id db) not_found o found in
    let (_, h3) = throw_if-eq-ok (o.status === "applied") bad_request _ h2 in
    let (checked, h4) =
      guard-eq-ok (if ltb 0 o.amount_due then check_paid o payment db else ok tt) _ h3 in
    rw (← ok_injective (update_offer id (as_paid now payment) db) end h4) (
      update_offer-IsSettled id (as_paid now payment) db o settled there
        (as_paid-is_settled now payment db o checked))

pub offered-IsSettled :
    (id : String) (now : ℕ) (actor : AuthUser) (dto : OfferRequest) (db end : Tables)
    → IsSettled db
    → create_offer id now actor dto db ≡ ok end
    → IsSettled end
unfolding create_offer
offered-IsSettled id now actor dto db end settled h =
    let (_, h1) = guard-eq-ok (require_commercial_operator actor) _ h in
    let (license, _, h2) =
      bind-eq-ok
        (or_throw (find (is_license_of dto.license_id dto.account_id) db.licenses) not_found) _
        h1 in
    rw
      (← ok_injective (record db { offers = new_offer id now actor dto license ∷ db.offers }) end
        h2)
      (new_offer-is_settled id now actor dto license db.payments, settled)

pub pending-IsSettled :
    (id invoice payment : String) (db end : Tables)
    → IsSettled db
    → mark_payment_pending id invoice payment db ≡ ok end
    → IsSettled end
unfolding mark_payment_pending
pending-IsSettled id invoice payment db end settled h =
    let (o, found, h1) = bind-eq-ok (or_throw (find_offer id db) error) _ h in
    let there = or_throw-eq-ok (find_offer id db) error o found in
    rw (← ok_injective _ end h1) (update_offer-IsSettled id _ db o settled there refl)

pub withdrawn-IsSettled :
    (id : String) (actor : AuthUser) (db end : Tables)
    → IsSettled db
    → cancel id actor db ≡ ok end
    → IsSettled end
unfolding cancel
withdrawn-IsSettled id actor db end settled h =
    let (_, h1) = guard-eq-ok (require_commercial_operator actor) _ h in
    let (o, found, h2) = bind-eq-ok (or_throw (find_offer id db) not_found) _ h1 in
    let there = or_throw-eq-ok (find_offer id db) not_found o found in
    let (_, h3) = throw_if-eq-ok (o.status === "paid" || o.status === "applied") bad_request _ h2 in
    rw (← ok_injective _ end h3) (update_offer-IsSettled id _ db o settled there refl)

weaken : (a b c d : Bool) → (a || (b || d)) ≡ true → (a || (b || (c || d))) ≡ true
weaken true b c d h = refl
weaken false true c d h = refl
weaken false false true d h = refl
weaken false false false d h = h

pub received-IsSettled :
    (payment : Payment) (payments : List Payment) (offers : List Offer)
    → All (λ o. is_settled payments o ≡ true) offers
    → All (λ o. is_settled (payment ∷ payments) o ≡ true) offers
received-IsSettled payment payments [] all = tt
received-IsSettled payment payments (o ∷ offers) (h, hs) = (
  weaken (not (is_done o.status)) (o.amount_due ==ℕ 0) (covers_offer o payment)
      (any (covers_offer o) payments) h,
  received-IsSettled payment payments offers hs,
)

update_license-offers :
    (now : ℕ) (offer : Offer) (plan : Plan) (version : Option String) (db : Tables)
    → ((grant_version offer plan version db).offers ≡ db.offers)
      × ((grant_version offer plan version db).payments ≡ db.payments)
update_license-offers now offer plan none db = (refl, refl)
update_license-offers now offer plan (some version) db = elim (Bool-cases (version === "")) [
  | inl e ↦ rw e (refl, refl)
  | inr e ↦ rw e (refl, refl)
]

-- the change of the licence leaves the offers and the payments alone
pub change_license-offers :
    (now : ℕ) (offer : Offer) (plan : Plan) (held : PerpetualLicense) (db : Tables)
    → ((change_license now offer plan held db).offers ≡ db.offers)
      × ((change_license now offer plan held db).payments ≡ db.payments)
unfolding change_license
change_license-offers now offer plan held db =
    elim (Bool-cases (offer.upgrade_type === "connected_migration")) [
      | inl e ↦ rw e (refl, refl)
      | inr e ↦ rw e (update_license-offers now offer plan offer.to_version _)
    ]
