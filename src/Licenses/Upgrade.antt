-- ===== src/Licenses/Upgrade.antt =====
-- src/licenses/license-upgrade.service.ts: offers that change a perpetual licence. `now` is the
-- time of the request. The rebuild of the entitlements that ends `apply` writes tables of its own
-- and is left out.
pub mod Settled
pub mod Applied
pub mod Migrated
mod Tests
use eleeveon_schools_backend.Prelude.{
  ℕ, ◌+◌, ◌-◌, ◌/◌, String, Bool, true, false, not, ◌&&◌, ◌||◌, Option, none, some, get_or,
  coalesce, List, [], ◌∷◌, ◌===◌, ◌!==◌, ◌==ℕ◌, ltb, any, find, map, change_first, if◌then◌else◌,
}
use eleeveon_schools_backend.Text.{trim, to_upper_case}
use eleeveon_schools_backend.Number.{ℤ, pos, negsuc}
use eleeveon_schools_backend.Result.{
  Result, ok, err, bad_request, not_found, error, or_throw, throw_if, ◌>>=◌, ◌>>◌,
}
use eleeveon_schools_backend.Json.{Value, object, number, finite, Fields, get}
use eleeveon_schools_backend.Roles.Scope.{AuthUser, truthy, require_commercial_operator}
use eleeveon_schools_backend.Billing.Orders.{Payment}
use eleeveon_schools_backend.Licenses.Perpetual.{
  Limits, PerpetualLicense, Plan, VersionEntitlement, Offer, Tables, find_license, find_plan,
}

pub record OfferRequest : Type 0 where
  pub account_id : String
  pub license_id : String
  pub from_plan_id : Option String
  pub to_plan_id : String
  pub upgrade_type : String
  pub from_version : Option String
  pub to_version : Option String
  pub new_limits : Value
  pub currency : Option String
  pub base_amount : ℕ
  pub discount_amount : Option ℕ
  pub credit_amount : Option ℕ
  pub tax_amount : Option ℕ
  pub quote_expires_at : ℕ

-- The tax is added first, so that the subtraction stops at 0 as `Math.max` does.
abbrev pub amount_due_of : OfferRequest → ℕ
amount_due_of dto =
    dto.base_amount
    + get_or dto.tax_amount 0
    - get_or dto.discount_amount 0
    - get_or dto.credit_amount 0

abbrev cleaned_currency : Option String → Option String
cleaned_currency none = none
cleaned_currency (some c) = some (to_upper_case (trim c))

abbrev pub new_offer : String → ℕ → AuthUser → OfferRequest → PerpetualLicense → Offer
new_offer id now actor dto license =
    let due = amount_due_of dto in
    record {
      id = id;
      account_id = dto.account_id;
      license_id = dto.license_id;
      from_plan_id = get_or dto.from_plan_id license.plan_id;
      to_plan_id = dto.to_plan_id;
      upgrade_type = dto.upgrade_type;
      from_version = get_or dto.from_version license.entitled_version;
      to_version = dto.to_version;
      new_limits = dto.new_limits;
      currency = get_or (cleaned_currency dto.currency) license.currency;
      base_amount = dto.base_amount;
      discount_amount = get_or dto.discount_amount 0;
      credit_amount = get_or dto.credit_amount 0;
      tax_amount = get_or dto.tax_amount 0;
      amount_due = due;
      status = if due ==ℕ 0 then "paid" else "quoted";
      quote_expires_at = dto.quote_expires_at;
      paid_at = if due ==ℕ 0 then some now else none;
      applied_at = none;
      invoice_id = none;
      payment_id = none;
      requested_by = actor.id;
      applied_by = none;
    }

abbrev pub is_license_of : String → String → PerpetualLicense → Bool
is_license_of id account l = l.id === id && l.account_id === account

-- `createOffer`; `id` is the new id
unfoldable pub create_offer : String → ℕ → AuthUser → OfferRequest → Tables → Result Tables
create_offer id now actor dto db = do
  require_commercial_operator actor
  license ← or_throw (find (is_license_of dto.license_id dto.account_id) db.licenses) not_found
  ok (record db { offers = new_offer id now actor dto license ∷ db.offers })

abbrev pub has_id : String → Offer → Bool
has_id id o = o.id === id

abbrev pub update_offer : String → (Offer → Offer) → Tables → Tables
update_offer id change db = record db { offers = change_first (has_id id) change db.offers }

abbrev pub find_offer : String → Tables → Option Offer
find_offer id db = find (has_id id) db.offers

-- `markPaymentPending`; an update of no row throws
unfoldable pub mark_payment_pending : String → String → String → Tables → Result Tables
mark_payment_pending id invoice payment db = do
  offer ← or_throw (find_offer id db) error
  ok (
      update_offer id
        (λ o. record o {
          status = "payment_pending";
          invoice_id = some invoice;
          payment_id = some payment;
        })
        db)

-- the `where` of the payment
abbrev pub pays_for : Offer → String → Payment → Bool
pays_for offer id p =
    (p.id === id && p.account_id === offer.account_id)
    && (p.status === "paid" && (p.currency === offer.currency && p.amount ==ℕ offer.amount_due))

-- the checks of an offer that has something to pay
unfoldable pub check_paid : Offer → Option String → Tables → Result (Unit {0})
check_paid offer payment db = do
  throw_if (not (truthy payment)) bad_request
  throw_if (not (any (pays_for offer (get_or payment "")) db.payments)) bad_request

abbrev pub as_paid : ℕ → Option String → Offer → Offer
as_paid now payment o = record o {
  status = "paid";
  paid_at = some now;
  payment_id = coalesce payment o.payment_id;
}

-- `markPaid`; an undefined `paymentId` leaves the column as it is
unfoldable pub mark_paid : ℕ → String → Option String → AuthUser → Tables → Result Tables
unfolding check_paid
mark_paid now id payment actor db = do
  require_commercial_operator actor
  offer ← or_throw (find_offer id db) not_found
  throw_if (offer.status === "applied") bad_request
  if ltb 0 offer.amount_due then check_paid offer payment db else ok tt
  ok (update_offer id (as_paid now payment) db)

-- one entry of `numberMap`: `Math.max(0, Math.floor(item))` of a finite number
abbrev number_entry : Value → Option ℕ
number_entry (number (finite (pos n))) = some (n / 1000)
number_entry (number (finite (negsuc n))) = some 0
number_entry _ = none

abbrev number_field : Value → String → Option ℕ
number_field (object fields) key = number_entry (get fields key)
number_field _ key = none

-- the limits with those of `numberMap(offer.newLimits)` in front
unfoldable pub raised_limits : Value → Limits → Limits
unfolding get
raised_limits new held = record {
  schools = coalesce (number_field new "schools") held.schools;
  branches = coalesce (number_field new "branches") held.branches;
  users = coalesce (number_field new "users") held.users;
  students = coalesce (number_field new "students") held.students;
  teachers = coalesce (number_field new "teachers") held.teachers;
  devices = coalesce (number_field new "devices") held.devices;
  activations = coalesce (number_field new "activations") held.activations;
}

abbrev pub migrated : ℕ → PerpetualLicense → PerpetualLicense
migrated now l = record l { status = "upgraded"; upgraded_at = some now }

-- `held` is the licence as it was read
abbrev pub upgraded : ℕ → Offer → Plan → PerpetualLicense → PerpetualLicense → PerpetualLicense
upgraded now offer plan held l = record l {
  plan_id = offer.to_plan_id;
  entitled_version = get_or offer.to_version held.entitled_version;
  licensed_major_version = plan.licensed_major_version;
  limits = raised_limits offer.new_limits held.limits;
  sync_policy = if plan.sync_policy === "disabled" then "disabled" else "platform_only";
  update_policy = plan.update_policy;
  upgraded_at = some now;
}

abbrev pub update_license : String → (PerpetualLicense → PerpetualLicense) → Tables → Tables
update_license id change db = record db {
  licenses = map (λ l. if l.id === id then change l else l) db.licenses;
}

-- the unique key `licenseId_version`
abbrev pub is_entitlement : String → String → VersionEntitlement → Bool
is_entitlement license version e = e.license_id === license && e.version === version

abbrev pub granted : Offer → Plan → String → VersionEntitlement
granted offer plan version = record {
  license_id = offer.license_id;
  version = version;
  plan_id = offer.to_plan_id;
  major_version = plan.licensed_major_version;
  minimum_app_version = plan.minimum_app_version;
  maximum_app_version = plan.maximum_app_version;
  status = "active";
}

-- `licenseVersionEntitlement.upsert`, which keeps the time of a row that is there
abbrev pub upsert_entitlement : Offer → Plan → String → Tables → Tables
upsert_entitlement offer plan version db =
    let key = is_entitlement offer.license_id version in
    record db {
      entitlements =
          if any key db.entitlements
          then map (λ e. if key e then granted offer plan version else e) db.entitlements
          else granted offer plan version ∷ db.entitlements;
    }

-- `if (offer.toVersion)`
abbrev pub grant_version : Offer → Plan → Option String → Tables → Tables
grant_version offer plan none db = db
grant_version offer plan (some version) db =
    if version === "" then db else upsert_entitlement offer plan version db

abbrev pub as_applied : ℕ → String → Offer → Offer
as_applied now by o = record o { status = "applied"; applied_at = some now; applied_by = some by }

-- what the transaction writes
unfoldable pub change_license : ℕ → Offer → Plan → PerpetualLicense → Tables → Tables
unfolding raised_limits
change_license now offer plan held db =
    if offer.upgrade_type === "connected_migration"
    then update_license offer.license_id (migrated now) db
    else grant_version offer plan offer.to_version
        (update_license offer.license_id (upgraded now offer plan held) db)

unfoldable pub check_apply : ℕ → Offer → Result (Unit {0})
check_apply now offer = do
  throw_if (offer.status !== "paid" && ltb 0 offer.amount_due) bad_request
  throw_if (ltb offer.quote_expires_at now && offer.status !== "paid") bad_request

-- an offer that is not applied; its licence and its plan are there by foreign keys
unfoldable pub apply_offer : ℕ → AuthUser → Offer → Tables → Result Tables
unfolding check_apply change_license
apply_offer now actor offer db = do
  check_apply now offer
  held ← or_throw (find_license offer.license_id db) error
  plan ← or_throw (find_plan offer.to_plan_id db) error
  ok (update_offer offer.id (as_applied now actor.id) (change_license now offer plan held db))

-- `apply`
unfoldable pub apply : ℕ → String → AuthUser → Tables → Result Tables
unfolding apply_offer
apply now id actor db = do
  require_commercial_operator actor
  offer ← or_throw (find_offer id db) not_found
  if offer.status === "applied" then ok db else apply_offer now actor offer db

-- `cancel`
unfoldable pub cancel : String → AuthUser → Tables → Result Tables
cancel id actor db = do
  require_commercial_operator actor
  offer ← or_throw (find_offer id db) not_found
  throw_if (offer.status === "paid" || offer.status === "applied") bad_request
  ok (update_offer id (λ o. record o { status = "cancelled" }) db)
