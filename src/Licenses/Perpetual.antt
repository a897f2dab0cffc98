-- ===== src/Licenses/Perpetual.antt =====
-- The rows of PerpetualLicense and of the tables around it, as the services of src/licenses read
-- and write them (license-validation.service.ts, license-upgrade.service.ts). Times are
-- milliseconds; columns that no decision reads are left out.
use eleeveon_schools_backend.Prelude.{ℕ, String, Bool, Option, List, ◌===◌, ◌&&◌, find}
use eleeveon_schools_backend.Number.{ℤ}
use eleeveon_schools_backend.Json.{Value}
use eleeveon_schools_backend.Billing.Orders.{Payment}
use eleeveon_schools_backend.Licenses.Activation.{Slot}

pub record Limits : Type 0 where
  pub schools : Option ℕ
  pub branches : Option ℕ
  pub users : Option ℕ
  pub students : Option ℕ
  pub teachers : Option ℕ
  pub devices : Option ℕ
  pub activations : Option ℕ

pub record PerpetualLicense : Type 0 where
  pub id : String
  pub account_id : String
  pub key_hash : String
  pub plan_id : String
  pub status : String
  pub entitled_version : String
  pub licensed_major_version : Option ℕ
  pub currency : String
  pub limits : Limits
  pub sync_policy : String
  pub update_policy : String
  pub requires_periodic_validation : Bool
  pub next_validation_at : Option ℕ
  pub validation_interval_days : Option ℤ
  pub offline_grace_days : Option ℤ
  pub last_validated_at : Option ℕ
  pub upgraded_at : Option ℕ

pub record Plan : Type 0 where
  pub id : String
  pub licensed_major_version : Option ℕ
  pub minimum_app_version : Option String
  pub maximum_app_version : Option String
  pub sync_policy : String
  pub update_policy : String

pub record VersionEntitlement : Type 0 where
  pub license_id : String
  pub version : String
  pub plan_id : String
  pub major_version : Option ℕ
  pub minimum_app_version : Option String
  pub maximum_app_version : Option String
  pub status : String

-- a row of LicenseUpgradeOffer; amounts are in the smallest unit of the currency
pub record Offer : Type 0 where
  pub id : String
  pub account_id : String
  pub license_id : String
  pub from_plan_id : String
  pub to_plan_id : String
  pub upgrade_type : String
  pub from_version : String
  pub to_version : Option String
  pub new_limits : Value
  pub currency : String
  pub base_amount : ℕ
  pub discount_amount : ℕ
  pub credit_amount : ℕ
  pub tax_amount : ℕ
  pub amount_due : ℕ
  pub status : String
  pub quote_expires_at : ℕ
  pub paid_at : Option ℕ
  pub applied_at : Option ℕ
  pub invoice_id : Option String
  pub payment_id : Option String
  pub requested_by : String
  pub applied_by : Option String

-- a row of LicenseValidationEvent; `verdict` is its `result`
pub record ValidationEvent : Type 0 where
  pub license_id : String
  pub device_id : String
  pub verdict : String

-- Entitlements are listed with the one granted last first.
pub record Tables : Type 0 where
  pub licenses : List PerpetualLicense
  pub plans : List Plan
  pub entitlements : List VersionEntitlement
  pub activations : List Slot
  pub devices : List Slot
  pub events : List ValidationEvent
  pub offers : List Offer
  pub payments : List Payment

abbrev pub find_license : String → Tables → Option PerpetualLicense
find_license id db = find (λ l. l.id === id) db.licenses

abbrev pub find_plan : String → Tables → Option Plan
find_plan id db = find (λ p. p.id === id) db.plans

-- `license.versionEntitlements[0]`
abbrev pub latest_entitlement : String → Tables → Option VersionEntitlement
latest_entitlement license db =
    find (λ e. e.license_id === license && e.status === "active") db.entitlements
