-- ===== src/Licenses/Activation.antt =====
-- src/licenses/license-activation.service.ts: the devices that a licence is active on. The
-- service's crypto gives the hash of a key and of a fingerprint, and a token with its hash; they
-- are arguments. The signed state that is sent back is left out.
pub mod Slots
use eleeveon_schools_backend.Prelude.{
  ℕ, zero, suc, ◌+◌, String, Bool, true, false, not, ◌&&◌, ◌||◌, Option, none, some, List, [], ◌∷◌,
  ◌===◌, ◌!==◌, leb, find, map, if◌then◌else◌,
}
use eleeveon_schools_backend.Result.{
  or_throw, or_throw-eq-ok, Result, ok, err, bad_request, forbidden, not_found, conflict, ◌>>=◌,
  ◌>>◌, throw_if,
}
use eleeveon_schools_backend.Roles.Scope.{AuthUser, require_commercial_operator}

pub data SlotStatus : Type 0 where
  active deactivated revoked : SlotStatus

-- a row of LicenseActivation or of LicenseDevice, which this service reads and writes alike;
-- `token_hash` and `deactivated_at` are of the first only, and the columns that are no part of a
-- decision are left out
pub record Slot : Type 0 where
  pub account_id : String
  pub license_id : String
  pub device_id : String
  pub fingerprint_hash : Option String
  pub status : SlotStatus
  pub since : ℕ
  pub last_seen : ℕ
  pub token_hash : Option String
  pub deactivated_at : Option ℕ

pub record License : Type 0 where
  pub id : String
  pub account_id : String
  pub key_hash : String
  pub status : String
  pub activation_limit : Option ℕ
  pub device_limit : Option ℕ

pub data EventKind : Type 0 where
  event_activated event_reactivated event_deactivated : EventKind

-- a row of LicenseValidationEvent
pub record Event : Type 0 where
  pub license_id : String
  pub device_id : String
  pub kind : EventKind

pub record Tables : Type 0 where
  pub licenses : List License
  pub activations : List Slot
  pub devices : List Slot
  pub events : List Event

abbrev pub is_active : SlotStatus → Bool
is_active active = true
is_active _ = false

abbrev pub is_revoked : SlotStatus → Bool
is_revoked revoked = true
is_revoked _ = false

-- the unique key `licenseId_deviceId`
abbrev pub is_slot : String → String → Slot → Bool
is_slot license device s = s.license_id === license && s.device_id === device

-- `count({ where: { licenseId, status: "active" } })`
abbrev pub active_count : String → List Slot → ℕ
active_count license [] = 0
active_count license (s ∷ rows) =
    (if s.license_id === license && is_active s.status then 1 else 0) + active_count license rows

-- `existing?.status === "revoked"`
abbrev pub was_revoked : Option Slot → Bool
was_revoked none = false
was_revoked (some s) = is_revoked s.status

abbrev pub was_active : Option Slot → Bool
was_active none = false
was_active (some s) = is_active s.status

-- `existing?.machineFingerprintHash && existing.machineFingerprintHash !== fingerprintHash`
abbrev other_hash : Option String → String → Bool
other_hash none hash = false
other_hash (some h) hash = not (h === "") && h !== hash

abbrev pub other_fingerprint : Option Slot → String → Bool
other_fingerprint none hash = false
other_fingerprint (some s) hash = other_hash s.fingerprint_hash hash

-- `limit != null && count >= limit`
abbrev pub is_reached : Option ℕ → ℕ → Bool
is_reached none count = false
is_reached (some limit) count = leb limit count

-- `upsert` by the unique key
unfoldable pub upsert_slot : String → String → (Slot → Slot) → Slot → List Slot → List Slot
upsert_slot license device change fresh [] = fresh ∷ []
upsert_slot license device change fresh (s ∷ rows) =
    let rest = upsert_slot license device change fresh rows in
    if is_slot license device s then change s ∷ rows else s ∷ rest

abbrev pub find_license : String → Tables → Option License
find_license id db = find (λ l. l.id === id) db.licenses

-- `findByRawKey`
abbrev pub find_by_key_hash : String → Tables → Result License
find_by_key_hash hash db = or_throw (find (λ l. l.key_hash === hash) db.licenses) not_found

-- `token` is the hash of the new token for an activation, and missing for a device.
module _ (license : License) (device hash : String) (token : Option String) (now : ℕ) where
  abbrev pub reactivate : Slot → Slot
  reactivate s = record s {
    fingerprint_hash = some hash;
    status = active;
    last_seen = now;
    token_hash = token;
    deactivated_at = none;
  }

  abbrev pub new_slot : Slot
  new_slot = record {
    account_id = license.account_id;
    license_id = license.id;
    device_id = device;
    fingerprint_hash = some hash;
    status = active;
    since = now;
    last_seen = now;
    token_hash = token;
    deactivated_at = none;
  }

module _ (license : License) (device hash token_hash : String) (now : ℕ) where
  -- The checks of the transaction past those of the licence, in their order
  unfoldable pub check_slots : Tables → Result (Unit {0})
  check_slots db = do
    let activation = find (is_slot license.id device) db.activations
    let registered = find (is_slot license.id device) db.devices
    throw_if (was_revoked activation || was_revoked registered) forbidden
    throw_if (other_fingerprint activation hash || other_fingerprint registered hash) conflict
    throw_if
        (not (was_active activation)
          && is_reached license.activation_limit (active_count license.id db.activations))
        conflict
    throw_if
        (not (was_active registered)
          && is_reached license.device_limit (active_count license.id db.devices))
        conflict

  abbrev event_kind : Option Slot → EventKind
  event_kind none = event_activated
  event_kind (some _) = event_reactivated

  abbrev pub fill_slots : Tables → Tables
  fill_slots db = record db {
    activations =
        upsert_slot license.id device (reactivate license device hash (some token_hash) now)
          (new_slot license device hash (some token_hash) now) db.activations;
    devices =
        upsert_slot license.id device (reactivate license device hash none now)
          (new_slot license device hash none now) db.devices;
    events =
        record {
          license_id = license.id;
          device_id = device;
          kind = event_kind (find (is_slot license.id device) db.activations);
        }
        ∷ db.events;
  }

-- `activate`: the licence of the key is read again under its lock.
unfoldable pub activate : String → String → String → String → ℕ → Tables → Result Tables
unfolding check_slots upsert_slot
activate key_hash device hash token_hash now db = do
  key_record ← find_by_key_hash key_hash db
  license ← or_throw (find_license key_record.id db) not_found
  throw_if (license.status !== "active") bad_request
  check_slots license device hash token_hash now db
  ok (fill_slots license device hash token_hash now db)

abbrev pub is_deactivated : SlotStatus → Bool
is_deactivated deactivated = true
is_deactivated _ = false

-- `time` is the time of an activation's deactivation, and missing for a device.
abbrev pub close : String → String → Option ℕ → Slot → Slot
close license device time s =
    if is_slot license device s && not (is_deactivated s.status)
    then record s { status = deactivated; deactivated_at = time }
    else s

abbrev may_deactivate : Slot → AuthUser → Result (Unit {0})
may_deactivate s actor =
    if s.account_id === actor.account_id then ok tt else require_commercial_operator actor

unfoldable pub deactivate : String → String → AuthUser → ℕ → Tables → Result Tables
deactivate license device actor now db = do
  activation ← or_throw (find (is_slot license device) db.activations) not_found
  may_deactivate activation actor
  ok (record db {
    activations = map (close license device (some now)) db.activations;
    devices = map (close license device none) db.devices;
    events =
        record { license_id = license; device_id = device; kind = event_deactivated } ∷ db.events;
  })
