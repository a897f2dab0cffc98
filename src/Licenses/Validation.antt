-- ===== src/Licenses/Validation.antt =====
-- src/licenses/license-validation.service.ts: whether a device may go on using a licence. The
-- hashes of the key and of the fingerprint are arguments; the messages and the signature of the
-- state that is sent back are left out.
pub mod Verdicts
mod Tests
use eleeveon_schools_backend.Prelude.{
  ℕ, String, Bool, true, false, not, ◌&&◌, ◌||◌, Option, none, some, coalesce, List, [], ◌∷◌, ◌===◌,
  ltb, leb, find, map, if◌then◌else◌,
}
use eleeveon_schools_backend.Result.{Result, ok, not_found, or_throw, ◌>>=◌}
use eleeveon_schools_backend.Licenses.Activation.{Slot, is_slot, was_active, other_fingerprint}
use eleeveon_schools_backend.Licenses.Policy.{
  VersionInput, version_allowed, grace_ends_at, next_validation_at,
}
use eleeveon_schools_backend.Licenses.Perpetual.{
  PerpetualLicense, Plan, VersionEntitlement, Tables, find_plan, latest_entitlement,
}

-- the results that `validate` gives, of LicenseValidationResult
pub data Verdict : Type 0 where
  valid grace validation_required version_blocked device_blocked : Verdict
  activation_blocked suspended revoked : Verdict

abbrev pub verdict_text : Verdict → String
verdict_text valid = "valid"
verdict_text grace = "grace"
verdict_text validation_required = "validation_required"
verdict_text version_blocked = "version_blocked"
verdict_text device_blocked = "device_blocked"
verdict_text activation_blocked = "activation_blocked"
verdict_text suspended = "suspended"
verdict_text revoked = "revoked"

abbrev pub is_accepted : Verdict → Bool
is_accepted valid = true
is_accepted grace = true
is_accepted _ = false

abbrev pub is_plainly_valid : Verdict → Bool
is_plainly_valid valid = true
is_plainly_valid _ = false

abbrev entitlement_minimum : Option VersionEntitlement → Option String
entitlement_minimum none = none
entitlement_minimum (some e) = e.minimum_app_version

abbrev entitlement_maximum : Option VersionEntitlement → Option String
entitlement_maximum none = none
entitlement_maximum (some e) = e.maximum_app_version

abbrev pub version_input :
    PerpetualLicense → Plan → Option VersionEntitlement → Option String → VersionInput
version_input license plan entitlement app_version = record {
  app_version = app_version;
  entitled_version = license.entitled_version;
  licensed_major_version = license.licensed_major_version;
  minimum_app_version = coalesce (entitlement_minimum entitlement) plan.minimum_app_version;
  maximum_app_version = coalesce (entitlement_maximum entitlement) plan.maximum_app_version;
  update_policy = license.update_policy;
}

-- `date && now > date`
abbrev pub is_after : ℕ → Option ℕ → Bool
is_after now none = false
is_after now (some date) = ltb date now

-- `date && now <= date`
abbrev pub is_within : ℕ → Option ℕ → Bool
is_within now none = false
is_within now (some date) = leb now date

abbrev pub is_overdue : ℕ → PerpetualLicense → Bool
is_overdue now license =
    license.requires_periodic_validation && is_after now license.next_validation_at

abbrev pub license_grace : PerpetualLicense → Option ℕ
license_grace license = grace_ends_at license.next_validation_at license.offline_grace_days

-- what a request brings, with what it finds
pub record Check : Type 0 where
  pub license : PerpetualLicense
  pub plan : Plan
  pub entitlement : Option VersionEntitlement
  pub activation : Option Slot
  pub device : Option Slot
  pub fingerprint_hash : String
  pub app_version : Option String

abbrev pub covers : Check → Bool
covers c = version_allowed (version_input c.license c.plan c.entitlement c.app_version)

abbrev pub time_verdict : ℕ → PerpetualLicense → Verdict
time_verdict now license =
    if is_overdue now license
    then (if is_within now (license_grace license) then grace else validation_required)
    else valid

unfoldable pub verdict : ℕ → Check → Verdict
verdict now c =
    if c.license.status === "suspended"
    then suspended
    else if c.license.status === "revoked"
    then revoked
    else if not (was_active c.activation)
    then activation_blocked
    else if not (was_active c.device)
    then device_blocked
    else if other_fingerprint c.activation c.fingerprint_hash
    then device_blocked
    else if not (covers c)
    then version_blocked
    else time_verdict now c.license

pub record Answer : Type 0 where
  pub accepted : Bool
  pub verdict : Verdict
  pub next_validation : Option ℕ
  pub grace_ends : Option ℕ

-- the date of the next validation, after this one
abbrev pub renewed_validation : ℕ → Verdict → PerpetualLicense → Option ℕ
renewed_validation now v license =
    if is_plainly_valid v && license.requires_periodic_validation
    then next_validation_at now license.validation_interval_days
    else license.next_validation_at

abbrev pub mark_validated : String → ℕ → Option ℕ → PerpetualLicense → PerpetualLicense
mark_validated id now next l =
    if l.id === id then record l { last_validated_at = some now; next_validation_at = next } else l

abbrev pub mark_seen : String → String → ℕ → Slot → Slot
mark_seen license device now s =
    if is_slot license device s then record s { last_seen = now } else s

-- the transaction of a validation that is plainly valid
abbrev pub store_validation : String → String → ℕ → Option ℕ → Tables → Tables
store_validation license device now next db = record db {
  licenses = map (mark_validated license now next) db.licenses;
  activations = map (mark_seen license device now) db.activations;
  devices = map (mark_seen license device now) db.devices;
}

abbrev pub store_event : String → String → Verdict → Tables → Tables
store_event license device v db = record db {
  events =
      record { license_id = license; device_id = device; verdict = verdict_text v } ∷ db.events;
}

abbrev pub answer_of : ℕ → Verdict → PerpetualLicense → Answer
answer_of now v license =
    let next = renewed_validation now v license in
    record {
      accepted = is_accepted v;
      verdict = v;
      next_validation = next;
      grace_ends = grace_ends_at next license.offline_grace_days;
    }

abbrev pub conclude : ℕ → String → Verdict → PerpetualLicense → Tables → Tables
conclude now device v license db = store_event license.id device v (
    if is_plainly_valid v
    then store_validation license.id device now (renewed_validation now v license) db
    else db)

abbrev pub check_of : PerpetualLicense → Plan → String → String → Option String → Tables → Check
check_of license plan device hash app_version db = record {
  license = license;
  plan = plan;
  entitlement = latest_entitlement license.id db;
  activation = find (is_slot license.id device) db.activations;
  device = find (is_slot license.id device) db.devices;
  fingerprint_hash = hash;
  app_version = app_version;
}

-- `validate`; the plan is that which the key's licence refers to
unfoldable pub validate :
    ℕ → String → String → String → Option String → Tables → Result (Answer × Tables)
unfolding verdict
validate now key_hash device hash app_version db = do
  license ← or_throw (find (λ l. l.key_hash === key_hash) db.licenses) not_found
  plan ← or_throw (find_plan license.plan_id db) not_found
  let v = verdict now (check_of license plan device hash app_version db)
  ok (answer_of now v license, conclude now device v license db)
