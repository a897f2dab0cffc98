-- ===== src/Licenses/Validation/Tests.antt =====
-- A licence that is validated in time, in its grace period, and after it.
use eleeveon_schools_backend.Licenses.Policy.{grace_ends_at, version_allowed}
use eleeveon_schools_backend.Prelude.{◌≡◌, ◌≤◌, ◌↔◌, refl, true, none, some, [], ◌∷◌, arith}
use eleeveon_schools_backend.Number.{pos}
use eleeveon_schools_backend.Result.{ok}
use eleeveon_schools_backend.Licenses.Activation.{Slot, active}
use eleeveon_schools_backend.Licenses.Perpetual.{PerpetualLicense, Plan, ValidationEvent, Tables}
use eleeveon_schools_backend.Licenses.Validation.{
  Check, is_accepted, verdict, validate, Answer, grace,
}
use eleeveon_schools_backend.Licenses.Validation.Verdicts.{
  IsUsable, accepted_iff, rank, verdict_antitone, unrenewed_validation,
}

abbrev license : PerpetualLicense
license = record {
  id = "license";
  account_id = "account";
  key_hash = "key";
  plan_id = "basic";
  status = "active";
  entitled_version = "1.0";
  licensed_major_version = some 1;
  currency = "GHS";
  limits = record {
    schools = none;
    branches = none;
    users = none;
    students = none;
    teachers = none;
    devices = none;
    activations = none;
  };
  sync_policy = "disabled";
  update_policy = "continuous";
  requires_periodic_validation = true;
  next_validation_at = some 1000;
  validation_interval_days = some (pos 30);
  offline_grace_days = some (pos 1);
  last_validated_at = none;
  upgraded_at = none;
}

abbrev plan : Plan
plan = record {
  id = "basic";
  licensed_major_version = some 1;
  minimum_app_version = none;
  maximum_app_version = none;
  sync_policy = "disabled";
  update_policy = "continuous";
}

abbrev slot : Slot
slot = record {
  account_id = "account";
  license_id = "license";
  device_id = "device";
  fingerprint_hash = some "machine";
  status = active;
  since = 0;
  last_seen = 0;
  token_hash = none;
  deactivated_at = none;
}

abbrev check : Check
check = record {
  license = license;
  plan = plan;
  entitlement = none;
  activation = some slot;
  device = some slot;
  fingerprint_hash = "machine";
  app_version = none;
}

abbrev db : Tables
db = record {
  licenses = license ∷ [];
  plans = plan ∷ [];
  entitlements = [];
  activations = slot ∷ [];
  devices = slot ∷ [];
  events = [];
  offers = [];
  payments = [];
}

abbrev in_grace : Answer
in_grace = record {
  accepted = true;
  verdict = grace;
  next_validation = some 1000;
  grace_ends = some 86401000;
}

abbrev event : ValidationEvent
event = record { license_id = "license"; device_id = "device"; verdict = "grace" }

validated_in_grace :
    validate 2000 "key" "device" "machine" none db
    ≡ ok (in_grace, record db { events = event ∷ [] })
unfolding validate version_allowed grace_ends_at
validated_in_grace = refl

accepted_iff_example : (is_accepted (verdict 2000 check) ≡ true) ↔ IsUsable 2000 check
accepted_iff_example = accepted_iff 2000 check

verdict_antitone_example : rank (verdict 90000000 check) ≤ rank (verdict 2000 check)
verdict_antitone_example = verdict_antitone 2000 90000000 check (omega arith)

unrenewed_validation_example :
    (e : ValidationEvent) × (record db { events = event ∷ [] }
      ≡ record db { events = e ∷ db.events })
unrenewed_validation_example =
    unrenewed_validation 2000 "key" "device" "machine" none db (record db { events = event ∷ [] })
      in_grace validated_in_grace refl
