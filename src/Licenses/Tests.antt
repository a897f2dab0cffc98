-- ===== src/Licenses/Tests.antt =====
-- Concrete versions, and a licence for two devices.
use eleeveon_schools_backend.Prelude.{◌≡◌, refl, true, false, none, some, [], ◌∷◌, arith}
use eleeveon_schools_backend.Result.{ok}
use eleeveon_schools_backend.Text.{trim, before, parse_int}
use eleeveon_schools_backend.Roles.Scope.{AuthUser}
use eleeveon_schools_backend.Licenses.Version.{
  greater, compare_versions, is_greater, version_within_range,
}
use eleeveon_schools_backend.Licenses.Policy.{VersionInput, version_allowed}
use eleeveon_schools_backend.Licenses.Policy.Coverage.{for_version}
use eleeveon_schools_backend.Licenses.Activation.{
  active, License, Slot, Tables, activate, deactivate, fill_slots, event_deactivated, close,
}
use eleeveon_schools_backend.Licenses.Activation.Slots.{IsWithinLimits, activate-IsWithinLimits}

newer : compare_versions "v1.10.2-beta" "1.9" ≡ greater
unfolding compare_versions trim before parse_int
newer = refl

first : is_greater (compare_versions "1.9" "1.9.0") ≡ false
unfolding compare_versions trim before parse_int
first = refl

second : is_greater (compare_versions "1.9.0" "v1.10") ≡ false
unfolding compare_versions trim before parse_int
second = refl

low_within : version_within_range "1.9" (some "1") (some "2.0") ≡ true
unfolding version_within_range compare_versions trim before parse_int
low_within = refl

high_within : version_within_range "v1.10" (some "1") (some "2.0") ≡ true
unfolding version_within_range compare_versions trim before parse_int
high_within = refl

abbrev locked : VersionInput
locked = record {
  app_version = none;
  entitled_version = "2.0";
  licensed_major_version = none;
  minimum_app_version = some "1";
  maximum_app_version = none;
  update_policy = "version_locked";
}

low_covered : version_allowed (for_version locked "1.9") ≡ true
unfolding version_allowed version_within_range compare_versions trim before parse_int
low_covered = refl

high_covered : version_allowed (for_version locked "v1.10") ≡ true
unfolding version_allowed version_within_range compare_versions trim before parse_int
high_covered = refl

abbrev license : License
license = record {
  id = "license";
  account_id = "account";
  key_hash = "hash";
  status = "active";
  activation_limit = some 2;
  device_limit = some 2;
}

abbrev slot : Slot
slot = record {
  account_id = "account";
  license_id = "license";
  device_id = "laptop";
  fingerprint_hash = some "print";
  status = active;
  since = 10;
  last_seen = 10;
  token_hash = none;
  deactivated_at = none;
}

abbrev db : Tables
db = record { licenses = license ∷ []; activations = slot ∷ []; devices = slot ∷ []; events = [] }

abbrev after : Tables
after = fill_slots license "phone" "other print" "token" 20 db

activated : activate "hash" "phone" "other print" "token" 20 db ≡ ok after
unfolding activate
activated = refl

activate-IsWithinLimits_example : IsWithinLimits license after
activate-IsWithinLimits_example =
    activate-IsWithinLimits "hash" "phone" "other print" "token" 20 db after license activated refl
      (omega arith, omega arith)

abbrev actor : AuthUser
actor = record {
  id = "user";
  account_id = "account";
  role = "owner";
  active = none;
  memberships = [];
}

abbrev closed : Slot
closed = close "license" "laptop" (some 30) slot

abbrev freed : Tables
freed = record db {
  activations = closed ∷ [];
  devices = close "license" "laptop" none slot ∷ [];
  events = record { license_id = "license"; device_id = "laptop"; kind = event_deactivated } ∷ [];
}

was_freed : deactivate "license" "laptop" actor 30 db ≡ ok freed
unfolding deactivate
was_freed = refl
