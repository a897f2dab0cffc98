-- ===== src/Licenses/Policy.antt =====
-- src/licenses/license-policy.service.ts: the days of a licence and the versions that it covers.
-- Times are milliseconds; the days are whole.
pub mod Coverage
use eleeveon_schools_backend.Prelude.{
  ℕ, ◌+◌, ◌*◌, String, Bool, true, false, not, Option, none, some, ◌===◌, ◌!==◌, ◌==ℕ◌,
  if◌then◌else◌,
}
use eleeveon_schools_backend.Number.{ℤ, pos, negsuc, max_zero}
use eleeveon_schools_backend.Licenses.Version.{
  compare_versions, major_version, is_greater, version_within_range,
}

abbrev pub ms_per_day : ℕ
ms_per_day = 86400000

-- `offlineGraceDays ?? 0`, not below 0
abbrev grace_days : Option ℤ → ℕ
grace_days none = 0
grace_days (some days) = max_zero days

unfoldable pub grace_ends_at : Option ℕ → Option ℤ → Option ℕ
grace_ends_at none days = none
grace_ends_at (some next) days = some (next + grace_days days * ms_per_day)

-- An interval that is absent, 0 or below means that no validation is due.
unfoldable pub next_validation_at : ℕ → Option ℤ → Option ℕ
next_validation_at from_time none = none
next_validation_at from_time (some (negsuc n)) = none
next_validation_at from_time (some (pos n)) =
    if n ==ℕ 0 then none else some (from_time + n * ms_per_day)

pub record VersionInput : Type 0 where
  pub app_version : Option String
  pub entitled_version : String
  pub licensed_major_version : Option ℕ
  pub minimum_app_version : Option String
  pub maximum_app_version : Option String
  pub update_policy : String

abbrev is_licensed : Option ℕ → String → String → Bool
is_licensed (some major) entitled version = major_version version ==ℕ major
is_licensed none entitled version = not (is_greater (compare_versions version entitled))

abbrev pub covers_version : VersionInput → String → Bool
covers_version input version =
    if not (version_within_range version input.minimum_app_version input.maximum_app_version)
    then false
    else if input.update_policy !== "version_locked"
    then true
    else is_licensed input.licensed_major_version input.entitled_version version

abbrev pub allowed_as : VersionInput → Option String → Bool
allowed_as input none = true
allowed_as input (some version) = if version === "" then true else covers_version input version

unfoldable pub version_allowed : VersionInput → Bool
version_allowed input = allowed_as input input.app_version
