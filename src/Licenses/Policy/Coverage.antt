-- ===== src/Licenses/Policy/Coverage.antt =====
-- What a licence that is locked to a version covers.
use eleeveon_schools_backend.Prelude.{
  ◌≡◌, refl, String, true, false, none, some, ◌===◌, arith, Bool-cases, inl, inr,
}
use eleeveon_schools_backend.Licenses.Version.{compare_versions, is_greater}
use eleeveon_schools_backend.Licenses.Version.Order.{compare_versions_trans, range_is_convex}
use eleeveon_schools_backend.Licenses.Policy.{VersionInput, covers_version, version_allowed}

abbrev pub for_version : VersionInput → String → VersionInput
for_version input version = record input { app_version = some version }

-- A licence without a licensed major version that covers two versions covers every version between
-- them, whatever its update policy and range, the versions being given.
pub coverage_is_convex :
    (input : VersionInput) (low version high : String)
    → input.licensed_major_version ≡ none
    → (low === "") ≡ false
    → (high === "") ≡ false
    → version_allowed (for_version input low) ≡ true
    → version_allowed (for_version input high) ≡ true
    → is_greater (compare_versions low version) ≡ false
    → is_greater (compare_versions version high) ≡ false
    → version_allowed (for_version input version) ≡ true
unfolding version_allowed
coverage_is_convex input low version high free l_given h_given l h above below =
    elim (Bool-cases (version === "")) [
      | inl empty ↦ rw empty refl
      | inr given ↦ rw given (covered (rw l_given at l) (rw h_given at h))
    ]
  where
    covered :
        covers_version input low ≡ true
        → covers_version input high ≡ true
        → covers_version input version ≡ true
    covered l h = ground (
      arith,
      free,
      range_is_convex low version high input.minimum_app_version input.maximum_app_version,
      compare_versions_trans version high input.entitled_version,
    )
