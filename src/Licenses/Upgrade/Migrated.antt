-- ===== src/Licenses/Upgrade/Migrated.antt =====
-- A licence that was moved to a connected subscription, as src/licenses/license-validation.service.ts
-- sees it.
use eleeveon_schools_backend.Prelude.{ℕ, ◌≡◌, String, Option, some}
use eleeveon_schools_backend.Roles.Scope.{AuthUser}
use eleeveon_schools_backend.Licenses.Perpetual.{
  PerpetualLicense, Plan, Offer, Tables, find_license,
}
use eleeveon_schools_backend.Licenses.Upgrade.{migrated}
use eleeveon_schools_backend.Licenses.Validation.{check_of, verdict}

module _ (now later : ℕ) (id : String) (actor : AuthUser) (offer : Offer) (held : PerpetualLicense)
    (plan : Plan) (device hash : String) (app_version : Option String) where
  -- the licence is found, moved, and judged as it was
  IsMoved : Tables → Tables → Type 0
  IsMoved db after =
      (find_license offer.license_id after ≡ some (migrated now held))
      × (verdict later (check_of (migrated now held) plan device hash app_version after)
          ≡ verdict later (check_of held plan device hash app_version db))
