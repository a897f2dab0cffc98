-- ===== src/Entitlements/Tests.antt =====
-- A concrete entitlement.
use eleeveon_schools_backend.Prelude.{ℕ, ◌≡◌, ◌↔◌, refl, true, Option, none, some, arith}
use eleeveon_schools_backend.Text.{trim, to_lower_case}
use eleeveon_schools_backend.Json.{end, object, field, bool}
use eleeveon_schools_backend.Commercial.{at, absent, status_at}
use eleeveon_schools_backend.Commercial.Access.{may_mutate}
use eleeveon_schools_backend.Entitlements.{
  EntitlementResourceKey, students, EffectiveAccessSnapshot, normalize_features, can, remaining,
  has_capacity,
}
use eleeveon_schools_backend.Entitlements.Capacity.{IsLeft, has_capacity_iff}

abbrev snapshot : EffectiveAccessSnapshot
snapshot = record {
  access = record { status = some "active"; valid_until = at 100; grace_ends_at = absent };
  features = normalize_features (object (field "finance" (bool true) end));
  limits = λ resource. some 50;
}

abbrev usage : EntitlementResourceKey → Option ℕ
usage students = some 48
usage _ = none

finance : can snapshot usage 10 "finance" ≡ true
unfolding can normalize_features status_at trim to_lower_case
finance = refl

two_more : has_capacity snapshot usage 90 students 2 ≡ true
unfolding has_capacity status_at trim to_lower_case
two_more = refl

has_capacity_iff_example : (has_capacity snapshot usage 10 students 3 ≡ true) ↔ (
    (may_mutate (status_at snapshot.access 10) ≡ true)
    × IsLeft (remaining snapshot usage 10 students) 3)
has_capacity_iff_example = has_capacity_iff snapshot usage 10 students 3 (omega arith)
