-- ===== src/Commercial/Tests.antt =====
-- Concrete access statuses.
use eleeveon_schools_backend.Prelude.{◌≡◌, refl, true, false, some, includes}
use eleeveon_schools_backend.Text.{trim, to_lower_case}
use eleeveon_schools_backend.Commercial.{at, AccessInput, normalized, status_at}
use eleeveon_schools_backend.Commercial.Access.{may_mutate, known_statuses}

abbrev current : AccessInput
current = record { status = some "Active "; valid_until = at 100; grace_ends_at = at 200 }

changeable : may_mutate (status_at current 99) ≡ true
unfolding status_at trim to_lower_case
changeable = refl

abbrev unknown : AccessInput
unknown = record current { status = some "paused" }

is_unknown : includes (normalized (some "paused")) known_statuses ≡ false
unfolding normalized trim to_lower_case
is_unknown = refl
