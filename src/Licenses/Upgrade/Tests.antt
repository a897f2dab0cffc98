-- ===== src/Licenses/Upgrade/Tests.antt =====
-- A licence, an offer for a new version, and its payment.
use eleeveon_schools_backend.Roles.{is_developer, normalize_role}
use eleeveon_schools_backend.Prelude.{◌≡◌, refl, true, false, none, some, [], ◌∷◌}
use eleeveon_schools_backend.Number.{pos}
use eleeveon_schools_backend.Json.{object, end, field, number, finite}
use eleeveon_schools_backend.Result.{ok}
use eleeveon_schools_backend.Roles.Scope.{AuthUser, require_commercial_operator}
use eleeveon_schools_backend.Billing.Orders.{Payment}
use eleeveon_schools_backend.Licenses.Perpetual.{Limits, PerpetualLicense, Plan, Offer, Tables}
use eleeveon_schools_backend.Licenses.Upgrade.{mark_paid, apply}
use eleeveon_schools_backend.Licenses.Upgrade.Applied.{apply_twice}

abbrev operator : AuthUser
operator = record {
  id = "operator";
  account_id = "vendor";
  role = "developer";
  active = some true;
  memberships =
      record {
        account_id = "vendor";
        role = "developer";
        school_id = none;
        branch_id = none;
        active = some true;
      }
      ∷ [];
}

abbrev limits : Limits
limits = record {
  schools = some 1;
  branches = some 1;
  users = none;
  students = some 200;
  teachers = none;
  devices = some 2;
  activations = some 2;
}

abbrev license : PerpetualLicense
license = record {
  id = "license";
  account_id = "account";
  key_hash = "key";
  plan_id = "basic";
  status = "active";
  entitled_version = "1.0";
  licensed_major_version = some 1;
  currency = "GHS";
  limits = limits;
  sync_policy = "disabled";
  update_policy = "version_locked";
  requires_periodic_validation = false;
  next_validation_at = none;
  validation_interval_days = none;
  offline_grace_days = none;
  last_validated_at = none;
  upgraded_at = none;
}

abbrev plan : Plan
plan = record {
  id = "pro";
  licensed_major_version = some 2;
  minimum_app_version = some "2.0";
  maximum_app_version = none;
  sync_policy = "disabled";
  update_policy = "version_locked";
}

abbrev offer : Offer
offer = record {
  id = "offer";
  account_id = "account";
  license_id = "license";
  from_plan_id = "basic";
  to_plan_id = "pro";
  upgrade_type = "version";
  from_version = "1.0";
  to_version = some "2.0";
  new_limits = object (field "students" (number (finite (pos 500000))) end);
  currency = "GHS";
  base_amount = 900;
  discount_amount = 0;
  credit_amount = 0;
  tax_amount = 0;
  amount_due = 900;
  status = "quoted";
  quote_expires_at = 100;
  paid_at = none;
  applied_at = none;
  invoice_id = none;
  payment_id = none;
  requested_by = "operator";
  applied_by = none;
}

abbrev payment : Payment
payment = record {
  id = "payment";
  account_id = "account";
  invoice_id = none;
  status = "paid";
  amount = 900;
  currency = "GHS";
  provider = "paystack";
  provider_reference = none;
  metadata = object end;
}

abbrev db : Tables
db = record {
  licenses = license ∷ [];
  plans = plan ∷ [];
  entitlements = [];
  activations = [];
  devices = [];
  events = [];
  offers = offer ∷ [];
  payments = payment ∷ [];
}

abbrev paid_offer : Offer
paid_offer = record offer { status = "paid"; paid_at = some 50; payment_id = some "payment" }

abbrev paid_db : Tables
paid_db = record db { offers = paid_offer ∷ [] }

abbrev applied_db : Tables
applied_db = record db {
  licenses =
      record license {
        plan_id = "pro";
        entitled_version = "2.0";
        licensed_major_version = some 2;
        limits = record limits { students = some 500 };
        upgraded_at = some 200;
      }
      ∷ [];
  entitlements =
      record {
        license_id = "license";
        version = "2.0";
        plan_id = "pro";
        major_version = some 2;
        minimum_app_version = some "2.0";
        maximum_app_version = none;
        status = "active";
      }
      ∷ [];
  offers =
      record paid_offer { status = "applied"; applied_at = some 200; applied_by = some "operator" }
      ∷ [];
}

offer_applied : apply 200 "offer" operator paid_db ≡ ok applied_db
unfolding mark_paid apply require_commercial_operator is_developer normalize_role
offer_applied = refl

apply_twice_example : apply 300 "offer" operator applied_db ≡ ok applied_db
apply_twice_example = apply_twice 200 300 "offer" operator paid_db applied_db offer_applied

-- An offer that was cancelled can still be marked as paid.
cancelled_offer_is_paid :
    mark_paid 50 "offer"
      (some "payment")
      operator
      (record db { offers = record offer { status = "cancelled" } ∷ [] })
    ≡ ok paid_db
unfolding mark_paid require_commercial_operator is_developer normalize_role
cancelled_offer_is_paid = refl

-- the offer of a connected subscription, paid
abbrev connected : Offer
connected = record paid_offer { upgrade_type = "connected_migration" }

abbrev connected_db : Tables
connected_db = record db { offers = connected ∷ [] }

abbrev moved_db : Tables
moved_db = record db {
  licenses = record license { status = "upgraded"; upgraded_at = some 200 } ∷ [];
  offers =
      record connected { status = "applied"; applied_at = some 200; applied_by = some "operator" }
      ∷ [];
}
