-- ===== src/Entitlements.antt =====
-- src/entitlements/entitlement-policy.service.ts: what an entitlement snapshot lets an account do
-- at a time. Limits and usages are whole; a feature that is absent or null is off.
pub mod Capacity
mod Tests
use eleeveon_schools_backend.Prelude.{
  ℕ, zero, suc, ◌+◌, ◌-◌, ◌*◌, ◌/◌, String, Bool, true, false, ◌&&◌, Option, none, some, leb,
  if◌then◌else◌,
}
use eleeveon_schools_backend.Text.{decimal}
use eleeveon_schools_backend.Number.{pos, negsuc}
use eleeveon_schools_backend.Json.{
  finite, Value, bool, number, null, object, array, Fields, field, end, Items, nil, cons, get, put,
}
use eleeveon_schools_backend.Commercial.{AccessInput, status_at}
use eleeveon_schools_backend.Commercial.Access.{may_mutate}

pub data EntitlementResourceKey : Type 0 where
  schools branches users students teachers : EntitlementResourceKey
  storage_mb api_calls_per_month devices activations : EntitlementResourceKey

abbrev pub default_features : Fields
default_features = field "offlineSync" (bool true) (
    field "cloudBackup" (bool false) (
      field "reports" (bool false) (
        field "finance" (bool false) (
          field "attendance" (bool false) (
            field "identityCards" (bool false) (
              field "identitySafety" (bool false) (
                field "transport" (bool false) (
                  field "communications" (bool false) (
                    field "calendarScheduling" (bool false) (
                      field "schoolWebsites" (bool false) (
                        field "parentPortal" (bool false) (
                          field "studentPortal" (bool false) (
                            field "teacherPortal" (bool false) (
                              field "advancedAnalytics" (bool false) (
                                field "advancedScheduling" (bool false) (
                                  field "apiAccess" (bool false) (
                                    field "webhooks" (bool false)
                                      (field "prioritySupport" (bool false) end))))))))))))))))))

-- `if (typeof value === "boolean") result[key] = value`
abbrev put_boolean : String → Value → Fields → Fields
put_boolean key (bool b) result = put key (bool b) result
put_boolean key _ result = result

abbrev put_booleans : Fields → Fields → Fields
put_booleans end result = result
put_booleans (field key value entries) result = put_booleans entries (put_boolean key value result)

-- the entries of an array, whose keys are its positions
abbrev put_elements : ℕ → Items → Fields → Fields
put_elements n nil result = result
put_elements n (cons value entries) result =
    put_elements (suc n) entries (put_boolean (decimal n) value result)

unfoldable pub normalize_features : Value → Fields
unfolding put decimal
normalize_features (object entries) = put_booleans entries default_features
normalize_features (array entries) = put_elements 0 entries default_features
normalize_features _ = default_features

-- The values of `normalizeLimits`, which are null or whole numbers; what is neither null nor a
-- number is left out.
abbrev limit_value : Value → Value
limit_value (number (finite (pos n))) = number (finite (pos (n / 1000 * 1000)))
limit_value (number (finite (negsuc n))) = number (finite (pos 0))
limit_value v = v

abbrev is_limit : Value → Bool
is_limit null = true
is_limit (number (finite n)) = true
is_limit _ = false

unfoldable pub normalize_limits : Fields → Fields
normalize_limits end = end
normalize_limits (field key value entries) =
    let rest = normalize_limits entries in
    if is_limit value then field key (limit_value value) rest else rest

pub record EffectiveAccessSnapshot : Type 0 where
  pub access : AccessInput
  pub features : Fields
  pub limits : EntitlementResourceKey → Option ℕ

abbrev is_true : Value → Bool
is_true (bool b) = b
is_true _ = false

abbrev used_of : Option ℕ → ℕ
used_of none = 0
used_of (some n) = n

abbrev pub remaining_of : Option ℕ → ℕ → Option ℕ
remaining_of none used = none
remaining_of (some limit) used = some (limit - used)

abbrev pub fits : Option ℕ → ℕ → Bool
fits none wanted = true
fits (some limit) wanted = leb wanted limit

-- `createAccess` of a snapshot and the usage at a time; a resource without a usage has none used.
module _ (snapshot : EffectiveAccessSnapshot) (usage : EntitlementResourceKey → Option ℕ)
    (now : ℕ) where
  unfoldable pub can : String → Bool
  unfolding get
  can feature =
      may_mutate (status_at snapshot.access now) && is_true (get snapshot.features feature)

  abbrev pub used : EntitlementResourceKey → ℕ
  used resource = used_of (usage resource)

  unfoldable pub remaining : EntitlementResourceKey → Option ℕ
  remaining resource = remaining_of (snapshot.limits resource) (used resource)

  unfoldable pub has_capacity : EntitlementResourceKey → ℕ → Bool
  has_capacity resource increase =
      may_mutate (status_at snapshot.access now)
      && fits (snapshot.limits resource) (used resource + increase)
