-- ===== src/Commercial.antt =====
-- src/commercial/deployment-policy.ts: how stored commercial strings are read, and the access
-- status at a time. A value of type `unknown` is a string or absent (null, undefined); a date is
-- absent, not a date (`NaN`), or a number of milliseconds.
pub mod Access
mod Tests
use eleeveon_schools_backend.Prelude.{
  ℕ, String, Bool, true, false, not, ◌&&◌, ◌||◌, Option, none, some, get_or, [], ◌∷◌, ◌===◌, ltb,
  leb, includes, if◌then◌else◌, is_some,
}
use eleeveon_schools_backend.Roles.Scope.{truthy}
use eleeveon_schools_backend.Text.{trim, to_lower_case}

pub data CommercialAcquisition : Type 0 where
  trial subscription complimentary perpetual : CommercialAcquisition

pub data CanonicalDeployment : Type 0 where
  connected offline : CanonicalDeployment

pub data CanonicalSync : Type 0 where
  full platform_only disabled : CanonicalSync

pub data CanonicalUpdate : Type 0 where
  continuous security_only version_locked : CanonicalUpdate

pub data NormalizedAccessStatus : Type 0 where
  active trial grace past_due expired suspended cancelled : NormalizedAccessStatus

pub NormalizedAccessStatus-discrete : Discrete NormalizedAccessStatus
NormalizedAccessStatus-discrete = hlevel

-- `String(value ?? "").trim().toLowerCase()`
unfoldable pub normalized : Option String → String
unfolding trim to_lower_case
normalized value = to_lower_case (trim (get_or value ""))

-- `String(value ?? "").toLowerCase()`, with no trimming
unfoldable pub lowered : Option String → String
unfolding to_lower_case
lowered value = to_lower_case (get_or value "")

unfoldable pub deployment_mode_of : Option String → CanonicalDeployment
unfolding normalized
deployment_mode_of value =
    if includes (normalized value) (
      "offline" ∷ "offline_local" ∷ "independent_essentials" ∷ "independent_multi_device"
      ∷ "standalone" ∷ "local" ∷ [])
    then offline
    else connected

unfoldable pub sync_policy_of : Option String → CanonicalSync
unfolding normalized
sync_policy_of value =
    let v = normalized value in
    if v === "full"
    then full
    else if includes v ("platform_only" ∷ "hybrid" ∷ [])
    then platform_only
    else disabled

-- The cast `v as CanonicalUpdate` is the value that the string names.
unfoldable pub update_policy_of : Option String → CanonicalUpdate
unfolding normalized
update_policy_of value =
    let v = normalized value in
    if v === "continuous"
    then continuous
    else if v === "security_only"
    then security_only
    else version_locked

unfoldable pub acquisition_of : Option String → Option String → CommercialAcquisition
unfolding lowered
acquisition_of plan_model status =
    let model = lowered plan_model in
    let state = lowered status in
    if model === "complimentary" || model === "pilot"
    then complimentary
    else if model === "perpetual" || model === "outright"
    then perpetual
    else if model === "trial" || state === "trial"
    then CommercialAcquisition.trial
    else subscription

pub data When : Type 0 where
  absent not_a_date : When
  at : ℕ → When

pub record AccessInput : Type 0 where
  pub status : Option String
  pub valid_until : When
  pub grace_ends_at : When

-- `until !== null && (!Number.isFinite(until) || until <= at)`
abbrev pub is_past : When → ℕ → Bool
is_past absent now = false
is_past not_a_date now = true
is_past (at t) now = leb t now

-- `grace !== null && Number.isFinite(grace) && grace > at`
abbrev pub is_ahead : When → ℕ → Bool
is_ahead (at t) now = ltb now t
is_ahead _ now = false

-- `statusAt` after the string is normalised
access_at : String → When → When → ℕ → NormalizedAccessStatus
access_at status until grace_end now =
    if status === "suspended" || status === "revoked"
    then suspended
    else if status === "cancelled" || status === "canceled"
    then cancelled
    else if status === "expired" || status === "pending" || status === "unresolved"
    then expired
    else if is_past until now
    then (if is_ahead grace_end now then grace else expired)
    else if status === "active"
    then active
    else if status === "trial"
    then NormalizedAccessStatus.trial
    else if status === "grace"
    then grace
    else if status === "past_due"
    then past_due
    else expired

unfoldable pub status_at : AccessInput → ℕ → NormalizedAccessStatus
unfolding access_at normalized
status_at input now = access_at (normalized input.status) input.valid_until input.grace_ends_at now

pub data CommercialBase : Type 0 where
  perpetual subscription : CommercialBase

-- `state === "expired" || state === "cancelled" || state === "suspended"`
abbrev pub is_blocked : NormalizedAccessStatus → Bool
is_blocked expired = true
is_blocked cancelled = true
is_blocked suspended = true
is_blocked _ = false

-- The subscription's status, end and grace end are the access input.
unfoldable pub choose_commercial_base : AccessInput → Bool → ℕ → Option CommercialBase
unfolding status_at
choose_commercial_base sub has_active_perpetual now =
    if has_active_perpetual
    then some CommercialBase.perpetual
    else if is_blocked (status_at sub now)
    then (if truthy sub.status then some CommercialBase.subscription else none)
    else some CommercialBase.subscription
