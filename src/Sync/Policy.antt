-- ===== src/Sync/Policy.antt =====
-- src/sync/subscription-sync-policy.service.ts: the sync access of an account. The rows that the
-- database holds for the account, its entitlement and its subscription, are arguments.
pub mod Rights
use eleeveon_schools_backend.Prelude.{
  ℕ, String, Bool, true, false, not, ◌&&◌, ◌||◌, Option, none, some, get_or, ◌===◌, includes, List,
  [], ◌∷◌, if◌then◌else◌, or_default, min, max, ◌+◌,
}
use eleeveon_schools_backend.Result.{Result, ok, err, forbidden, ◌>>=◌, ◌>>◌, throw_if}
use eleeveon_schools_backend.Text.{trim, to_lower_case, underscored}

pub data EffectiveSyncPolicy : Type 0 where
  full platform_only disabled read_only developer : EffectiveSyncPolicy

pub data ConfiguredPolicy : Type 0 where
  configured_full configured_platform_only configured_disabled : ConfiguredPolicy

pub data DeploymentMode : Type 0 where
  connected offline : DeploymentMode

pub data Source : Type 0 where
  from_developer from_entitlement from_subscription legacy_fallback : Source

-- The columns that are read of AccountEntitlement and of AccountSubscription
pub record Snapshot : Type 0 where
  pub sync_policy : Option String
  pub deployment_mode : Option String
  pub status : Option String
  pub version : ℕ

pub record ResolvedSyncAccess : Type 0 where
  pub account_id : String
  pub sync_policy : EffectiveSyncPolicy
  pub configured_policy : ConfiguredPolicy
  pub deployment_mode : DeploymentMode
  pub status : String
  pub source : Source
  pub can_push : Bool
  pub can_pull : Bool
  pub can_workspace_bootstrap : Bool
  pub can_platform_cache : Bool
  pub can_register_device : Bool
  pub can_resolve_conflicts : Bool
  pub entitlement_version : Option ℕ

abbrev pub is_developer : EffectiveSyncPolicy → Bool
is_developer developer = true
is_developer _ = false

abbrev pub is_full : EffectiveSyncPolicy → Bool
is_full full = true
is_full developer = true
is_full _ = false

abbrev pub is_read_only : EffectiveSyncPolicy → Bool
is_read_only read_only = true
is_read_only _ = false

unfoldable pub build :
    String
    → EffectiveSyncPolicy
    → ConfiguredPolicy
    → DeploymentMode
    → String
    → Source
    → Option ℕ
    → ResolvedSyncAccess
build account policy configured mode status source version = record {
  account_id = account;
  sync_policy = policy;
  configured_policy = configured;
  deployment_mode = mode;
  status = status;
  source = source;
  can_push = is_full policy;
  can_pull = is_full policy || is_read_only policy;
  can_workspace_bootstrap = is_full policy || is_read_only policy;
  can_platform_cache = true;
  can_register_device = true;
  can_resolve_conflicts = is_full policy;
  entitlement_version = version;
}

unfoldable pub normalize_configured_policy : Option String → ConfiguredPolicy
normalize_configured_policy value =
    let policy = to_lower_case (trim (or_default value "disabled")) in
    if policy === "full"
    then configured_full
    else if policy === "platform_only" || policy === "hybrid"
    then configured_platform_only
    else configured_disabled

unfoldable pub normalize_deployment_mode : Option String → DeploymentMode
normalize_deployment_mode value =
    if to_lower_case (or_default value "") === "offline" then offline else connected

abbrev pub is_read_only_status : String → Bool
is_read_only_status status =
    includes status ("past_due" ∷ "expired" ∷ "suspended" ∷ "cancelled" ∷ "read_only" ∷ [])

abbrev pub effective : ConfiguredPolicy → EffectiveSyncPolicy
effective configured_full = full
effective configured_platform_only = platform_only
effective configured_disabled = disabled

-- The two branches of `resolve` that read a row, which differ in the row's table only
unfoldable pub of_snapshot : String → Source → Snapshot → ResolvedSyncAccess
unfolding build normalize_configured_policy normalize_deployment_mode
of_snapshot account source row =
    let configured = normalize_configured_policy row.sync_policy in
    let status = to_lower_case (or_default row.status "active") in
    build account (if is_read_only_status status then read_only else effective configured)
      configured (normalize_deployment_mode row.deployment_mode) status source (some row.version)

-- the row that decides: the entitlement's, else the subscription's, else the fallback
abbrev pub of_rows : String → Option String → Option Snapshot → Option Snapshot → ResolvedSyncAccess
of_rows account enforcement (some entitlement) _ = of_snapshot account from_entitlement entitlement
of_rows account enforcement none (some subscription) =
    of_snapshot account from_subscription subscription
of_rows account enforcement none none =
    if to_lower_case (or_default enforcement "") === "strict"
    then build account platform_only configured_platform_only connected "unresolved" legacy_fallback
        none
    else build account full configured_full connected "legacy" legacy_fallback none

unfoldable pub is_platform_role : Option String → Bool
is_platform_role role =
    let named = underscored (to_lower_case (trim (or_default role ""))) in
    named === "developer" || named === "platform_team"

-- `enforcement` is the environment's SYNC_ENTITLEMENT_ENFORCEMENT.
unfoldable pub resolve :
    Option String → Option Snapshot → Option Snapshot → String → Option String → ResolvedSyncAccess
unfolding of_snapshot
resolve enforcement entitlement subscription account role =
    if is_platform_role role
    then build (trim account) developer configured_full connected "active" from_developer none
    else of_rows (trim account) enforcement entitlement subscription

pub data FrontendSyncMode : Type 0 where
  mode_developer mode_read_only mode_offline mode_hybrid mode_full : FrontendSyncMode

abbrev pub frontend_mode : EffectiveSyncPolicy → DeploymentMode → FrontendSyncMode
frontend_mode developer _ = mode_developer
frontend_mode read_only _ = mode_read_only
frontend_mode disabled _ = mode_offline
frontend_mode platform_only offline = mode_offline
frontend_mode platform_only connected = mode_hybrid
frontend_mode full offline = mode_offline
frontend_mode full connected = mode_full

unfoldable pub to_frontend_mode : ResolvedSyncAccess → FrontendSyncMode
to_frontend_mode access = frontend_mode access.sync_policy access.deployment_mode

abbrev allows_local : FrontendSyncMode → Bool
allows_local mode_read_only = false
allows_local _ = true

pub record FrontendEffectiveSyncPolicy : Type 0 where
  pub account_id : String
  pub mode : FrontendSyncMode
  pub allow_push : Bool
  pub allow_pull : Bool
  pub allow_platform_cache : Bool
  pub allow_device_registration : Bool
  pub allow_workspace_bootstrap : Bool
  pub allow_local_mutations : Bool
  pub entitlement_version : Option ℕ
  pub resolved_at : ℕ
  pub expires_at : ℕ

-- `now` is the clock in milliseconds, and `ttl` the number that SYNC_POLICY_CACHE_TTL_MS gives, or
-- 300,000.
unfoldable pub frontend_policy : ℕ → ℕ → ResolvedSyncAccess → FrontendEffectiveSyncPolicy
unfolding to_frontend_mode
frontend_policy now ttl access = record {
  account_id = access.account_id;
  mode = to_frontend_mode access;
  allow_push = access.can_push;
  allow_pull = access.can_pull;
  allow_platform_cache = access.can_platform_cache;
  allow_device_registration = access.can_register_device;
  allow_workspace_bootstrap = access.can_workspace_bootstrap;
  allow_local_mutations = allows_local (to_frontend_mode access);
  entitlement_version = access.entitlement_version;
  resolved_at = now;
  expires_at = now + max 30000 ttl;
}

abbrev pub assert_can_push : ResolvedSyncAccess → Result ResolvedSyncAccess
assert_can_push access = do throw_if (not access.can_push) forbidden; ok access

abbrev pub assert_can_pull : ResolvedSyncAccess → Result ResolvedSyncAccess
assert_can_pull access = do throw_if (not access.can_pull) forbidden; ok access

abbrev pub assert_can_workspace_bootstrap : ResolvedSyncAccess → Result ResolvedSyncAccess
assert_can_workspace_bootstrap access = do
  throw_if (not access.can_workspace_bootstrap) forbidden
  ok access

abbrev pub assert_can_platform_cache : ResolvedSyncAccess → Result ResolvedSyncAccess
assert_can_platform_cache access = do throw_if (not access.can_platform_cache) forbidden; ok access

abbrev pub assert_can_resolve_conflicts : ResolvedSyncAccess → Result ResolvedSyncAccess
assert_can_resolve_conflicts access = do
  throw_if (not access.can_resolve_conflicts) forbidden
  ok access
