-- ===== src/Sync/Policy/Rights.antt =====
-- What the rows of an account let it do.
use eleeveon_schools_backend.Prelude.{
  ℕ, List, [], ◌∷◌, includes, ◌≡◌, refl, ◌⊎◌, inl, inr, String, true, false, Option, none, some,
  ◌===◌, if◌then◌else◌, or_default, arith, Bool-cases,
}
use eleeveon_schools_backend.Text.{trim, to_lower_case}
use eleeveon_schools_backend.Sync.Policy.{
  EffectiveSyncPolicy, platform_only, configured_platform_only, connected, legacy_fallback,
  from_developer, DeploymentMode, Source, read_only, ConfiguredPolicy, full, developer,
  configured_full, configured_disabled, offline, mode_offline, Snapshot, ResolvedSyncAccess, build,
  effective, normalize_configured_policy, normalize_deployment_mode, is_read_only_status,
  of_snapshot, of_rows, is_platform_role, resolve, frontend_policy,
}

-- the status of a row as `resolve` reads it
abbrev pub status_of : Snapshot → String
status_of row = to_lower_case (or_default row.status "active")

-- the statuses that leave an account read access only
abbrev pub lapsed_statuses : List String
lapsed_statuses = "past_due" ∷ "expired" ∷ "suspended" ∷ "cancelled" ∷ "read_only" ∷ []

-- A row lets its account write when its status is not one of the read-only ones and its policy is
-- full.
abbrev pub MayWrite : Snapshot → Type 0
MayWrite row =
    (includes (status_of row) lapsed_statuses ≡ false)
    × (normalize_configured_policy row.sync_policy ≡ configured_full)

abbrev pub IsOrdered : ResolvedSyncAccess → Type 0
IsOrdered access =
    (access.can_resolve_conflicts ≡ access.can_push)
    × (access.can_workspace_bootstrap ≡ access.can_pull)
    × ((access.can_push ≡ false) ⊎ (access.can_pull ≡ true))

build-IsOrdered :
    (account : String) (policy : EffectiveSyncPolicy) (configured : ConfiguredPolicy)
    (mode : DeploymentMode) (status : String) (source : Source) (version : Option ℕ)
    → IsOrdered (build account policy configured mode status source version)
unfolding build
build-IsOrdered account policy configured mode status source version = ground arith

of_snapshot-IsOrdered :
    (account : String) (source : Source) (row : Snapshot)
    → IsOrdered (of_snapshot account source row)
unfolding of_snapshot
of_snapshot-IsOrdered account source row =
    build-IsOrdered account
      (if is_read_only_status (status_of row)
        then read_only
        else effective (normalize_configured_policy row.sync_policy))
      (normalize_configured_policy row.sync_policy) (normalize_deployment_mode row.deployment_mode)
      (status_of row) source (some row.version)

of_rows-IsOrdered :
    (account : String) (enforcement : Option String) (entitlement subscription : Option Snapshot)
    → IsOrdered (of_rows account enforcement entitlement subscription)
of_rows-IsOrdered account enforcement (some e) s = of_snapshot-IsOrdered account _ e
of_rows-IsOrdered account enforcement none (some s) = of_snapshot-IsOrdered account _ s
of_rows-IsOrdered account enforcement none none =
    elim (Bool-cases (to_lower_case (or_default enforcement "") === "strict")) [
      | inl strict ↦ rw strict (
          build-IsOrdered account platform_only configured_platform_only connected "unresolved"
            legacy_fallback none)
      | inr lax ↦
          rw lax
            (build-IsOrdered account full configured_full connected "legacy" legacy_fallback none)
    ]

-- Reading is never less than writing: whoever may push may pull, conflicts are resolved by
-- exactly those who may push, and bootstraps are read by exactly those who may pull.
pub resolve-IsOrdered :
    (enforcement : Option String) (entitlement subscription : Option Snapshot) (account : String)
    (role : Option String)
    → IsOrdered (resolve enforcement entitlement subscription account role)
unfolding resolve
resolve-IsOrdered enforcement entitlement subscription account role =
    elim (Bool-cases (is_platform_role role)) [
      | inl platform ↦ rw platform (
          build-IsOrdered (trim account) developer configured_full connected "active" from_developer
            none)
      | inr plain ↦ rw plain (of_rows-IsOrdered (trim account) enforcement entitlement subscription)
    ]

-- A status that lapses makes the account of a disabled policy readable: what could neither push
-- nor pull before may pull and bootstrap once its status is read-only.
pub lapse_grants_pull :
    (enforcement : Option String) (before after : Snapshot) (subscription : Option Snapshot)
    (account : String) (role : Option String)
    → is_platform_role role ≡ false
    → normalize_configured_policy before.sync_policy ≡ configured_disabled
    → is_read_only_status (status_of before) ≡ false
    → is_read_only_status (status_of after) ≡ true
    → ((resolve enforcement (some before) subscription account role).can_pull ≡ false)
      × ((resolve enforcement (some after) subscription account role).can_pull ≡ true)
unfolding resolve of_snapshot build
lapse_grants_pull enforcement before after subscription account role plain shut fine lapsed =
    rw plain (rw shut (rw fine (rw lapsed (refl, refl))))

-- The mode that the browser is told: an account that may write is told full, developer or offline
-- mode, and offline mode is all that an account in an offline deployment is told of its right to
-- push.
pub offline_mode_may_push :
    (enforcement : Option String) (entitlement : Snapshot) (subscription : Option Snapshot)
    (account : String) (role : Option String) (now ttl : ℕ)
    → is_platform_role role ≡ false
    → MayWrite entitlement
    → normalize_deployment_mode entitlement.deployment_mode ≡ offline
    → let told =
        frontend_policy now ttl
          (resolve enforcement (some entitlement) subscription account role) in
      (told.mode ≡ mode_offline) × (told.allow_push ≡ true)
unfolding frontend_policy resolve of_snapshot build
offline_mode_may_push enforcement row subscription account role now ttl plain (fine, writes) away =
    rw plain (rw fine (rw writes (rw away (refl, refl))))
