-- ===== src/Roles.antt =====
-- src/common/roles.ts and src/common/roles.guard.ts: role names and their aliases.
pub mod Canonical
pub mod Scope
mod Tests
use eleeveon_schools_backend.Prelude.{
  String, Bool, true, false, ◌||◌, Option, none, some, List, [], ◌∷◌, ◌===◌, find, any,
  if◌then◌else◌,
}
use eleeveon_schools_backend.Text.{trim, to_lower_case}
use eleeveon_schools_backend.Result.{Result, ok, err, forbidden}

pub data AppRole : Type 0 where
  developer platform_team owner super_admin branch_admin admin : AppRole
  teacher student accountant parent : AppRole

-- the string that stands for a role
abbrev pub role_text : AppRole → String
role_text developer = "developer"
role_text platform_team = "platform_team"
role_text owner = "owner"
role_text super_admin = "super_admin"
role_text branch_admin = "branch_admin"
role_text admin = "admin"
role_text teacher = "teacher"
role_text student = "student"
role_text accountant = "accountant"
role_text parent = "parent"

abbrev pub all_app_roles : List AppRole
all_app_roles =
    developer ∷ platform_team ∷ owner ∷ super_admin ∷ branch_admin ∷ admin ∷ teacher ∷ student
    ∷ accountant ∷ parent ∷ []

abbrev pub developer_roles : List AppRole
developer_roles = developer ∷ platform_team ∷ []

abbrev pub owner_roles : List AppRole
owner_roles = owner ∷ super_admin ∷ []

abbrev pub admin_roles : List AppRole
admin_roles = owner ∷ super_admin ∷ admin ∷ branch_admin ∷ []

pub AppRole-discrete : Discrete AppRole
AppRole-discrete = hlevel

-- `===` of two roles is that of their strings.
abbrev pub same_role : AppRole → AppRole → Bool
same_role a b = role_text a === role_text b

-- `roles.includes(role)`
abbrev pub has_role : AppRole → List AppRole → Bool
has_role r = any (same_role r)

-- the cast `value as AppRole`, where `ALL_APP_ROLES.includes(value)`
pub role_named : String → Option AppRole
role_named value = find (λ r. role_text r === value) all_app_roles

-- the part of `normalizeRole` after the trimming
pub canonical_role : String → Option AppRole
unfolding role_named
canonical_role value =
    if value === "school_owner" || value === "account_owner"
    then some owner
    else if value === "school_admin"
    then some admin
    else if value === "appdeveloper" || value === "app_developer"
    then some developer
    else role_named value

-- An absent role and the empty string are both falsy.
unfoldable pub normalize_role : Option String → Option AppRole
unfolding canonical_role trim to_lower_case
normalize_role none = none
normalize_role (some role) =
    if role === "" then none else canonical_role (to_lower_case (trim role))

-- `Boolean(normalized && allowed.includes(normalized))`
abbrev pub admits : List AppRole → Option AppRole → Bool
admits allowed none = false
admits allowed (some r) = has_role r allowed

unfoldable pub role_is : Option String → List AppRole → Bool
role_is role allowed = admits allowed (normalize_role role)

unfoldable pub is_developer : Option String → Bool
is_developer role = admits developer_roles (normalize_role role)

unfoldable pub is_owner : Option String → Bool
is_owner role = admits owner_roles (normalize_role role)

unfoldable pub is_admin_like : Option String → Bool
is_admin_like role = admits admin_roles (normalize_role role)

-- `RolesGuard.canActivate`: the roles required by the handler's metadata and the session's role
guard_role : List AppRole → Option AppRole → Result Bool
unfolding is_developer
guard_role required none = err forbidden
guard_role required (some role) =
    if is_developer (some (role_text role))
    then ok true
    else if has_role role required
    then ok true
    else err forbidden

unfoldable pub can_activate : Option (List AppRole) → Option String → Result Bool
unfolding guard_role
can_activate none role = ok true
can_activate (some []) role = ok true
can_activate (some (r ∷ rs)) role = guard_role (r ∷ rs) (normalize_role role)
