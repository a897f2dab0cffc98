-- ===== src/Roles/Scope.antt =====
-- src/common/scope.ts and src/licenses/commercial-operator.ts: what an actor may reach. The
-- session's role is a string, as the token carries it; ids are strings, and an absent id, a null
-- and the empty string are all falsy.
pub mod Access
use eleeveon_schools_backend.Prelude.{
  String, ◌≡◌, refl, ◌↔◌, ◌⊎◌, inl, inr, Bool, true, false, not, ◌&&◌, ◌||◌, Option, none, some,
  List, [], ◌∷◌, arith, ◌===◌, ◌!==◌, any, if◌then◌else◌, Bool-cases,
}
use eleeveon_schools_backend.Result.{Result, ok, err, forbidden}
use eleeveon_schools_backend.Roles.{
  AppRole, developer, platform_team, owner, super_admin, role_text, same_role, normalize_role,
  is_developer,
}

-- the fields of `AuthMembership` and of `AuthUser` that these checks read
pub record AuthMembership : Type 0 where
  pub account_id : String
  pub role : String
  pub school_id : Option String
  pub branch_id : Option String
  pub active : Option Bool

pub record AuthUser : Type 0 where
  pub id : String
  pub account_id : String
  pub role : String
  pub active : Option Bool
  pub memberships : List AuthMembership

-- `Boolean(id)`
abbrev pub truthy : Option String → Bool
truthy none = false
truthy (some s) = s !== ""

-- `a || b` of two optional strings
abbrev pub first_truthy : Option String → Option String → Option String
first_truthy none b = b
first_truthy (some s) b = if s === "" then b else some s

-- `active === false`
abbrev pub is_false : Option Bool → Bool
is_false (some false) = true
is_false _ = false

-- `a === b` of two optional strings, and `===` against a string
abbrev pub is_id : Option String → String → Bool
is_id none t = false
is_id (some s) t = s === t

unfoldable pub assert_same_account_or_developer : AuthUser → Option String → Result (Unit {0})
assert_same_account_or_developer user account_id =
    if is_developer (some user.role)
    then ok tt
    else if not (truthy account_id) || not (is_id account_id user.account_id)
    then err forbidden
    else ok tt

abbrev same_id : Option String → Option String → Bool
same_id (some w) (some h) = h === w
same_id _ _ = false

-- A wanted id matches when either side is unset or both are the same string.
abbrev pub id_matches : Option String → Option String → Bool
id_matches wanted held = not (truthy wanted) || not (truthy held) || same_id wanted held

abbrev pub is_role : AppRole → Option AppRole → Bool
is_role r none = false
is_role r (some q) = same_role q r

-- the callback of `memberships.some`
abbrev pub grants : AppRole → Option String → Option String → AuthMembership → Bool
grants role school_id branch_id m =
    not (is_false m.active)
    && is_role role (normalize_role (some m.role))
    && id_matches school_id m.school_id
    && id_matches branch_id m.branch_id

abbrev pub is_privileged : AppRole → Bool
is_privileged role =
    same_role role developer
    || same_role role platform_team
    || same_role role owner
    || same_role role super_admin

access_as : Option AppRole → AuthUser → Option String → Option String → Bool
access_as none user school_id branch_id = false
access_as (some role) user school_id branch_id =
    is_privileged role || any (grants role school_id branch_id) user.memberships

unfoldable pub user_can_access_school_branch :
    AuthUser → Option String → Option String → Option String → Bool
unfolding access_as
user_can_access_school_branch user role school_id branch_id =
    access_as (normalize_role (first_truthy role (some user.role))) user school_id branch_id

-- the callback of `actor.memberships.some` in `requireCommercialOperator`
abbrev pub operates : AuthUser → AuthMembership → Bool
operates actor m =
    not (is_false m.active) && m.role === actor.role && m.account_id === actor.account_id

unfoldable pub require_commercial_operator : AuthUser → Result (Unit {0})
require_commercial_operator actor =
    if not (is_developer (some actor.role))
      || is_false actor.active
      || not (any (operates actor) actor.memberships)
    then err forbidden
    else ok tt
