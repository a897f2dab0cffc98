-- ===== src/Roles/Canonical.antt =====
-- What role normalisation guarantees.
use eleeveon_schools_backend.Prelude.{
  String, ◌≡◌, refl, ◌↔◌, ◌⊎◌, inl, inr, Bool, true, Option, none, some, List, [], ◌∷◌, arith, sym,
  Bool, if◌then◌else◌,
}
use mathlib.Core.Path.{subst}
use mathlib.Core.Option.{some-injective}
use eleeveon_schools_backend.Result.{ok, err, forbidden}
use eleeveon_schools_backend.Roles.{
  AppRole, role_text, developer_roles, has_role, normalize_role, is_developer, guard_role,
  can_activate,
}

-- Normalising the string of a role gives back that role.
pub normalize_role-role_text : (r : AppRole) → normalize_role (some (role_text r)) ≡ some r
unfolding normalize_role
normalize_role-role_text AppRole.developer = refl
normalize_role-role_text AppRole.platform_team = refl
normalize_role-role_text _ = refl

is_developer-role_text :
    (r : AppRole) → is_developer (some (role_text r)) ≡ has_role r developer_roles
unfolding is_developer
is_developer-role_text r = rw normalize_role-role_text

allowed_iff :
    (b c : Bool)
    → ((if b then ok true else if c then ok true else err forbidden) ≡ ok true)
      ↔ ((b ≡ true) ⊎ (c ≡ true))
allowed_iff b c = ground arith

-- the same of the guard once the role is normalised
guard_role_iff :
    (required : List AppRole) (o : Option AppRole)
    → (guard_role required o ≡ ok true) ↔ (
        (r : AppRole) × (o ≡ some r)
        × ((has_role r developer_roles ≡ true) ⊎ (has_role r required ≡ true)))
unfolding guard_role
guard_role_iff required none = (λ e. cc, λ w. cc (w.1))
guard_role_iff required (some r) = rw is_developer-role_text (
  λ e. (r, refl, (allowed_iff (has_role r developer_roles) (has_role r required)).0 e),
  λ w. (allowed_iff (has_role r developer_roles) (has_role r required)).1 (
      subst (λ x. (has_role x developer_roles ≡ true) ⊎ (has_role x required ≡ true))
        (sym (some-injective _ _ w.1)) w.2),
)

-- A request passes the role guard exactly when nothing is required, or the session's role
-- normalises to a role that is a developer's or is among those required; every other outcome is
-- an exception.
pub can_activate_iff :
    (required : List AppRole) (role : Option String)
    → (can_activate (some required) role ≡ ok true) ↔ (
        (required ≡ [])
        ⊎ ((r : AppRole) × (normalize_role role ≡ some r)
            × ((has_role r developer_roles ≡ true) ⊎ (has_role r required ≡ true))))
unfolding can_activate
can_activate_iff [] role = (λ _. inl refl, λ _. refl)
can_activate_iff (q ∷ qs) role = (
  λ e. inr ((guard_role_iff (q ∷ qs) (normalize_role role)).0 e),
  λ w. elim w [ inl e ↦ cc | inr v ↦ (guard_role_iff (q ∷ qs) (normalize_role role)).1 v ],
)
