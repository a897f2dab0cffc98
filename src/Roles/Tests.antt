-- ===== src/Roles/Tests.antt =====
-- Concrete roles and scopes.
use eleeveon_schools_backend.Prelude.{◌≡◌, ◌⊎◌, refl, true, none, some, [], ◌∷◌}
use eleeveon_schools_backend.Text.{trim, to_lower_case}
use eleeveon_schools_backend.Roles.{AppRole, normalize_role}
use eleeveon_schools_backend.Roles.Scope.{
  AuthMembership, AuthUser, first_truthy, is_privileged, user_can_access_school_branch,
}
use eleeveon_schools_backend.Roles.Scope.Access.{Permits, user_can_access_sound}

abbrev membership : AuthMembership
membership = record {
  account_id = "account";
  role = "teacher";
  school_id = some "school";
  branch_id = none;
  active = some true;
}

abbrev user : AuthUser
user = record {
  id = "user";
  account_id = "account";
  role = "Teacher";
  active = some true;
  memberships = membership ∷ [];
}

granted : user_can_access_school_branch user none (some "school") (some "branch") ≡ true
unfolding user_can_access_school_branch normalize_role trim to_lower_case
granted = refl

user_can_access_sound_example :
    (r : AppRole) × (normalize_role (first_truthy none (some "Teacher")) ≡ some r)
    × ((is_privileged r ≡ true) ⊎ Permits user r (some "school") (some "branch"))
user_can_access_sound_example =
    user_can_access_sound user none (some "school") (some "branch") granted
