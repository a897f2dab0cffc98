-- ===== src/Permissions/Tests.antt =====
-- A school whose owner meets a locked rule.
use eleeveon_schools_backend.Prelude.{
  ◌≡◌, refl, true, false, none, some, List, [], ◌∷◌, find, filter,
}
use eleeveon_schools_backend.Result.{ok, err, forbidden}
use eleeveon_schools_backend.Roles.{is_developer, normalize_role}
use eleeveon_schools_backend.Roles.Scope.{AuthUser, assert_same_account_or_developer}
use eleeveon_schools_backend.Permissions.{
  Rule, Change, is_rule_of, assert_can_manage, create, update, remove,
}
use eleeveon_schools_backend.Permissions.Locked.{is_locked, remove-locked, locked_rule_is_unlocked}

abbrev head : AuthUser
head = record {
  id = "head";
  account_id = "account";
  role = "super_admin";
  active = some true;
  memberships = [];
}

abbrev locked_rule : Rule
locked_rule = record {
  id = "one";
  account_id = "account";
  module_key = "finance";
  module_label = "Finance";
  access = record {
    owner = "yes";
    admin = "no";
    branch = "no";
    teacher = "no";
    student = "no";
    parent = "no";
    accountant = "yes";
  };
  locked = true;
}

abbrev plain_rule : Rule
plain_rule = record locked_rule { id = "two"; module_key = "exams"; locked = false }

abbrev rules : List Rule
rules = locked_rule ∷ plain_rule ∷ []

abbrev unlock : Change
unlock = record {
  module_label = some "Finance";
  owner = none;
  admin = none;
  branch = none;
  teacher = some "yes";
  student = none;
  parent = none;
  accountant = none;
  locked = some false;
}

update_refused : update head "one" unlock rules ≡ err forbidden
unfolding update assert_same_account_or_developer is_developer normalize_role
update_refused = refl

plain_removed : remove head "two" rules ≡ ok (locked_rule ∷ [])
unfolding remove assert_same_account_or_developer is_developer normalize_role
plain_removed = refl

head_outside : is_developer (some "super_admin") ≡ false
unfolding is_developer normalize_role
head_outside = refl

remove-locked_example : filter is_locked (locked_rule ∷ []) ≡ filter is_locked rules
remove-locked_example = remove-locked head "two" rules (locked_rule ∷ []) head_outside plain_removed

head_manages : assert_can_manage head ≡ ok tt
unfolding assert_can_manage
head_manages = refl

head_reaches : assert_same_account_or_developer head (some "account") ≡ ok tt
unfolding assert_same_account_or_developer is_developer normalize_role
head_reaches = refl

locked_rule_is_unlocked_example :
    (end : List Rule) × (after : Rule) × (create "new" head "finance" unlock none rules ≡ ok end)
    × (find (is_rule_of "account" "finance") end ≡ some after)
    × (after.locked ≡ false)
locked_rule_is_unlocked_example =
    locked_rule_is_unlocked "new" "finance" head unlock none rules locked_rule head_manages
      head_reaches refl refl
