-- ===== src/Permissions.antt =====
-- src/permissions/permissions.service.ts: the rules that say which roles may use a module. The
-- events that tell clients of a change are left out.
pub mod Locked
mod Tests
use eleeveon_schools_backend.Prelude.{
  String, Bool, true, false, not, ◌&&◌, ◌||◌, Option, none, some, get_or, List, [], ◌∷◌, ◌===◌, any,
  find, filter, change_first, includes, if◌then◌else◌,
}
use eleeveon_schools_backend.Result.{
  Result, ok, err, forbidden, not_found, or_throw, throw_if, ◌>>=◌, ◌>>◌,
}
use eleeveon_schools_backend.Roles.{is_developer}
use eleeveon_schools_backend.Roles.Scope.{AuthUser, first_truthy, assert_same_account_or_developer}

-- "yes" or "no" for each role
pub record Access : Type 0 where
  pub owner : String
  pub admin : String
  pub branch : String
  pub teacher : String
  pub student : String
  pub parent : String
  pub accountant : String

pub record Rule : Type 0 where
  pub id : String
  pub account_id : String
  pub module_key : String
  pub module_label : String
  pub access : Access
  pub locked : Bool

-- what a request may set; what is missing stays as it is, or gets the column's default
pub record Change : Type 0 where
  pub module_label : Option String
  pub owner : Option String
  pub admin : Option String
  pub branch : Option String
  pub teacher : Option String
  pub student : Option String
  pub parent : Option String
  pub accountant : Option String
  pub locked : Option Bool

abbrev pub changed : Change → Rule → Rule
changed dto r = record r {
  module_label = get_or dto.module_label r.module_label;
  access = record {
    owner = get_or dto.owner r.access.owner;
    admin = get_or dto.admin r.access.admin;
    branch = get_or dto.branch r.access.branch;
    teacher = get_or dto.teacher r.access.teacher;
    student = get_or dto.student r.access.student;
    parent = get_or dto.parent r.access.parent;
    accountant = get_or dto.accountant r.access.accountant;
  };
  locked = get_or dto.locked r.locked;
}

-- the defaults of the columns of PermissionRule
abbrev pub default_rule : String → String → String → Rule
default_rule id account key = record {
  id = id;
  account_id = account;
  module_key = key;
  module_label = "";
  access = record {
    owner = "yes";
    admin = "no";
    branch = "no";
    teacher = "no";
    student = "no";
    parent = "no";
    accountant = "no";
  };
  locked = false;
}

unfoldable pub assert_can_manage : AuthUser → Result (Unit {0})
assert_can_manage actor =
    throw_if (not (includes actor.role ("developer" ∷ "super_admin" ∷ []))) forbidden

abbrev pub target_account : AuthUser → Option String → String
target_account actor account = get_or (first_truthy account (some actor.account_id)) ""

-- `list`, but for its order
unfoldable pub list : AuthUser → Option String → List Rule → Result (List Rule)
list actor account rules = do
  assert_same_account_or_developer actor (some (target_account actor account))
  ok (filter (λ r. r.account_id === target_account actor account) rules)

-- the unique key `accountId_moduleKey`
abbrev pub is_rule_of : String → String → Rule → Bool
is_rule_of account key r = r.account_id === account && r.module_key === key

-- `create`, an upsert by the key; `id` is the new id
unfoldable pub create :
    String → AuthUser → String → Change → Option String → List Rule → Result (List Rule)
unfolding assert_can_manage
create id actor key dto account rules = do
  assert_can_manage actor
  assert_same_account_or_developer actor (some (target_account actor account))
  let owned = is_rule_of (target_account actor account) key
  ok (
      if any owned rules
      then change_first owned (changed dto) rules
      else changed dto (default_rule id (target_account actor account) key) ∷ rules)

abbrev pub has_id : String → Rule → Bool
has_id id r = r.id === id

-- the checks of `update` and of `remove`
unfoldable pub check_existing : AuthUser → String → List Rule → Result Rule
unfolding assert_can_manage
check_existing actor id rules = do
  assert_can_manage actor
  existing ← or_throw (find (has_id id) rules) not_found
  assert_same_account_or_developer actor (some existing.account_id)
  throw_if (existing.locked && not (is_developer (some actor.role))) forbidden
  ok existing

unfoldable pub update : AuthUser → String → Change → List Rule → Result (List Rule)
unfolding check_existing
update actor id dto rules = do
  existing ← check_existing actor id rules
  ok (change_first (has_id id) (changed dto) rules)

abbrev pub without_first : (Rule → Bool) → List Rule → List Rule
without_first p [] = []
without_first p (r ∷ rules) = let rest = without_first p rules in if p r then rules else r ∷ rest

unfoldable pub remove : AuthUser → String → List Rule → Result (List Rule)
unfolding check_existing
remove actor id rules = do
  existing ← check_existing actor id rules
  ok (without_first (has_id id) rules)
