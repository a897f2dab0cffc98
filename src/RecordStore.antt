-- ===== src/RecordStore.antt =====
-- src/payment-gateway/record-store.service.ts: operational rows, which live in SyncRecord. A table
-- is a list of rows, the newest first, as `list` orders them; `Body` is what a table adds to the
-- columns that the store itself reads. `local_id` is the `id` in the payload, and `cloud_id` the
-- id of the SyncRecord, its primary key; a new one is an argument. Times and `synced` are left out.
pub mod Rows
use eleeveon_schools_backend.Prelude.{
  ℕ, suc, String, Bool, true, false, not, ◌&&◌, ◌||◌, Option, none, some, get_or, List, [], ◌∷◌,
  ◌===◌, find, filter, map, if◌then◌else◌,
}
use eleeveon_schools_backend.Result.{
  Result, ok, err, forbidden, not_found, or_throw, throw_if, ◌>>=◌, ◌>>◌,
}
use eleeveon_schools_backend.Roles.Scope.{
  AuthUser, assert_same_account_or_developer, user_can_access_school_branch, is_id,
}

pub record Row (Body : Type 0) : Type 0 where
  pub cloud_id : String
  pub account_id : String
  pub local_id : Option String
  pub school_id : Option String
  pub branch_id : Option String
  pub is_deleted : Bool
  pub version : ℕ
  pub body : Body

-- the payload of a new row, before the store completes it; `isDeleted ?? false`
pub record Payload (Body : Type 0) : Type 0 where
  pub school_id : Option String
  pub branch_id : Option String
  pub is_deleted : Option Bool
  pub body : Body

-- `scope.schoolId != null && String(payload.schoolId) !== String(scope.schoolId)` does not hold
abbrev pub in_scope : Option String → Option String → Bool
in_scope none held = true
in_scope (some wanted) held = is_id held wanted

-- `userCanAccessSchoolBranch` for the role of the session
abbrev pub can_access : AuthUser → Option String → Option String → Bool
can_access user school branch = user_can_access_school_branch user none school branch

unfoldable pub assert_scope : AuthUser → Option String → Option String → Result (Unit {0})
assert_scope user school branch = do
  assert_same_account_or_developer user (some user.account_id)
  throw_if (not (can_access user school branch)) forbidden

module _ {Body : Type 0} (user : AuthUser) where
  -- the rows of the account that the filter of `list` keeps
  abbrev pub is_listed : Bool → Option String → Option String → Row Body → Bool
  is_listed include_deleted school branch r =
      (r.account_id === user.account_id && (include_deleted || not r.is_deleted))
      && ((in_scope school r.school_id && in_scope branch r.branch_id)
          && can_access user r.school_id r.branch_id)

  -- `scope.includeDeleted` that is missing is false.
  unfoldable pub list :
      Bool → Option String → Option String → List (Row Body) → Result (List (Row Body))
  list include_deleted school branch rows = do
    assert_same_account_or_developer user (some user.account_id)
    ok (filter (is_listed include_deleted school branch) rows)

  abbrev pub has_cloud_id : String → Row Body → Bool
  has_cloud_id id r = r.cloud_id === id && r.account_id === user.account_id

  unfoldable pub get : String → List (Row Body) → Result (Row Body)
  unfolding assert_scope
  get id rows = do
    found ← or_throw (find (has_cloud_id id) rows) not_found
    assert_scope user found.school_id found.branch_id
    ok found

  abbrev pub new_row : String → Payload Body → Row Body
  new_row id payload = record {
    cloud_id = id;
    account_id = user.account_id;
    local_id = none;
    school_id = payload.school_id;
    branch_id = payload.branch_id;
    is_deleted = get_or payload.is_deleted false;
    version = 1;
    body = payload.body;
  }

  -- a payload without an `id` of its own
  unfoldable pub create :
      String → Payload Body → List (Row Body) → Result (Row Body × List (Row Body))
  unfolding assert_scope
  create id payload rows = do
    assert_scope user payload.school_id payload.branch_id
    ok (new_row id payload, new_row id payload ∷ rows)

  -- a patch of the body
  abbrev pub patched : (Body → Body) → Row Body → Row Body
  patched patch r = record r { body = patch r.body; version = suc r.version }

  abbrev pub patch_row : String → (Row Body → Row Body) → Row Body → Row Body
  patch_row id change r = if has_cloud_id id r then change r else r

  -- `update` for a patch that leaves the school and the branch as they are, so that the scope of
  -- the row that is there is also that of the row as it becomes
  unfoldable pub update :
      String → (Row Body → Row Body) → List (Row Body) → Result (Row Body × List (Row Body))
  unfolding assert_scope
  update id change rows = do
    existing ← or_throw (find (has_cloud_id id) rows) not_found
    assert_scope user existing.school_id existing.branch_id
    ok (change existing, map (patch_row id change) rows)

  abbrev pub deleted : Row Body → Row Body
  deleted r = record r { is_deleted = true; version = suc r.version }

  unfoldable pub soft_delete : String → List (Row Body) → Result (Row Body × List (Row Body))
  unfolding update
  soft_delete id rows = update id deleted rows
