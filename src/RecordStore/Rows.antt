-- ===== src/RecordStore/Rows.antt =====
-- What the record store lists, and what it leaves alone.
use eleeveon_schools_backend.Prelude.{
  ◌≡◌, refl, ap, sym, String, Bool, true, false, not, ◌||◌, ◌⊎◌, Option, none, some, List, [], ◌∷◌,
  filter, find, map, All, arith, inl, inr, Bool-cases, eq_iff,
}
use eleeveon_schools_backend.Result.{
  ok, err, throw_if, forbidden, not_found, or_throw, bind-eq-ok, guard-eq-ok, ok_injective,
}
use eleeveon_schools_backend.Roles.Scope.{AuthUser, assert_same_account_or_developer}
use eleeveon_schools_backend.RecordStore.{
  Row, Payload, in_scope, can_access, assert_scope, is_listed, list, create, new_row, update,
  has_cloud_id, patch_row,
}

module _ {Body : Type 0} where
  pub list-eq-ok :
      (user : AuthUser) (deleted : Bool) (school branch : Option String)
      (rows listed : List (Row Body))
      → list user deleted school branch rows ≡ ok listed
      → listed ≡ filter (is_listed user deleted school branch) rows
  unfolding list
  list-eq-ok user deleted school branch rows listed h = sym (
      ok_injective _ _ (
        (guard-eq-ok (assert_same_account_or_developer user (some user.account_id))
          (ok (filter (is_listed user deleted school branch) rows)) h).1))

  pub create-eq-ok :
      (user : AuthUser) (id : String) (payload : Payload Body) (rows end : List (Row Body))
      (r : Row Body)
      → create user id payload rows ≡ ok (r, end)
      → (can_access user payload.school_id payload.branch_id ≡ true)
        × ((r ≡ new_row user id payload) × (end ≡ new_row user id payload ∷ rows))
  unfolding create assert_scope
  create-eq-ok user id payload rows end r h =
      let (guarded, done) =
        guard-eq-ok (assert_scope user payload.school_id payload.branch_id)
          (ok (new_row user id payload, new_row user id payload ∷ rows)) h in
      let (_, open_door) =
        guard-eq-ok (assert_same_account_or_developer user (some user.account_id))
          (throw_if (not (can_access user payload.school_id payload.branch_id)) forbidden)
          guarded in
      let made = ok_injective _ _ done in
      (ground arith, (ap (λ p. p.0) (sym made), ap (λ p. p.1) (sym made)))

  pub update-eq-ok :
      (user : AuthUser) (id : String) (change : Row Body → Row Body) (rows end : List (Row Body))
      (r : Row Body)
      → update user id change rows ≡ ok (r, end)
      → end ≡ map (patch_row user id change) rows
  unfolding update
  update-eq-ok user id change rows end r h =
      let (existing, found, h1) =
        bind-eq-ok (or_throw (find (has_cloud_id user id) rows) not_found) _ h in
      let (_, h2) = guard-eq-ok (assert_scope user existing.school_id existing.branch_id) _ h1 in
      sym (ap (λ p. p.1) (ok_injective _ _ h2))

  pub create-reached :
      (user : AuthUser) (id : String) (payload : Payload Body) (rows : List (Row Body))
      → assert_same_account_or_developer user (some user.account_id) ≡ ok tt
      → can_access user payload.school_id payload.branch_id ≡ true
      → create user id payload rows ≡ ok (new_row user id payload, new_row user id payload ∷ rows)
  unfolding create assert_scope
  create-reached user id payload rows account reached = rw account (rw reached refl)

  pub update-missing :
      (user : AuthUser) (id : String) (change : Row Body → Row Body) (rows : List (Row Body))
      → find (has_cloud_id user id) rows ≡ none
      → update user id change rows ≡ err not_found
  unfolding update
  update-missing user id change rows missing = rw missing refl

-- A row of the account, in a school and branch that the session may reach and that were asked
-- for, and not deleted unless such rows were asked for too.
abbrev pub IsReached :
    {Body : Type 0} → AuthUser → Bool → Option String → Option String → Row Body → Type 0
IsReached user deleted school branch r =
    (r.account_id ≡ user.account_id)
    × ((can_access user r.school_id r.branch_id ≡ true)
        × ((in_scope school r.school_id ≡ true) × (in_scope branch r.branch_id ≡ true)))
    × ((deleted ≡ true) ⊎ (r.is_deleted ≡ false))

kept :
    (deleted is_deleted : Bool)
    → (deleted || not is_deleted) ≡ true
    → (deleted ≡ true) ⊎ (is_deleted ≡ false)
kept true b h = inl refl
kept false true h = cc
kept false false h = inr refl

filter-IsReached :
    {Body : Type 0} (user : AuthUser) (deleted : Bool) (school branch : Option String)
    (rows : List (Row Body))
    → All
        (IsReached user deleted school branch)
        (filter (is_listed user deleted school branch) rows)
filter-IsReached user deleted school branch [] = tt
filter-IsReached user deleted school branch (r ∷ rows) =
    elim (Bool-cases (is_listed user deleted school branch r)) [
      | inl e ↦
          let account = (eq_iff r.account_id user.account_id).0 (ground arith) in
          rw e (
            (
              account,
              (ground arith, (ground arith, ground arith)),
              kept deleted r.is_deleted (ground arith),
            ),
            filter-IsReached user deleted school branch rows,
          )
      | inr e ↦ rw e (filter-IsReached user deleted school branch rows)
    ]

-- Every row that is listed is a row of the account of the session, lies in a school and branch that
-- the session may reach and in those that were asked for, and is not deleted unless deleted rows
-- were asked for.
pub list_is_scoped :
    {Body : Type 0} (user : AuthUser) (deleted : Bool) (school branch : Option String)
    (rows listed : List (Row Body))
    → list user deleted school branch rows ≡ ok listed
    → All (IsReached user deleted school branch) listed
list_is_scoped user deleted school branch rows listed h =
    let e = list-eq-ok user deleted school branch rows listed h in
    rw e (filter-IsReached user deleted school branch rows)
