-- ===== src/Roles/Scope/Access.antt =====
-- What the scope checks let through.
use mathlib.Core.List.{Memᴰ}
use mathlib.Core.Option.{some-injective}
use eleeveon_schools_backend.Prelude.{
  String, ◌≡◌, refl, ap, ◌⊎◌, inl, inr, Bool, true, false, Option, none, some, List, [], ◌∷◌, arith,
  any, Bool-cases, eq_iff,
}
use eleeveon_schools_backend.Roles.{AppRole, role_text, same_role, normalize_role}
use eleeveon_schools_backend.Roles.Canonical.{normalize_role-role_text}
use eleeveon_schools_backend.Roles.Scope.{
  AuthMembership, AuthUser, truthy, first_truthy, is_false, is_role, id_matches, grants,
  is_privileged, access_as, user_can_access_school_branch,
}

any-true {ℓ} :
    {A : Type ℓ} (p : A → Bool) (xs : List A) → any p xs ≡ true → (x : A) × Memᴰ x xs × (p x ≡ true)
any-true p [] h = cc
any-true p (x ∷ xs) h = elim (Bool-cases (p x)) [
  | inl e ↦ (x, Memᴰ.head refl, e)
  | inr e ↦ let (y, m, q) = any-true p xs (ground arith) in (y, Memᴰ.tail m, q)
]

same_role→eq : (a b : AppRole) → same_role a b ≡ true → a ≡ b
same_role→eq a b h = some-injective _ _ (
    cc (
      normalize_role-role_text a,
      normalize_role-role_text b,
      ap (λ (s : String). normalize_role (some s)) ((eq_iff (role_text a) (role_text b)).0 h),
    ))

is_role→eq : (r : AppRole) (o : Option AppRole) → is_role r o ≡ true → o ≡ some r
is_role→eq r none h = cc
is_role→eq r (some q) h = ap some (same_role→eq q r h)

-- A wanted id fits the one that a membership holds: either is unset, or they are the same.
abbrev pub Fits : Option String → Option String → Type 0
Fits wanted held = (truthy wanted ≡ false) ⊎ (truthy held ≡ false) ⊎ (wanted ≡ held)

id_matches→Fits : (w h : Option String) → id_matches w h ≡ true → Fits w h
id_matches→Fits none h e = inl refl
id_matches→Fits (some w) none e = inr (inl refl)
id_matches→Fits (some w) (some h) e = ground (arith, eq_iff h w)

-- An active membership of the user, in the wanted role, whose school and branch fit.
pub record Permits (user : AuthUser) (role : AppRole) (school_id branch_id : Option String)
    : Type 0 where
  pub membership : AuthMembership
  pub listed : Memᴰ membership user.memberships
  pub not_inactive : is_false membership.active ≡ false
  pub in_role : normalize_role (some membership.role) ≡ some role
  pub school : Fits school_id membership.school_id
  pub branch : Fits branch_id membership.branch_id

grants→Permits :
    (u : AuthUser) (r : AppRole) (s b : Option String) (m : AuthMembership)
    → Memᴰ m u.memberships
    → grants r s b m ≡ true
    → Permits u r s b
grants→Permits u r s b m i h = record {
  membership = m;
  listed = i;
  not_inactive = ground arith;
  in_role = is_role→eq r (normalize_role (some m.role)) (ground arith);
  school = id_matches→Fits s m.school_id (ground arith);
  branch = id_matches→Fits b m.branch_id (ground arith);
}

-- Access to a school and branch is granted only to a role that normalises, and then only to a
-- privileged one or through an active membership of the user in that very role whose school and
-- branch are unset, unasked for, or the wanted ones.
pub user_can_access_sound :
    (user : AuthUser) (role school_id branch_id : Option String)
    → user_can_access_school_branch user role school_id branch_id ≡ true
    → (r : AppRole) × (normalize_role (first_truthy role (some user.role)) ≡ some r)
      × ((is_privileged r ≡ true) ⊎ Permits user r school_id branch_id)
unfolding user_can_access_school_branch
user_can_access_sound user role s b h =
    access_sound (normalize_role (first_truthy role (some user.role))) h
  where
    access_sound :
        (o : Option AppRole)
        → access_as o user s b ≡ true
        → (r : AppRole) × (o ≡ some r) × ((is_privileged r ≡ true) ⊎ Permits user r s b)
    access_sound none e = cc
    access_sound (some r) e = (
      r,
      refl,
      elim (Bool-cases (is_privileged r)) [
        | inl p ↦ inl p
        | inr n ↦
            let (m, i, g) = any-true (grants r s b) user.memberships (ground arith) in
            inr (grants→Permits user r s b m i g)
      ],
    )
