-- ===== src/Permissions/Locked.antt =====
-- Rules that are locked, and what only a developer may do to them.
use eleeveon_schools_backend.Prelude.{
  ◌≡◌, refl, ap, ◌∙◌, String, Bool, true, false, not, ◌&&◌, Option, some, List, [], ◌∷◌, any, find,
  filter, change_first, arith, inl, inr, Bool-cases, if◌then◌else◌,
}
use eleeveon_schools_backend.Slices.{find-true, find-change_first}
use eleeveon_schools_backend.Result.{
  ok, forbidden, not_found, or_throw, bind-eq-ok, guard-eq-ok, or_throw-eq-ok, throw_if-eq-ok,
  ok_injective,
}
use eleeveon_schools_backend.Roles.{is_developer}
use eleeveon_schools_backend.Roles.Scope.{AuthUser, assert_same_account_or_developer}
use eleeveon_schools_backend.Permissions.{
  Rule, Change, changed, is_rule_of, target_account, assert_can_manage, has_id, check_existing,
  create, remove, without_first,
}

abbrev pub is_locked : Rule → Bool
is_locked r = r.locked

check_existing-unlocked :
    (actor : AuthUser) (id : String) (rules : List Rule) (existing : Rule)
    → is_developer (some actor.role) ≡ false
    → check_existing actor id rules ≡ ok existing
    → (find (has_id id) rules ≡ some existing) × (existing.locked ≡ false)
unfolding check_existing
check_existing-unlocked actor id rules existing outsider h =
    let (_, h1) = guard-eq-ok (assert_can_manage actor) _ h in
    let (r, there, h2) = bind-eq-ok (or_throw (find (has_id id) rules) not_found) _ h1 in
    let (_, h3) = guard-eq-ok (assert_same_account_or_developer actor (some r.account_id)) _ h2 in
    let (open_rule, h4) =
      throw_if-eq-ok (r.locked && not (is_developer (some actor.role))) forbidden (ok r) h3 in
    let same : r ≡ existing = ok_injective _ _ h4 in
    let unlocked : r.locked ≡ false = and_true-false r.locked (rw outsider at open_rule) in
    (or_throw-eq-ok (find (has_id id) rules) not_found r there ∙ ap some same, rw same at unlocked)
  where
    and_true-false : (b : Bool) → (b && true) ≡ false → b ≡ false
    and_true-false true e = e
    and_true-false false e = refl

without_first-locked :
    (p : Rule → Bool) (rules : List Rule) (existing : Rule)
    → find p rules ≡ some existing
    → existing.locked ≡ false
    → filter is_locked (without_first p rules) ≡ filter is_locked rules
without_first-locked p [] existing found unlocked = refl
without_first-locked p (r ∷ rules) existing found unlocked = elim (Bool-cases (p r)) [
  | inl e ↦
      let same : r ≡ existing = ground arith in
      let plain : r.locked ≡ false = rw same unlocked in rw e (rw plain refl)
  | inr e ↦ rw e (
      ap (λ rest. if r.locked then r ∷ rest else rest)
        (without_first-locked p rules existing (rw e at found) unlocked))
]

-- Someone who is no developer removes no rule that is locked: the locked rules after a removal
-- that did not throw are those before it.
pub remove-locked :
    (actor : AuthUser) (id : String) (rules end : List Rule)
    → is_developer (some actor.role) ≡ false
    → remove actor id rules ≡ ok end
    → filter is_locked end ≡ filter is_locked rules
unfolding remove
remove-locked actor id rules end outsider h =
    let (existing, checked, h1) = bind-eq-ok (check_existing actor id rules) _ h in
    let (found, unlocked) = check_existing-unlocked actor id rules existing outsider checked in
    rw (← ok_injective (without_first (has_id id) rules) end h1)
      (without_first-locked (has_id id) rules existing found unlocked)

any-found :
    (p : Rule → Bool) (rules : List Rule) (r : Rule) → find p rules ≡ some r → any p rules ≡ true
any-found p [] r h = cc
any-found p (x ∷ rules) r h = elim (Bool-cases (p x)) [
  | inl e ↦ rw e refl
  | inr e ↦ rw e (any-found p rules r (rw e at h))
]

-- A rule that is locked can be unlocked by creating it again: for any actor who may manage rules
-- and reaches the account, `create` with the key of a rule that is there and a request that is not
-- locked does not throw, and the rule is then not locked.
pub locked_rule_is_unlocked :
    (id key : String) (actor : AuthUser) (dto : Change) (account : Option String)
    (rules : List Rule) (rule : Rule)
    → assert_can_manage actor ≡ ok tt
    → assert_same_account_or_developer actor (some (target_account actor account)) ≡ ok tt
    → find (is_rule_of (target_account actor account) key) rules ≡ some rule
    → dto.locked ≡ some false
    → (end : List Rule) × (after : Rule) × (create id actor key dto account rules ≡ ok end)
      × (find (is_rule_of (target_account actor account) key) end ≡ some after)
      × (after.locked ≡ false)
unfolding create
locked_rule_is_unlocked id key actor dto account rules rule manages reaches there unlocks =
    let owned = is_rule_of (target_account actor account) key in
    (
      change_first owned (changed dto) rules,
      changed dto rule,
      rw manages (rw reaches (rw (any-found owned rules rule there) refl)),
      find-change_first owned (changed dto) rules rule there (find-true owned rules rule there),
      rw unlocks refl,
    )
