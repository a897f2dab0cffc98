-- ===== src/Licenses/Activation/Slots.antt =====
-- A licence is never active on more devices than it allows.
use eleeveon_schools_backend.Prelude.{
  ℕ, suc, ◌≤◌, ◌≡◌, refl, sym, ap, ◌∙◌, inl, inr, String, Bool, true, false, not, ◌&&◌, ◌||◌,
  Option, none, some, List, [], ◌∷◌, ◌===◌, ◌!==◌, find, map, arith, Bool-cases, eq_iff, eq_refl,
}
use eleeveon_schools_backend.Result.{
  or_throw, or_throw-eq-ok, ok, bad_request, forbidden, not_found, conflict, throw_if, bind-eq-ok,
  throw_if-eq-ok,
}
use mathlib.Core.Option.{some-injective}
use eleeveon_schools_backend.Roles.Scope.{AuthUser}
use eleeveon_schools_backend.Slices.{find-true}
use eleeveon_schools_backend.Licenses.Activation.{
  Slot, License, Tables, is_slot, active_count, was_revoked, was_active, other_fingerprint,
  is_reached, upsert_slot, find_license, find_by_key_hash, reactivate, new_slot, check_slots,
  fill_slots, activate, close, may_deactivate, deactivate,
}

abbrev pub IsWithin : Option ℕ → ℕ → Type 0
IsWithin none count = Unit
IsWithin (some limit) count = count ≤ limit

abbrev one_more : Bool → ℕ → ℕ
one_more true count = count
one_more false count = suc count

module _ (license : License) (device hash : String) (token : Option String) (now : ℕ) where
  abbrev fill : List Slot → List Slot
  fill rows =
      upsert_slot license.id device (reactivate license device hash token now)
        (new_slot license device hash token now) rows

  -- Filling a slot counts one more, unless the slot was active already.
  active_count-fill :
      (rows : List Slot)
      → active_count license.id (fill rows)
        ≡ one_more
            (was_active (find (is_slot license.id device) rows))
            (active_count license.id rows)
  unfolding upsert_slot
  active_count-fill [] = ground (arith, eq_refl license.id)
  active_count-fill (s ∷ rows) = elim (Bool-cases (is_slot license.id device s)) [
    | inl e ↦
        let mine : (s.license_id === license.id) ≡ true = ground arith in
        rw e (rw mine (ground arith))
    | inr e ↦
        rw e (by_rest (was_active (find (is_slot license.id device) rows)) (active_count-fill rows))
  ]
    where
      by_rest :
          (b : Bool)
          → active_count license.id (fill rows) ≡ one_more b (active_count license.id rows)
          → active_count license.id (s ∷ fill rows)
            ≡ one_more b (active_count license.id (s ∷ rows))
      by_rest b h = ground arith

  -- A slot of another licence is not touched.
  active_count-fill_other :
      (other : String) (rows : List Slot)
      → (license.id === other) ≡ false
      → active_count other (fill rows) ≡ active_count other rows
  unfolding upsert_slot
  active_count-fill_other other [] h = ground arith
  active_count-fill_other other (s ∷ rows) h = elim (Bool-cases (is_slot license.id device s)) [
    | inl e ↦
        let same : s.license_id ≡ license.id = (eq_iff s.license_id license.id).0 (ground arith) in
        rw e (ground (arith, same, h))
    | inr e ↦ rw e (ground (arith, active_count-fill_other other rows h))
  ]

  fill-IsWithin :
      (limit : Option ℕ) (rows : List Slot)
      → IsWithin limit (active_count license.id rows)
      → (not (was_active (find (is_slot license.id device) rows))
          && is_reached limit (active_count license.id rows))
        ≡ false
      → IsWithin limit (active_count license.id (fill rows))
  fill-IsWithin none rows within left = tt
  fill-IsWithin (some limit) rows within left = ground (arith, active_count-fill rows)

or_throw-license : {A : Type 0} (o : Option A) (a : A) → or_throw o not_found ≡ ok a → o ≡ some a
or_throw-license none a h = cc
or_throw-license (some b) a h = ground arith

-- The licence has no more active rows than it allows, in either table.
abbrev pub IsWithinLimits : License → Tables → Type 0
IsWithinLimits license db =
    IsWithin license.activation_limit (active_count license.id db.activations)
    × IsWithin license.device_limit (active_count license.id db.devices)

module _ (license : License) (device hash token_hash : String) (now : ℕ) (db : Tables) where
  fill_slots-IsWithinLimits :
      check_slots license device hash token_hash now db ≡ ok tt
      → IsWithinLimits license db
      → IsWithinLimits license (fill_slots license device hash token_hash now db)
  unfolding check_slots
  fill_slots-IsWithinLimits h (a, d) =
      let activation = find (is_slot license.id device) db.activations in
      let registered = find (is_slot license.id device) db.devices in
      let (_, unrevoked) =
        throw_if-eq-ok (was_revoked activation || was_revoked registered) forbidden _ h in
      let (_, same) =
        throw_if-eq-ok (other_fingerprint activation hash || other_fingerprint registered hash)
          conflict _ unrevoked in
      let (activations, rest) =
        throw_if-eq-ok
          (not (was_active activation)
            && is_reached license.activation_limit (active_count license.id db.activations))
          conflict _ same in
      let devices =
        not_thrown
          (not (was_active registered)
            && is_reached license.device_limit (active_count license.id db.devices))
          rest in
      (
        fill-IsWithin license device hash (some token_hash) now license.activation_limit
            db.activations a activations,
        fill-IsWithin license device hash none now license.device_limit db.devices d devices,
      )
    where
      not_thrown : (b : Bool) → throw_if b conflict ≡ ok tt → b ≡ false
      not_thrown true e = cc
      not_thrown false e = refl

-- An activation that succeeds keeps every licence within its limits: no licence that had at most
-- as many active activations and active devices as it allows has more afterwards, the licence
-- that was activated included.
pub activate-IsWithinLimits :
    (key_hash device hash token_hash : String) (now : ℕ) (db after : Tables) (license : License)
    → activate key_hash device hash token_hash now db ≡ ok after
    → find_license license.id db ≡ some license
    → IsWithinLimits license db
    → IsWithinLimits license after
unfolding activate
activate-IsWithinLimits key_hash device hash token_hash now db after license h held within =
    let (key_record, _, read) = bind-eq-ok (find_by_key_hash key_hash db) _ h in
    let (used, locked, checked) =
      bind-eq-ok (or_throw (find_license key_record.id db) not_found) _ read in
    let (_, slots) = throw_if-eq-ok (used.status !== "active") bad_request _ checked in
    let (_, free, same) =
      bind-eq-ok (check_slots used device hash token_hash now db)
        (λ _. ok (fill_slots used device hash token_hash now db)) slots in
    let e : fill_slots used device hash token_hash now db ≡ after = ground arith in
    let found = or_throw-eq-ok (find_license key_record.id db) not_found used locked in
    rw (← e) (elim (Bool-cases (used.id === license.id)) [
      | inl mine ↦ of_used used (is_used used key_record.id found mine) free
      | inr other ↦ of_other used other
    ])
  where
    is_used :
        (used : License) (id : String)
        → find_license id db ≡ some used
        → (used.id === license.id) ≡ true
        → used ≡ license
    is_used used id found mine =
        let own : used.id ≡ id =
          (eq_iff used.id id).0 (find-true (λ (l : License). l.id === id) db.licenses used found) in
        let ours : used.id ≡ license.id = (eq_iff used.id license.id).0 mine in
        let key : id ≡ license.id = sym own ∙ ours in
        some-injective _ _ (sym found ∙ ap (λ k. find_license k db) key ∙ held)

    of_used :
        (used : License)
        → used ≡ license
        → check_slots used device hash token_hash now db ≡ ok tt
        → IsWithinLimits license (fill_slots used device hash token_hash now db)
    of_used used same free =
        let here : check_slots license device hash token_hash now db ≡ ok tt =
          ap (λ (l : License). check_slots l device hash token_hash now db) (sym same) ∙ free in
        rw same (fill_slots-IsWithinLimits license device hash token_hash now db here within)

    of_other :
        (used : License)
        → (used.id === license.id) ≡ false
        → IsWithinLimits license (fill_slots used device hash token_hash now db)
    of_other used other =
        rw
          (active_count-fill_other used device hash (some token_hash) now license.id db.activations
            other)
          (rw (active_count-fill_other used device hash none now license.id db.devices other)
            within)

active_count-close :
    (license device other : String) (time : Option ℕ) (rows : List Slot)
    → active_count other (map (close license device time) rows) ≤ active_count other rows
active_count-close license device other time [] = omega arith
active_count-close license device other time (s ∷ rows) =
    ground (arith, active_count-close license device other time rows)

-- A deactivation leaves no licence with more active activations or devices than before.
pub deactivate_frees :
    (id device : String) (actor : AuthUser) (now : ℕ) (db after : Tables) (other : String)
    → deactivate id device actor now db ≡ ok after
    → (active_count other after.activations ≤ active_count other db.activations)
      × (active_count other after.devices ≤ active_count other db.devices)
unfolding deactivate
deactivate_frees id device actor now db after other h =
    let (activation, _, next) =
      bind-eq-ok (or_throw (find (is_slot id device) db.activations) not_found) _ h in
    let (_, _, same) = bind-eq-ok (may_deactivate activation actor) _ next in
    let a : after.activations ≡ map (close id device (some now)) db.activations = ground arith in
    let d : after.devices ≡ map (close id device none) db.devices = ground arith in
    (
      rw a (active_count-close id device other (some now) db.activations),
      rw d (active_count-close id device other none db.devices),
    )
