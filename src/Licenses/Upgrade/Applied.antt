-- ===== src/Licenses/Upgrade/Applied.antt =====
-- The orders in which offers may be made, paid, applied and cancelled.
use eleeveon_schools_backend.Prelude.{
  ◌≡◌, refl, ap, sym, ◌∙◌, ℕ, String, true, Option, some, ◌∷◌, ◌===◌, find, inl, inr, Bool-cases,
  eq_iff, eq_refl,
}
use eleeveon_schools_backend.Slices.{find-change_first, find-true}
use eleeveon_schools_backend.Result.{
  ok, not_found, error, or_throw, guard-eq-ok, bind-eq-ok, or_throw-eq-ok, ok_injective,
}
use eleeveon_schools_backend.Roles.Scope.{AuthUser, require_commercial_operator}
use eleeveon_schools_backend.Billing.Orders.{Payment}
use eleeveon_schools_backend.Licenses.Perpetual.{
  PerpetualLicense, Plan, Offer, Tables, find_license, find_plan,
}
use eleeveon_schools_backend.Licenses.Upgrade.{
  OfferRequest, create_offer, has_id, find_offer, update_offer, mark_payment_pending, mark_paid,
  as_applied, change_license, check_apply, apply_offer, apply, cancel,
}
use eleeveon_schools_backend.Licenses.Upgrade.Settled.{change_license-offers}

-- what may happen to the tables: a request that is answered, or a payment that comes in
pub data Step (db : Tables) : Tables → Type 0 where
  offered :
      (id : String) (now : ℕ) (actor : AuthUser) (dto : OfferRequest) (end : Tables)
      → create_offer id now actor dto db ≡ ok end
      → Step db end
  pending :
      (id invoice payment : String) (end : Tables)
      → mark_payment_pending id invoice payment db ≡ ok end
      → Step db end
  marked :
      (now : ℕ) (id : String) (payment : Option String) (actor : AuthUser) (end : Tables)
      → mark_paid now id payment actor db ≡ ok end
      → Step db end
  changed :
      (now : ℕ) (id : String) (actor : AuthUser) (end : Tables)
      → apply now id actor db ≡ ok end
      → Step db end
  withdrawn :
      (id : String) (actor : AuthUser) (end : Tables) → cancel id actor db ≡ ok end → Step db end
  received : (payment : Payment) → Step db (record db { payments = payment ∷ db.payments })

pub data Reach (db : Tables) : Tables → Type 0 where
  start : Reach db db
  next : {between end : Tables} → Reach db between → Step between end → Reach db end

-- what `apply` does when it does not throw: nothing for an offer that is applied, and else a
-- change of the licence and of the offer that was found
pub data IsApplied (now : ℕ) (id : String) (actor : AuthUser) (db : Tables) : Tables → Type 0 where
  as_it_was :
      (o : Offer) → find_offer id db ≡ some o → o.status ≡ "applied" → IsApplied now id actor db db
  newly :
      (o : Offer) (held : PerpetualLicense) (plan : Plan)
      → require_commercial_operator actor ≡ ok tt
      → find_offer id db ≡ some o
      → check_apply now o ≡ ok tt
      → IsApplied now id actor db
          (update_offer o.id (as_applied now actor.id) (change_license now o plan held db))

apply_offer-IsApplied :
    (now : ℕ) (id : String) (actor : AuthUser) (db end : Tables) (o : Offer)
    → require_commercial_operator actor ≡ ok tt
    → find_offer id db ≡ some o
    → apply_offer now actor o db ≡ ok end
    → IsApplied now id actor db end
unfolding apply_offer
apply_offer-IsApplied now id actor db end o operator found h =
    let (checked, h1) = guard-eq-ok (check_apply now o) _ h in
    let (held, _, h2) = bind-eq-ok (or_throw (find_license o.license_id db) error) _ h1 in
    let (plan, _, h3) = bind-eq-ok (or_throw (find_plan o.to_plan_id db) error) _ h2 in
    rw
      (← ok_injective
        (update_offer o.id (as_applied now actor.id) (change_license now o plan held db)) end h3)
      (newly o held plan operator found checked)

pub apply-IsApplied :
    (now : ℕ) (id : String) (actor : AuthUser) (db end : Tables)
    → apply now id actor db ≡ ok end
    → IsApplied now id actor db end
unfolding apply
apply-IsApplied now id actor db end h =
    let (operator, h1) = guard-eq-ok (require_commercial_operator actor) _ h in
    let (o, there, h2) = bind-eq-ok (or_throw (find_offer id db) not_found) _ h1 in
    let found = or_throw-eq-ok (find_offer id db) not_found o there in
    elim (Bool-cases (o.status === "applied")) [
      | inl e ↦
          let same : ok db ≡ ok end = rw e at h2 in
          rw (← ok_injective db end same) (as_it_was o found ((eq_iff o.status "applied").0 e))
      | inr e ↦ apply_offer-IsApplied now id actor db end o operator found (rw e at h2)
    ]

-- an offer that is applied already
apply-applied :
    (later : ℕ) (id : String) (actor : AuthUser) (db : Tables) (o : Offer)
    → require_commercial_operator actor ≡ ok tt
    → find_offer id db ≡ some o
    → (o.status === "applied") ≡ true
    → apply later id actor db ≡ ok db
unfolding apply
apply-applied later id actor db o operator found e = rw operator (rw found (rw e refl))

applied_again :
    {now : ℕ} {id : String} {actor : AuthUser} {db end : Tables}
    → (later : ℕ) → require_commercial_operator actor ≡ ok tt
    → IsApplied now id actor db end
    → apply later id actor end ≡ ok end
applied_again {id} {actor} {db} later operator (as_it_was o found e) =
    apply-applied later id actor db o operator found ((eq_iff o.status "applied").1 e)
applied_again {now} {id} {actor} {db} later operator (newly o held plan _ found checked) =
    let (offers, _) = change_license-offers now o plan held db in
    let own : o.id ≡ id = (eq_iff o.id id).0 (find-true (has_id id) db.offers o found) in
    let there : find_offer o.id (change_license now o plan held db) ≡ some o =
      ap (λ rows. find (has_id o.id) rows) offers ∙ ap (λ x. find_offer x db) own ∙ found in
    let changed_offer = as_applied now actor.id o in
    let end = update_offer o.id (as_applied now actor.id) (change_license now o plan held db) in
    let found_again : find_offer o.id end ≡ some changed_offer =
      find-change_first (has_id o.id) (as_applied now actor.id)
        ((change_license now o plan held db).offers) o there (eq_refl o.id) in
    apply-applied later id actor end changed_offer operator
      (ap (λ x. find_offer x end) (sym own) ∙ found_again) refl

-- Applying an offer again, at any later time, changes nothing: after an `apply` that did not throw
-- the same request leaves the tables as they are.
pub apply_twice :
    (now later : ℕ) (id : String) (actor : AuthUser) (db end : Tables)
    → apply now id actor db ≡ ok end
    → apply later id actor end ≡ ok end
unfolding apply
apply_twice now later id actor db end h =
    let (operator, _) = guard-eq-ok (require_commercial_operator actor) _ h in
    applied_again later operator (apply-IsApplied now id actor db end h)
