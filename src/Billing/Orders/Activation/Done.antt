-- ===== src/Billing/Orders/Activation/Done.antt =====
-- A payment callback that succeeds leaves its order applied.
use eleeveon_schools_backend.Prelude.{
  ℕ, ◌≡◌, refl, ap, ◌∙◌, inl, inr, String, Bool, true, false, Option, none, some, find, any, map,
  if◌then◌else◌, arith, Bool-cases, eq_iff,
}
use eleeveon_schools_backend.Slices.{find-true, find-map_if}
use eleeveon_schools_backend.Result.{
  or_throw, or_throw-eq-ok, ok, not_found, ◌>>=◌, ◌>>◌, bind-eq-ok,
}
use eleeveon_schools_backend.Billing.Orders.{
  paid, Order, Tables, has_id, find_order, is_applied, is_pending, same_status,
}
use eleeveon_schools_backend.Billing.Orders.Activation.{
  Environment, mark_applied, activate, check_apply, apply_order, apply, check_settled, promote,
  promote_after, promotable, apply_paid,
}

-- The order is there, applied.
abbrev pub IsDone : String → Tables → Type 0
IsDone id db = (o : Order) × (find_order id db ≡ some o) × (is_applied o.status ≡ true)

activate-IsDone :
    (now : ℕ) (payment by : Option String) (id : String) (order : Order) (db : Tables)
    → find_order id db ≡ some order
    → IsDone id (activate now payment by order db)
unfolding activate
activate-IsDone now payment by id order db h =
    let same : order.id ≡ id = (eq_iff order.id id).0 (find-true (has_id id) db.orders order h) in
    (
      mark_applied now payment by order,
      ap
            (λ key.
              find (has_id id)
                (map (λ r. if has_id key r then mark_applied now payment by r else r) db.orders))
            same
          ∙ find-map_if (has_id id) (mark_applied now payment by) db.orders order (λ r. refl) h,
      refl,
    )

apply-IsDone :
    (env : Environment) (now : ℕ) (payment by : Option String) (id : String) (db after : Tables)
    → apply env now payment by id db ≡ ok after
    → IsDone id after
unfolding apply
apply-IsDone env now payment by id db after h =
    let (order, found, applied_or) = bind-eq-ok (or_throw (find_order id db) not_found) _ h in
    let here = or_throw-eq-ok (find_order id db) not_found order found in
    elim (Bool-cases (is_applied order.status)) [
      | inl done ↦ let same : db ≡ after = ground arith in rw (← same) (order, here, done)
      | inr new ↦
          let (_, _, same) =
            bind-eq-ok (check_apply env order db) (λ _. ok (activate now payment by order db))
              (fresh order new applied_or) in
          let e : activate now payment by order db ≡ after = ground arith in
          rw (← e) (activate-IsDone now payment by id order db here)
    ]
  where
    fresh :
        (order : Order)
        → is_applied order.status ≡ false
        → apply_order env now payment by order db ≡ ok after
        → (check_apply env order db >> ok (activate now payment by order db)) ≡ ok after
    fresh order new e = rw new at e

promote-IsDone :
    (now : ℕ) (order : Order) (db promoted : Tables)
    → promote now order db ≡ ok (promoted, true)
    → IsDone order.id promoted
unfolding promote
promote-IsDone now order db promoted h = elim (Bool-cases (is_pending order.status)) [
  | inr e ↦ absurd (ground arith)
  | inl e ↦ elim (Bool-cases (any (promotable order) db.orders)) [
    | inl claim ↦ absurd (ground arith)
    | inr late ↦ after_late (find_order order.id db) refl (ground arith)
  ]
]
  where
    after_late :
        (o : Option Order)
        → find_order order.id db ≡ o
        → promote_after o db ≡ ok (promoted, true)
        → IsDone order.id promoted
    after_late none found e = cc
    after_late (some fresh) found e = elim (Bool-cases (is_applied fresh.status)) [
      | inl done ↦ let same : db ≡ promoted = ground arith in rw (← same) (fresh, found, done)
      | inr new ↦ absurd (elim (Bool-cases (same_status fresh.status paid)) [
        | inl p ↦ ground arith
        | inr p ↦ ground arith
      ])
    ]

pub apply_paid-IsDone :
    (env : Environment) (now : ℕ) (by : Option String) (id : String) (db after : Tables)
    → apply_paid env now by id db ≡ ok after
    → IsDone id after
unfolding apply_paid
apply_paid-IsDone env now by id db after h =
    let (order, found, rest) = bind-eq-ok (or_throw (find_order id db) not_found) _ h in
    let here = or_throw-eq-ok (find_order id db) not_found order found in
    let same_id : order.id ≡ id =
      (eq_iff order.id id).0 (find-true (has_id id) db.orders order here) in
    elim (Bool-cases (is_applied order.status)) [
      | inl done ↦ let same : db ≡ after = ground arith in rw (← same) (order, here, done)
      | inr new ↦ rw (← same_id) (settle order (rw new at rest))
    ]
  where
    continue :
        (order : Order) (promoted : Tables) (done : Bool)
        → promote now order db ≡ ok (promoted, done)
        → (if done then ok promoted else apply env now order.payment_id by order.id promoted)
          ≡ ok after
        → IsDone order.id after
    continue order promoted true p e =
        let same : promoted ≡ after = ground arith in
        rw (← same) (promote-IsDone now order db promoted p)
    continue order promoted false p e =
        apply-IsDone env now order.payment_id by order.id promoted after e

    settle :
        (order : Order)
        → (check_settled order db >>= λ _.
            (promote now order db >>= λ (promoted, done).
            if done then ok promoted else apply env now order.payment_id by order.id promoted))
          ≡ ok after
        → IsDone order.id after
    settle order e =
        let (_, _, next) = bind-eq-ok (check_settled order db) _ e in
        let ((promoted, done), p, last) = bind-eq-ok (promote now order db) _ next in
        continue order promoted done p last
