-- ===== src/Billing/Orders/Activation/Repeated.antt =====
-- Repeated payment callbacks activate an order once.
use eleeveon_schools_backend.Prelude.{
  ℕ, ◌≡◌, refl, ap, ◌∙◌, inl, inr, String, Bool, true, false, Option, none, some, List, [], ◌∷◌,
  ◌===◌, find, any, map, get_or, if◌then◌else◌, arith, Bool-cases,
}
use eleeveon_schools_backend.Result.{or_throw, ok, not_found, bind-eq-ok, guard-eq-ok, ok_injective}
use eleeveon_schools_backend.Billing.Orders.{
  paid, Order, Tables, has_id, find_order, is_applied, is_pending, same_status, OrderStatus,
}
use eleeveon_schools_backend.Billing.Orders.Activation.{
  Environment, mark_applied, activate, check_apply, apply, check_settled, promote, promote_after,
  promotable, apply_paid,
}
use eleeveon_schools_backend.Billing.Orders.Activation.Done.{IsDone, apply_paid-IsDone}

find-map :
    (id : String) (change : Order → Order) (rows : List Order) (o : Order)
    → ((r : Order) → has_id id (change r) ≡ has_id id r)
    → find (has_id id) rows ≡ some o
    → find (has_id id) (map change rows) ≡ some (change o)
find-map id change [] o keeps h = cc
find-map id change (r ∷ rows) o keeps h = elim (Bool-cases (has_id id r)) [
  | inl e ↦
      let same : r ≡ o = ground arith in
      let kept : has_id id (change r) ≡ true = keeps r ∙ e in
      rw kept (ap (λ z. some (change z)) same)
  | inr e ↦
      let kept : has_id id (change r) ≡ false = keeps r ∙ e in
      rw kept (find-map id change rows o keeps (rw e at h))
]

-- the change of the rows that a test picks
abbrev where_true : (Order → Bool) → (Order → Order) → Order → Order
where_true p change r = if p r then change r else r

where_true-id :
    (id : String) (p : Order → Bool) (change : Order → Order) (r : Order)
    → (change r).id ≡ r.id
    → has_id id (where_true p change r) ≡ has_id id r
where_true-id id p change r same = elim (Bool-cases (p r)) [
  | inl e ↦ rw e (ap (λ key. key === id) same)
  | inr e ↦ rw e refl
]

-- An order that is applied stays so under a change that keeps ids and such orders' status.
map-IsDone :
    (id : String) (p : Order → Bool) (change : Order → Order) (db : Tables)
    → ((r : Order) → (change r).id ≡ r.id)
    → ((r : Order) → is_applied r.status ≡ true → is_applied (where_true p change r).status ≡ true)
    → IsDone id db
    → IsDone id (record db { orders = map (where_true p change) db.orders })
map-IsDone id p change db ids keeps (o, found, done) = (
  where_true p change o,
  find-map id (where_true p change) db.orders o (λ r. where_true-id id p change r (ids r)) found,
  keeps o done,
)

marked-applied :
    (now : ℕ) (payment by : Option String) (key : String) (r : Order)
    → is_applied r.status ≡ true
    → is_applied (where_true (has_id key) (mark_applied now payment by) r).status ≡ true
marked-applied now payment by key r done = elim (Bool-cases (has_id key r)) [
  | inl e ↦ rw e refl
  | inr e ↦ rw e done
]

activate-keeps :
    (id : String) (now : ℕ) (payment by : Option String) (order : Order) (db : Tables)
    → IsDone id db
    → IsDone id (activate now payment by order db)
unfolding activate
activate-keeps id now payment by order db done =
    map-IsDone id (has_id order.id) (mark_applied now payment by) db (λ r. refl)
      (marked-applied now payment by order.id) done

apply-keeps :
    (env : Environment) (now : ℕ) (payment by : Option String) (key id : String) (db after : Tables)
    → IsDone id db
    → apply env now payment by key db ≡ ok after
    → IsDone id after
unfolding apply
apply-keeps env now payment by key id db after done h =
    let (order, _, rest) = bind-eq-ok (or_throw (find_order key db) not_found) _ h in
    elim (Bool-cases (is_applied order.status)) [
      | inl e ↦ rw (← ok_injective db after (rw e at rest)) done
      | inr e ↦
          let (_, written) = guard-eq-ok (check_apply env order db) _ (rw e at rest) in
          rw (← ok_injective (activate now payment by order db) after written)
            (activate-keeps id now payment by order db done)
    ]

abbrev as_paid : ℕ → Order → Order → Order
as_paid now order o = record o { status = paid; paid_at = some (get_or order.paid_at now) }

-- an applied order is not pending
promoted-applied :
    (now : ℕ) (order r : Order)
    → is_applied r.status ≡ true
    → is_applied (where_true (promotable order) (as_paid now order) r).status ≡ true
promoted-applied now order r done =
    let settled = not_pending r.status done in
    let unclaimed : promotable order r ≡ false = ground arith in rw unclaimed done
  where
    not_pending : (s : OrderStatus) → is_applied s ≡ true → is_pending s ≡ false
    not_pending s e = ground arith

promote-keeps :
    (id : String) (now : ℕ) (order : Order) (db promoted : Tables) (ended : Bool)
    → IsDone id db
    → promote now order db ≡ ok (promoted, ended)
    → IsDone id promoted
unfolding promote
promote-keeps id now order db promoted ended done h = elim (Bool-cases (is_pending order.status)) [
  | inr e ↦ let same : db ≡ promoted = ground arith in rw (← same) done
  | inl e ↦ elim (Bool-cases (any (promotable order) db.orders)) [
    | inl claim ↦
        let same : record db {
          orders = map (where_true (promotable order) (as_paid now order)) db.orders;
        }
            ≡ promoted =
          ground arith in
        rw (← same) (
          map-IsDone id (promotable order) (as_paid now order) db (λ r. refl)
            (promoted-applied now order) done)
    | inr late ↦ after_late (find_order order.id db) (rw late at (rw e at h))
  ]
]
  where
    after_late : (o : Option Order) → promote_after o db ≡ ok (promoted, ended) → IsDone id promoted
    after_late none k = cc
    after_late (some fresh) k = elim (Bool-cases (is_applied fresh.status)) [
      | inl f ↦ let same : db ≡ promoted = ground arith in rw (← same) done
      | inr f ↦ elim (Bool-cases (same_status fresh.status paid)) [
        | inl g ↦ let same : db ≡ promoted = ground arith in rw (← same) done
        | inr g ↦ absurd (ground arith)
      ]
    ]

apply_paid-keeps :
    (env : Environment) (now : ℕ) (by : Option String) (key id : String) (db after : Tables)
    → IsDone id db
    → apply_paid env now by key db ≡ ok after
    → IsDone id after
unfolding apply_paid
apply_paid-keeps env now by key id db after done h =
    let (order, _, rest) = bind-eq-ok (or_throw (find_order key db) not_found) _ h in
    elim (Bool-cases (is_applied order.status)) [
      | inl e ↦ rw (← ok_injective db after (rw e at rest)) done
      | inr e ↦
          let (_, next) = guard-eq-ok (check_settled order db) _ (rw e at rest) in
          let ((promoted, ended), p, last) = bind-eq-ok (promote now order db) _ next in
          continue order promoted ended (promote-keeps id now order db promoted ended done p) last
    ]
  where
    continue :
        (order : Order) (promoted : Tables) (ended : Bool)
        → IsDone id promoted
        → (if ended then ok promoted else apply env now order.payment_id by order.id promoted)
          ≡ ok after
        → IsDone id after
    continue order promoted true kept e = rw (← ok_injective promoted after e) kept
    continue order promoted false kept e =
        apply-keeps env now order.payment_id by order.id id promoted after kept e

-- any number of callbacks that succeed, each for an order of its own
pub data Callbacks (db : Tables) : Tables → Type 0 where
  none_yet : Callbacks db db
  callback :
      {between after : Tables}
      → Callbacks db between
      → (env : Environment) (now : ℕ) (by : Option String) (id : String)
      → apply_paid env now by id between ≡ ok after
      → Callbacks db after

Callbacks-IsDone :
    {db after : Tables} → (id : String) → IsDone id db → Callbacks db after → IsDone id after
Callbacks-IsDone id done none_yet = done
Callbacks-IsDone id done (callback {between} {after} before env now by key h) =
    apply_paid-keeps env now by key id between after (Callbacks-IsDone id done before) h

-- Once a payment callback for an order has succeeded, and after any number of further callbacks for
-- this and other orders, a callback for that order succeeds and changes nothing, at any time, from
-- anyone and under any configuration. Requests of other kinds that come between, such as a
-- scheduling of the order, are not covered.
pub repeated_callback_changes_nothing :
    (env again : Environment) (now later : ℕ) (by other : Option String) (id : String)
    (db first after : Tables)
    → apply_paid env now by id db ≡ ok first
    → Callbacks first after
    → apply_paid again later other id after ≡ ok after
unfolding apply_paid
repeated_callback_changes_nothing env again now later by other id db first after h between =
    let (o, found, done) =
      Callbacks-IsDone id (apply_paid-IsDone env now by id db first h) between in
    rw found (rw done refl)
