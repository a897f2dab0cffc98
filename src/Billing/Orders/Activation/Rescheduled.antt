-- ===== src/Billing/Orders/Activation/Rescheduled.antt =====
-- Scheduling does not look at the status of an order.
use eleeveon_schools_backend.Prelude.{
  ℕ, suc, ◌≡◌, refl, ap, ◌∙◌, inl, inr, String, Bool, true, Option, none, some, List, [], ◌∷◌, find,
  any, map, if◌then◌else◌, arith, Bool-cases, eq_iff, eq_refl,
}
use eleeveon_schools_backend.Slices.{find-true, find-map_if}
use eleeveon_schools_backend.Result.{ok}
use eleeveon_schools_backend.Billing.StudentPricing.{StudentPricing}
use eleeveon_schools_backend.Billing.Orders.{
  scheduled, Order, Subscription, Tables, has_id, find_order, update_order, is_applied, is_fixed,
  pricing_of_plan, of_account, schedule, schedule_downgrade,
}
use eleeveon_schools_backend.Billing.Orders.Activation.{
  Environment, activate, check_payment, check_apply, apply, renewed, upsert_subscription,
}

any-find {ℓ} :
    {A : Type ℓ} (p : A → Bool) (xs : List A) (x : A) → find p xs ≡ some x → any p xs ≡ true
any-find p [] x h = cc
any-find p (y ∷ ys) x h = elim (Bool-cases (p y)) [
  | inl e ↦ rw e refl
  | inr e ↦ rw e (any-find p ys x (ground arith))
]

find-schedule :
    (order : Order) (rows : List Subscription) (s : Subscription)
    → find (of_account order.account_id) rows ≡ some s
    → find
        (of_account order.account_id)
        (map (λ r. if of_account order.account_id r then schedule order r else r) rows)
      ≡ some (schedule order s)
find-schedule order [] s h = cc
find-schedule order (r ∷ rows) s h = elim (Bool-cases (of_account order.account_id r)) [
  | inl e ↦ let same : r ≡ s = ground arith in rw e (rw e (ap (λ z. some (schedule order z)) same))
  | inr e ↦ rw e (rw e (find-schedule order rows s (ground arith)))
]

find-upsert :
    (order : Order) (rows : List Subscription) (s : Subscription)
    → find (of_account order.account_id) rows ≡ some s
    → find (of_account order.account_id) (upsert_subscription order rows)
      ≡ some (renewed order (suc s.entitlement_version))
unfolding upsert_subscription
find-upsert order [] s h = cc
find-upsert order (r ∷ rows) s h = elim (Bool-cases (of_account order.account_id r)) [
  | inl e ↦
      let same : r ≡ s = ground arith in
      rw e (
        rw (eq_refl order.account_id)
          (ap (λ (z : Subscription). some (renewed order (suc z.entitlement_version))) same))
  | inr e ↦ rw e (rw e (find-upsert order rows s (ground arith)))
]

abbrev pub reopened : Order → Order
reopened order = record order { status = scheduled }

abbrev rescheduled_db : Order → Tables → Tables
rescheduled_db order db =
    update_order order.id (λ o. record o { status = scheduled })
      (record db {
        subscriptions =
            map (λ s. if of_account order.account_id s then schedule order s else s)
              db.subscriptions;
      })

schedule_downgrade-ok :
    (id : String) (db : Tables) (order : Order) (s : Subscription)
    → find_order id db ≡ some order
    → order.change_type ≡ "downgrade"
    → order.effective_mode ≡ "period_end"
    → find (of_account order.account_id) db.subscriptions ≡ some s
    → schedule_downgrade id db ≡ ok (rescheduled_db order db)
unfolding schedule_downgrade
schedule_downgrade-ok id db order s found type mode subscribed = rw found (
    rw type
      (rw mode (rw (any-find (of_account order.account_id) db.subscriptions s subscribed) refl)))

find_rescheduled :
    (id : String) (db : Tables) (order : Order)
    → find_order id db ≡ some order
    → find_order id (rescheduled_db order db) ≡ some (reopened order)
find_rescheduled id db order found =
    let same : order.id ≡ id =
      (eq_iff order.id id).0 (find-true (has_id id) db.orders order found) in
    ap (λ key. find (has_id id) (map (λ r. if has_id key r then reopened r else r) db.orders)) same
    ∙ find-map_if (has_id id) reopened db.orders order (λ r. refl) found

apply_scheduled :
    (env : Environment) (now : ℕ) (by : Option String) (id : String) (db : Tables) (order : Order)
    (pricing : StudentPricing)
    → find_order id db ≡ some (reopened order)
    → order.amount_due ≡ 0
    → pricing_of_plan order.to_plan_id db ≡ ok pricing
    → is_fixed pricing.mode ≡ true
    → apply env now none by id db ≡ ok (activate now none by (reopened order) db)
unfolding apply check_apply check_payment
apply_scheduled env now by id db order pricing found free priced fixed =
    rw found (rw priced (rw fixed (rw free refl)))

-- An order that has been applied can be applied again: scheduling a period-end downgrade with
-- nothing to pay to a plan of fixed price succeeds although the order is applied, and the
-- application that follows counts the entitlement version of the account's subscription up once
-- more.
pub rescheduled_order_applies_again :
    (env : Environment) (now : ℕ) (by : Option String) (id : String) (db : Tables) (order : Order)
    (s : Subscription) (pricing : StudentPricing)
    → find_order id db ≡ some order
    → is_applied order.status ≡ true
    → order.change_type ≡ "downgrade"
    → order.effective_mode ≡ "period_end"
    → order.amount_due ≡ 0
    → pricing_of_plan order.to_plan_id db ≡ ok pricing
    → is_fixed pricing.mode ≡ true
    → find (of_account order.account_id) db.subscriptions ≡ some s
    → (between after : Tables) × (schedule_downgrade id db ≡ ok between)
      × (apply env now none by id between ≡ ok after)
      × (find (of_account order.account_id) after.subscriptions
          ≡ some (renewed order (suc s.entitlement_version)))
unfolding activate
rescheduled_order_applies_again env now by id db order s pricing found done type mode free priced
      fixed subscribed =
    (
      rescheduled_db order db,
      activate now none by (reopened order) (rescheduled_db order db),
      schedule_downgrade-ok id db order s found type mode subscribed,
      apply_scheduled env now by id (rescheduled_db order db) order pricing
          (find_rescheduled id db order found) free priced fixed,
      find-upsert (reopened order) (rescheduled_db order db).subscriptions (schedule order s)
          (find-schedule order db.subscriptions s subscribed),
    )
