-- ===== src/Billing/Orders/Activation.antt =====
-- src/billing/subscription-change.service.ts, `applyPaidChangeOrder` and `apply`: an order that is
-- paid or scheduled becomes the account's subscription. Each transaction is one step; between the
-- steps other requests may change the tables.
pub mod Settled
pub mod Done
pub mod Repeated
pub mod Rescheduled
use eleeveon_schools_backend.Prelude.{
  ℕ, suc, ◌+◌, ◌*◌, ◌<◌, String, Bool, true, false, not, ◌&&◌, ◌||◌, Option, none, some, get_or,
  coalesce, List, [], ◌∷◌, ◌===◌, ◌!==◌, ◌==ℕ◌, ltb, find, any, map, or_default, if◌then◌else◌,
}
use eleeveon_schools_backend.Text.{trim, to_lower_case}
use eleeveon_schools_backend.Number.{pos}
use eleeveon_schools_backend.Result.{
  or_throw, or_throw-eq-ok, Result, ok, err, bad_request, not_found, ◌>>=◌, ◌>>◌, throw_if,
}
use eleeveon_schools_backend.Json.{Value, object, text, number, finite, get}
use eleeveon_schools_backend.Roles.Scope.{truthy}
use eleeveon_schools_backend.Billing.StudentPricing.{StudentPricing, parse_student_pricing}
use eleeveon_schools_backend.Billing.Orders.{
  OrderStatus, payment_pending, paid, scheduled, applied, Order, Payment, Subscription, Period,
  Tables, has_id, find_order, update_order, is_applied, is_pending, same_status, is_fixed,
  pricing_of_plan, of_account,
}

-- the variables of the environment that `apply` reads
pub record Environment : Type 0 where
  pub student_priced_checkout_mode : Option String
  pub paystack_mode : Option String
  pub node_env : Option String

abbrev pub same_text : Option String → Option String → Bool
same_text none none = true
same_text (some a) (some b) = a === b
same_text _ _ = false

abbrev is_production : Option String → Bool
is_production none = false
is_production (some s) = s === "production"

unfoldable pub activation_enabled : Environment → Bool
activation_enabled env =
    let checkout = to_lower_case (trim (or_default env.student_priced_checkout_mode "off")) in
    let fallback = if is_production env.node_env then "live" else "test" in
    let paystack = to_lower_case (trim (or_default env.paystack_mode fallback)) in
    checkout === paystack && (checkout === "test" || checkout === "live")

-- The payment is settled and is that of the order.
abbrev pub settles : Order → Payment → Bool
settles order payment =
    (payment.status === "paid" && payment.account_id === order.account_id)
    && (same_text payment.invoice_id order.invoice_id
        && (payment.amount ==ℕ order.amount_due && payment.currency === order.currency))

abbrev pub find_payment : String → Tables → Option Payment
find_payment id db = find (λ p. p.id === id) db.payments

abbrev pub is_settled_by : Order → Option Payment → Result Payment
is_settled_by order none = err bad_request
is_settled_by order (some payment) = if settles order payment then ok payment else err bad_request

-- the payment of an order that has something to pay
unfoldable pub settled_payment : Order → Tables → Result Payment
settled_payment order db = do
  throw_if (not (truthy order.payment_id) || not (truthy order.invoice_id)) bad_request
  is_settled_by order (find_payment (get_or order.payment_id "") db)

abbrev is_text : Value → String → Bool
is_text (text s) t = s === t
is_text _ t = false

abbrev is_number : Value → ℕ → Bool
is_number (number (finite (pos n))) m = n ==ℕ m * 1000
is_number _ m = false

-- the fields of `verifiedSettlement` against the payment
abbrev proves : Value → Payment → Bool
proves (object proof) payment =
    (is_text (get proof "provider") "paystack"
      && is_text (get proof "reference") (get_or payment.provider_reference ""))
    && (is_number (get proof "amount") payment.amount
        && is_text (get proof "currency") payment.currency)
proves _ payment = false

abbrev has_proof : Value → Payment → Bool
has_proof (object metadata) payment = proves (get metadata "verifiedSettlement") payment
has_proof _ payment = false

abbrev pub is_verified : Payment → Bool
is_verified payment =
    (payment.provider === "paystack" && truthy payment.provider_reference)
    && has_proof payment.metadata payment

abbrev pub may_apply : OrderStatus → Bool
may_apply paid = true
may_apply scheduled = true
may_apply _ = false

abbrev pub is_scheduled : OrderStatus → Bool
is_scheduled scheduled = true
is_scheduled _ = false

-- `order.amountDue > 0`, where the proof is asked for student pricing only; else student pricing
-- is refused
unfoldable pub check_payment : Bool → Order → Tables → Result (Unit {0})
unfolding get settled_payment
check_payment by_student order db =
    if ltb 0 order.amount_due
    then (settled_payment order db >>= λ payment.
        throw_if (by_student && not (is_verified payment)) bad_request)
    else throw_if by_student bad_request

-- a pricing that does not parse
abbrev pub as_bad_request {ℓ} : {A : Type ℓ} → Result A → Result A
as_bad_request (ok a) = ok a
as_bad_request (err e) = err bad_request

unfoldable pub check_apply : Environment → Order → Tables → Result (Unit {0})
unfolding activation_enabled check_payment
check_apply env order db = do
  throw_if (not (may_apply order.status)) bad_request
  pricing ← as_bad_request (pricing_of_plan order.to_plan_id db)
  let by_student = not (is_fixed pricing.mode)
  throw_if (is_scheduled order.status && by_student) bad_request
  throw_if (by_student && not (activation_enabled env)) bad_request
  check_payment by_student order db

abbrev pub renewed : Order → ℕ → Subscription
renewed order version = record {
  account_id = order.account_id;
  plan_id = order.to_plan_id;
  status = "active";
  billing_cycle = order.billing_cycle;
  period_start = order.new_period_start;
  period_end = order.new_period_end;
  scheduled_plan_id = none;
  scheduled_billing_cycle = none;
  scheduled_change_at = none;
  scheduled_change_type = none;
  entitlement_version = version;
}

-- `accountSubscription.upsert`
unfoldable pub upsert_subscription : Order → List Subscription → List Subscription
upsert_subscription order [] = renewed order 1 ∷ []
upsert_subscription order (s ∷ rows) =
    let rest = upsert_subscription order rows in
    if of_account order.account_id s
    then renewed order (suc s.entitlement_version) ∷ rows
    else s ∷ rest

abbrev pub period_of : Order → Period
period_of order = record {
  account_id = order.account_id;
  plan_id = order.to_plan_id;
  change_order_id = order.id;
  starts_at = order.new_period_start;
  ends_at = order.new_period_end;
  currency = order.currency;
  list_amount = order.base_amount;
  amount_paid = order.amount_due;
  credit_used = order.credit_amount;
  discount_amount = order.discount_amount;
}

-- `subscriptionPeriod.upsert` with an empty update
unfoldable pub upsert_period : Order → List Period → List Period
upsert_period order rows =
    if any (λ p. p.change_order_id === order.id) rows then rows else period_of order ∷ rows

abbrev pub mark_applied : ℕ → Option String → Option String → Order → Order
mark_applied now payment by o = record o {
  status = applied;
  payment_id = coalesce payment o.payment_id;
  applied_at = some now;
  applied_by = coalesce by o.applied_by;
}

-- what the transaction writes when nothing was refused
unfoldable pub activate : ℕ → Option String → Option String → Order → Tables → Tables
unfolding upsert_subscription upsert_period
activate now payment by order db =
    let claimed = update_order order.id (mark_applied now payment by) db in
    record claimed {
      subscriptions = upsert_subscription order db.subscriptions;
      periods = upsert_period order db.periods;
    }

abbrev pub apply_order :
    Environment → ℕ → Option String → Option String → Order → Tables → Result Tables
apply_order env now payment by order db =
    if is_applied order.status
    then ok db
    else check_apply env order db >> ok (activate now payment by order db)

-- `by` is `appliedByUserId`.
unfoldable pub apply :
    Environment → ℕ → Option String → Option String → String → Tables → Result Tables
apply env now payment by id db = do
  order ← or_throw (find_order id db) not_found
  apply_order env now payment by order db

abbrev pub may_settle : OrderStatus → Bool
may_settle payment_pending = true
may_settle paid = true
may_settle scheduled = true
may_settle _ = false

-- what `applyPaidChangeOrder` checks before it writes
unfoldable pub check_settled : Order → Tables → Result (Unit {0})
check_settled order db = do
  throw_if (not (may_settle order.status)) bad_request
  if ltb 0 order.amount_due then (settled_payment order db >>= λ payment. ok tt) else ok tt

-- the `updateMany` from payment_pending to paid, and what follows when another request was first:
-- the tables, and whether the order turned out to be applied
abbrev pub promote_after : Option Order → Tables → Result (Tables × Bool)
promote_after none db = err bad_request
promote_after (some fresh) db =
    if is_applied fresh.status
    then ok (db, true)
    else if same_status fresh.status paid
    then ok (db, false)
    else err bad_request

abbrev pub promotable : Order → Order → Bool
promotable order o =
    has_id order.id o && (is_pending o.status && same_text o.payment_id order.payment_id)

unfoldable pub promote : ℕ → Order → Tables → Result (Tables × Bool)
promote now order db =
    if not (is_pending order.status)
    then ok (db, false)
    else if any (promotable order) db.orders
    then ok (
      record db {
        orders =
            map
              (λ o.
                if promotable order o
                then record o { status = paid; paid_at = some (get_or order.paid_at now) }
                else o)
              db.orders;
      },
      false,
    )
    else promote_after (find_order order.id db) db

-- `applyPaidChangeOrder`
unfoldable pub apply_paid : Environment → ℕ → Option String → String → Tables → Result Tables
unfolding apply check_settled promote
apply_paid env now by id db = do
  order ← or_throw (find_order id db) not_found
  if is_applied order.status then ok db else do
    check_settled order db
    (promoted, done) ← promote now order db
    if done then ok promoted else apply env now order.payment_id by order.id promoted
