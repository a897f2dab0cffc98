-- ===== src/Billing/Orders.antt =====
-- src/billing/subscription-change.service.ts: the orders that change a subscription, from the quote
-- to the cancellation or the activation (Orders/Activation). A transaction takes the tables to the
-- new ones or throws; times are milliseconds.
pub mod Activation
mod Tests
use eleeveon_schools_backend.Prelude.{
  ℕ, suc, ◌+◌, String, Bool, true, false, not, ◌&&◌, ◌||◌, Option, none, some, get_or, coalesce,
  List, [], ◌∷◌, ◌===◌, ◌!==◌, ◌==ℕ◌, find, any, map, is_some, if◌then◌else◌,
}
use eleeveon_schools_backend.Result.{
  Result, or_throw, ok, err, bad_request, not_found, error, ◌>>=◌, ◌>>◌, throw_if,
}
use eleeveon_schools_backend.Json.{Value}
use eleeveon_schools_backend.Billing.StudentPricing.{
  PricingMode, fixed, per_student, tiered, StudentPricing, parse_student_pricing,
}

-- the states of SubscriptionChangeStatus, and the one that the checkout sets
pub data OrderStatus : Type 0 where
  quoted checkout_initializing payment_pending paid scheduled : OrderStatus
  applied cancelled expired failed : OrderStatus

-- a row of SubscriptionChangeOrder; amounts are in the smallest unit of the currency
pub record Order : Type 0 where
  pub id : String
  pub account_id : String
  pub to_plan_id : String
  pub change_type : String
  pub billing_cycle : String
  pub effective_mode : String
  pub effective_at : ℕ
  pub new_period_start : ℕ
  pub new_period_end : ℕ
  pub currency : String
  pub base_amount : ℕ
  pub credit_amount : ℕ
  pub discount_amount : ℕ
  pub amount_due : ℕ
  pub status : OrderStatus
  pub invoice_id : Option String
  pub payment_id : Option String
  pub paid_at : Option ℕ
  pub applied_at : Option ℕ
  pub applied_by : Option String
  pub cancelled_at : Option ℕ

-- a row of AppPayment
pub record Payment : Type 0 where
  pub id : String
  pub account_id : String
  pub invoice_id : Option String
  pub status : String
  pub amount : ℕ
  pub currency : String
  pub provider : String
  pub provider_reference : Option String
  pub metadata : Value

-- what a change of plan sets in a row of AccountSubscription
pub record Subscription : Type 0 where
  pub account_id : String
  pub plan_id : String
  pub status : String
  pub billing_cycle : String
  pub period_start : ℕ
  pub period_end : ℕ
  pub scheduled_plan_id : Option String
  pub scheduled_billing_cycle : Option String
  pub scheduled_change_at : Option ℕ
  pub scheduled_change_type : Option String
  pub entitlement_version : ℕ

-- a row of SubscriptionPeriod
pub record Period : Type 0 where
  pub account_id : String
  pub plan_id : String
  pub change_order_id : String
  pub starts_at : ℕ
  pub ends_at : ℕ
  pub currency : String
  pub list_amount : ℕ
  pub amount_paid : ℕ
  pub credit_used : ℕ
  pub discount_amount : ℕ

-- `plans` gives the metadata of a plan.
pub record Tables : Type 0 where
  pub plans : List (String × Value)
  pub orders : List Order
  pub payments : List Payment
  pub subscriptions : List Subscription
  pub periods : List Period

abbrev pub has_id : String → Order → Bool
has_id id o = o.id === id

abbrev pub find_order : String → Tables → Option Order
find_order id db = find (has_id id) db.orders

abbrev pub plan_metadata : String → List (String × Value) → Option Value
plan_metadata id [] = none
plan_metadata id ((key, metadata) ∷ plans) =
    if key === id then some metadata else plan_metadata id plans

abbrev pub update_order : String → (Order → Order) → Tables → Tables
update_order id change db = record db {
  orders = map (λ o. if has_id id o then change o else o) db.orders;
}

abbrev pub is_applied : OrderStatus → Bool
is_applied applied = true
is_applied _ = false

abbrev pub is_final : OrderStatus → Bool
is_final applied = true
is_final cancelled = true
is_final expired = true
is_final _ = false

abbrev pub in_payment : OrderStatus → Bool
in_payment checkout_initializing = true
in_payment payment_pending = true
in_payment paid = true
in_payment scheduled = true
in_payment _ = false

abbrev pub is_fixed : PricingMode → Bool
is_fixed fixed = true
is_fixed _ = false

abbrev pub is_pending : OrderStatus → Bool
is_pending payment_pending = true
is_pending _ = false

abbrev pub same_status : OrderStatus → OrderStatus → Bool
same_status quoted quoted = true
same_status checkout_initializing checkout_initializing = true
same_status payment_pending payment_pending = true
same_status paid paid = true
same_status scheduled scheduled = true
same_status applied applied = true
same_status cancelled cancelled = true
same_status expired expired = true
same_status failed failed = true
same_status _ _ = false

-- the plan of an order with its pricing; a plan that is gone is not found
abbrev pub pricing_of_plan : String → Tables → Result StudentPricing
pricing_of_plan plan db = do
  metadata ← or_throw (plan_metadata plan db.plans) bad_request
  parse_student_pricing metadata

-- `persistQuote`: nothing to pay makes the order paid at once. Of the order that is given only the
-- columns of the quote are taken.
unfoldable pub persist_quote : ℕ → Order → Tables → Tables
persist_quote now quote db =
    let free = quote.amount_due ==ℕ 0 in
    let order : Order = record quote {
      status = if free then paid else quoted;
      invoice_id = none;
      payment_id = none;
      paid_at = if free then some now else none;
      applied_at = none;
      applied_by = none;
      cancelled_at = none;
    } in
    record db { orders = order ∷ db.orders }

-- `getForAccount`
unfoldable pub get_for_account : String → String → Tables → Result Order
get_for_account account id db =
    or_throw (find (λ o. has_id id o && o.account_id === account) db.orders) not_found

unfoldable pub cancel : ℕ → String → String → Tables → Result Tables
cancel now account id db = do
  order ← get_for_account account id db
  pricing ← pricing_of_plan order.to_plan_id db
  throw_if (not (is_fixed pricing.mode) && in_payment order.status) bad_request
  throw_if (is_final order.status) bad_request
  ok (update_order order.id (λ o. record o { status = cancelled; cancelled_at = some now }) db)

-- the condition of the `updateMany` that links an order to its payment
abbrev pub is_claimable : String → OrderStatus → Order → Bool
is_claimable id allowed o =
    (has_id id o && same_status o.status allowed)
    && (not (is_some o.invoice_id) && not (is_some o.payment_id))

abbrev pub allowed_status : PricingMode → OrderStatus
allowed_status fixed = quoted
allowed_status _ = checkout_initializing

unfoldable pub mark_payment_pending : String → String → String → Tables → Result Tables
mark_payment_pending id invoice payment db = do
  current ← or_throw (find_order id db) not_found
  pricing ← pricing_of_plan current.to_plan_id db
  let claimable = is_claimable id (allowed_status pricing.mode)
  throw_if (not (any claimable db.orders)) bad_request
  ok (record db {
    orders =
        map
          (λ o.
            if claimable o
            then record o {
              invoice_id = some invoice;
              payment_id = some payment;
              status = payment_pending;
            }
            else o)
          db.orders;
  })

-- `scheduleDowngrade`
abbrev pub schedule : Order → Subscription → Subscription
schedule order s = record s {
  scheduled_plan_id = some order.to_plan_id;
  scheduled_billing_cycle = some order.billing_cycle;
  scheduled_change_at = some order.effective_at;
  scheduled_change_type = some "downgrade";
}

abbrev pub of_account : String → Subscription → Bool
of_account account s = s.account_id === account

unfoldable pub schedule_downgrade : String → Tables → Result Tables
schedule_downgrade id db = do
  order ← or_throw (find_order id db) not_found
  throw_if (order.change_type !== "downgrade" || order.effective_mode !== "period_end") bad_request
  throw_if (not (any (of_account order.account_id) db.subscriptions)) error
  let scheduled_db : Tables = record db {
    subscriptions =
        map (λ s. if of_account order.account_id s then schedule order s else s) db.subscriptions;
  }
  ok (update_order order.id (λ o. record o { status = scheduled }) scheduled_db)
