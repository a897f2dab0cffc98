-- ===== src/Billing/Orders/Tests.antt =====
-- Concrete runs of orders.
use eleeveon_schools_backend.Prelude.{◌≡◌, refl, ◌⊎◌, true, not, none, some, find, [], ◌∷◌}
use eleeveon_schools_backend.Result.{ok}
use eleeveon_schools_backend.Json.{object, end}
use eleeveon_schools_backend.Billing.StudentPricing.{
  StudentPricing, fixed_pricing, parse_student_pricing,
}
use eleeveon_schools_backend.Billing.Orders.{
  paid, payment_pending, applied, Order, Payment, Subscription, Tables, find_order, is_applied,
  is_fixed, pricing_of_plan, of_account, schedule_downgrade,
}
use eleeveon_schools_backend.Billing.Orders.Activation.{
  Environment, may_apply, activate, apply, apply_paid, renewed, check_apply, settled_payment,
}
use eleeveon_schools_backend.Billing.Orders.Activation.Settled.{IsCovered, apply-IsCovered}
use eleeveon_schools_backend.Billing.Orders.Activation.Repeated.{
  none_yet, callback, repeated_callback_changes_nothing,
}
use eleeveon_schools_backend.Billing.Orders.Activation.Rescheduled.{rescheduled_order_applies_again}

abbrev order : Order
order = record {
  id = "order";
  account_id = "account";
  to_plan_id = "plan";
  change_type = "upgrade";
  billing_cycle = "monthly";
  effective_mode = "immediate";
  effective_at = 100;
  new_period_start = 100;
  new_period_end = 200;
  currency = "GHS";
  base_amount = 900;
  credit_amount = 0;
  discount_amount = 0;
  amount_due = 900;
  status = payment_pending;
  invoice_id = some "invoice";
  payment_id = some "payment";
  paid_at = none;
  applied_at = none;
  applied_by = none;
  cancelled_at = none;
}

abbrev payment : Payment
payment = record {
  id = "payment";
  account_id = "account";
  invoice_id = some "invoice";
  status = "paid";
  amount = 900;
  currency = "GHS";
  provider = "paystack";
  provider_reference = some "reference";
  metadata = object end;
}

abbrev subscription : Subscription
subscription = record {
  account_id = "account";
  plan_id = "free";
  status = "trial";
  billing_cycle = "monthly";
  period_start = 0;
  period_end = 100;
  scheduled_plan_id = none;
  scheduled_billing_cycle = none;
  scheduled_change_at = none;
  scheduled_change_type = none;
  entitlement_version = 4;
}

abbrev db : Tables
db = record {
  plans = ("plan", object end) ∷ [];
  orders = order ∷ [];
  payments = payment ∷ [];
  subscriptions = subscription ∷ [];
  periods = [];
}

abbrev env : Environment
env = record { student_priced_checkout_mode = none; paystack_mode = none; node_env = none }

-- the tables after the payment's callback
abbrev settled : Order
settled = record order { status = paid; paid_at = some 150 }

abbrev settled_db : Tables
settled_db = record db { orders = settled ∷ [] }

abbrev after : Tables
after = record db {
  orders =
      record settled { status = applied; applied_at = some 150; applied_by = some "user" } ∷ [];
  subscriptions = renewed order 5 ∷ [];
  periods =
      record {
        account_id = "account";
        plan_id = "plan";
        change_order_id = "order";
        starts_at = 100;
        ends_at = 200;
        currency = "GHS";
        list_amount = 900;
        amount_paid = 900;
        credit_used = 0;
        discount_amount = 0;
      }
      ∷ [];
}

apply_paid_run : apply_paid env 150 (some "user") "order" db ≡ ok after
unfolding apply_paid parse_student_pricing settled_payment check_apply activate
apply_paid_run = refl

apply_run : apply env 150 (some "payment") (some "user") "order" settled_db ≡ ok after
unfolding apply check_apply activate parse_student_pricing
apply_run = refl

second_run : apply_paid env 160 none "order" after ≡ ok after
unfolding apply_paid
second_run = refl

repeated_callback_changes_nothing_example : apply_paid env 170 none "order" after ≡ ok after
repeated_callback_changes_nothing_example =
    repeated_callback_changes_nothing env env 150 170 (some "user") none "order" db after after
      apply_paid_run (callback none_yet env 160 none "order" second_run)

apply-IsCovered_example :
    (o : Order) × (find_order "order" settled_db ≡ some o)
    × (((is_applied o.status ≡ true) × (after ≡ settled_db))
        ⊎ ((may_apply o.status ≡ true)
            × (after ≡ activate 150 (some "payment") (some "user") o settled_db)
            × ((p : StudentPricing) × (pricing_of_plan o.to_plan_id settled_db ≡ ok p)
                × IsCovered (not (is_fixed p.mode)) o settled_db)))
apply-IsCovered_example =
    apply-IsCovered env 150 (some "payment") (some "user") "order" settled_db after apply_run

-- a downgrade that has been applied
abbrev downgrade : Order
downgrade = record order {
  change_type = "downgrade";
  effective_mode = "period_end";
  amount_due = 0;
  status = applied;
}

abbrev downgraded_db : Tables
downgraded_db = record db { orders = downgrade ∷ [] }

priced : pricing_of_plan "plan" downgraded_db ≡ ok fixed_pricing
unfolding parse_student_pricing
priced = refl

rescheduled_order_applies_again_example :
    (between later : Tables) × (schedule_downgrade "order" downgraded_db ≡ ok between)
    × (apply env 300 none none "order" between ≡ ok later)
    × (find (of_account "account") later.subscriptions ≡ some (renewed downgrade 5))
rescheduled_order_applies_again_example =
    rescheduled_order_applies_again env 300 none "order" downgraded_db downgrade subscription
      fixed_pricing refl refl refl refl refl priced refl refl
