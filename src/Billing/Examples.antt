-- ===== src/Billing/Examples.antt =====
-- A customer whose payment failed.
use goal_slot_api.Base.{
  ◌≡◌, refl, false, true, none, some, List, [], ◌∷◌, map, find, or_else, ok, if◌then◌else◌,
}
use goal_slot_api.Db.{external, basic, free, pro, User}
use goal_slot_api.Plan.{plan_limits, resolve_plan_limits}
use goal_slot_api.Billing.{
  Invoice, Subscription, invoice_paid, is_subscriber, is_live, handle_subscription_change,
  handle_event, handle_invoice_paid, pay,
}
use goal_slot_api.Billing.Redelivery.{forget_last_payment, handle_event_twice}
use goal_slot_api.Billing.Access.{subscription_change-limits}

abbrev customer : User
customer = record {
  id = "u1";
  email = "u1@example.org";
  user_type = external;
  plan = pro;
  unlimited_access = false;
  stripe_subscription_id = some "sub_1";
  subscription_status = some "past_due";
  subscription_end_date = none;
  admin_assigned_plan = none;
  stripe_customer_id = some "cus_1";
  first_payment_date = none;
  last_payment_date = none;
  invoice_pending = true;
  last_invoice_id = some "in_1";
}

abbrev paid : Invoice
paid = record { id = "in_1"; customer = some "cus_1"; status = some "paid" }

-- The customer after the payment at the time 50.
abbrev settled : User
settled = record customer {
  subscription_status = some "active";
  invoice_pending = false;
  first_payment_date = some 50;
  last_payment_date = some 50;
}

delivered : handle_event (invoice_paid paid) 50 (customer ∷ []) ≡ ok (settled ∷ [])
unfolding handle_event handle_invoice_paid pay
delivered = refl

handle_event_twice_example :
    (us'' : List User) × (handle_event (invoice_paid paid) 70 (settled ∷ []) ≡ ok us'')
    × (map forget_last_payment us'' ≡ map forget_last_payment (settled ∷ []))
handle_event_twice_example =
    handle_event_twice (invoice_paid paid) 50 70 (customer ∷ []) (settled ∷ []) delivered

abbrev downgrade : Subscription
downgrade = record { id = "sub_1"; status = "active"; plan = some basic; cancel_at = none }

subscription_change-limits_example :
    (u' : User) × (find
        (is_subscriber "sub_1")
        (handle_subscription_change downgrade (settled ∷ []))
      ≡ some u')
    × (u'.id ≡ "u1")
    × (resolve_plan_limits u' 60
        ≡ (if is_live "active" then plan_limits (or_else (some basic) pro) else plan_limits free))
subscription_change-limits_example =
    subscription_change-limits downgrade (settled ∷ []) settled 60 refl refl refl
