-- ===== src/Billing.antt =====
-- The webhook of src/modules/stripe/stripe.service.ts. An event that the signature check lets through
-- is an argument: its fields are Stripe's. Each handler runs with no other write between its lookup
-- and its update.
pub mod Redelivery
pub mod Access
pub mod Examples
use goal_slot_api.Base.{
  ℕ, ◌*◌, ◌==◌, Bool, true, false, ◌||◌, Option, none, some, List, [], ◌∷◌, String, str_eq, find,
  any, update_where, or_else, is_some, if◌then◌else◌, record_missing, Result, ok, err,
}
use goal_slot_api.Db.{PlanType, free, basic, pro, User, truthy, user_by_id}
use goal_slot_api.Plan.{is_status}

-- The fields of the five kinds of event that the handlers read. A plan in the metadata is one of the
-- three, or absent.
pub record Session : Type 0 where
  pub user_id : Option String
  pub plan : Option PlanType
  pub subscription : String

pub record Subscription : Type 0 where
  pub id : String
  pub status : String
  pub plan : Option PlanType
  pub cancel_at : Option ℕ

pub record Invoice : Type 0 where
  pub id : String
  pub customer : Option String
  pub status : Option String

pub data Event : Type 0 where
  checkout_completed : Session → Event
  subscription_updated subscription_deleted : Subscription → Event
  invoice_paid payment_failed invoice_finalized : Invoice → Event
  other : Event

-- `where: { stripeCustomerId }`: null finds null.
abbrev pub is_customer : Option String → User → Bool
is_customer none u = elim u.stripe_customer_id [ none ↦ true | some c ↦ false ]
is_customer (some key) u = elim u.stripe_customer_id [ none ↦ false | some c ↦ str_eq c key ]

abbrev pub is_subscriber : String → User → Bool
is_subscriber key u = elim u.stripe_subscription_id [ none ↦ false | some c ↦ str_eq c key ]

unfoldable pub activate : Session → User → User
activate session u = record u {
  stripe_subscription_id = some session.subscription;
  subscription_status = some "active";
  plan = or_else session.plan pro;
  subscription_end_date = none;
}

abbrev pub checkout_of : Session → List User → Option String → Result (List User)
checkout_of session users none = ok users
checkout_of session users (some id) =
    if truthy (some id)
    then (if any (user_by_id id) users
        then ok (update_where (user_by_id id) (activate session) users)
        else err record_missing)
    else ok users

unfoldable pub handle_checkout_completed : Session → List User → Result (List User)
handle_checkout_completed session users = checkout_of session users session.user_id

abbrev pub is_live : String → Bool
is_live status = str_eq status "active" || str_eq status "trialing"

-- `cancel_at ? new Date(cancel_at * 1000) : null`, in milliseconds.
abbrev end_of : Option ℕ → Option ℕ
end_of none = none
end_of (some seconds) = if seconds == 0 then none else some (seconds * 1000)

unfoldable pub change_subscription : Subscription → User → User
change_subscription s u = record u {
  subscription_status = some s.status;
  plan = if is_live s.status then or_else s.plan pro else free;
  subscription_end_date = end_of s.cancel_at;
}

-- `findFirst`, return where it finds none, and `update` by the key of the row.
abbrev pub update_first : (User → Bool) → (User → User → User) → List User → Option User → List User
update_first test data_of users none = users
update_first test data_of users (some user) = update_where (user_by_id user.id) (data_of user) users

unfoldable pub handle_subscription_change : Subscription → List User → List User
handle_subscription_change s users =
    update_first (is_subscriber s.id) (λ user. change_subscription s) users
      (find (is_subscriber s.id) users)

unfoldable pub fail_payment : Invoice → User → User
fail_payment invoice u = record u {
  subscription_status = some "past_due";
  invoice_pending = true;
  last_invoice_id = some invoice.id;
}

unfoldable pub handle_payment_failed : Invoice → List User → List User
handle_payment_failed invoice users =
    update_first (is_customer invoice.customer) (λ user. fail_payment invoice) users
      (find (is_customer invoice.customer) users)

-- What is written to `u` by the data computed from the row `user` that was read.
unfoldable pub pay : Invoice → ℕ → User → User → User
pay invoice now user u = record u {
  last_payment_date = some now;
  invoice_pending = false;
  last_invoice_id = some invoice.id;
  first_payment_date = if is_some user.first_payment_date then u.first_payment_date else some now;
  subscription_status =
      if is_status user.subscription_status "past_due"
      then some "active"
      else u.subscription_status;
}

unfoldable pub handle_invoice_paid : Invoice → ℕ → List User → List User
handle_invoice_paid invoice now users =
    update_first (is_customer invoice.customer) (pay invoice now) users
      (find (is_customer invoice.customer) users)

unfoldable pub await_payment : Invoice → User → User
await_payment invoice u = record u { invoice_pending = true; last_invoice_id = some invoice.id }

unfoldable pub handle_invoice_finalized : Invoice → List User → List User
handle_invoice_finalized invoice users =
    if is_status invoice.status "open"
    then update_first (is_customer invoice.customer) (λ user. await_payment invoice) users
        (find (is_customer invoice.customer) users)
    else users

-- The switch of `handleWebhook`.
unfoldable pub handle_event : Event → ℕ → List User → Result (List User)
handle_event (checkout_completed session) now users = handle_checkout_completed session users
handle_event (subscription_updated s) now users = ok (handle_subscription_change s users)
handle_event (subscription_deleted s) now users = ok (handle_subscription_change s users)
handle_event (invoice_paid i) now users = ok (handle_invoice_paid i now users)
handle_event (payment_failed i) now users = ok (handle_payment_failed i users)
handle_event (invoice_finalized i) now users = ok (handle_invoice_finalized i users)
handle_event other now users = ok users
