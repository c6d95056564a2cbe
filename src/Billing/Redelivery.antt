-- ===== src/Billing/Redelivery.antt =====
-- An event that Stripe delivers twice.
use goal_slot_api.Base.{
  ℕ, ◌≡◌, refl, sym, ap, subst, ◌∙◌, Bool, inl, inr, Option, none, some, List, [], ◌∷◌, map, String,
  str_eq, arith, eq_refl, find, any, any-update_where, update_where, updated, Bool-cases,
  Option-cases, ok, is_some,
}
use goal_slot_api.Db.{User, truthy, user_by_id}
use goal_slot_api.Plan.{is_status}
use goal_slot_api.Billing.{
  Session, Subscription, Invoice, Event, checkout_completed, subscription_updated,
  subscription_deleted, invoice_paid, payment_failed, invoice_finalized, other, user_by_id,
  is_customer, is_subscriber, activate, checkout_of, handle_checkout_completed, change_subscription,
  update_first, handle_subscription_change, fail_payment, handle_payment_failed, pay,
  handle_invoice_paid, await_payment, handle_invoice_finalized, handle_event,
}

-- All columns but the date of the last payment.
abbrev pub forget_last_payment : User → User
forget_last_payment u = record u { last_payment_date = none }

pub find-update_where :
    (test q : User → Bool) (f : User → User) (us : List User) (u : User)
    → ((x : User) → test (f x) ≡ test x)
    → find test us ≡ some u
    → find test (update_where q f us) ≡ some (updated q f u)
find-update_where test q f [] u k h = absurd (ground arith)
find-update_where test q f (x ∷ xs) u k h = elim (Bool-cases (test x)) [
  | inl hit ↦
      let h' : some x ≡ some u = rw hit at h in
      let same : x ≡ u = ground arith in
      elim (Bool-cases (q x)) [
        | inl w ↦ rw (← same, w, k x, hit) refl
        | inr w ↦ rw (← same, w, hit) refl
      ]
  | inr miss ↦
      let h' : find test xs ≡ some u = rw miss at h in
      let rest = find-update_where test q f xs u k h' in
      elim (Bool-cases (q x)) [ inl w ↦ rw (w, k x, miss) rest | inr w ↦ rw (w, miss) rest ]
]

written_twice :
    (q : User → Bool) (e f g : User → User) (us : List User)
    → ((x : User) → q (f x) ≡ q x)
    → ((x : User) → e (g (f x)) ≡ e (f x))
    → map e (update_where q g (update_where q f us)) ≡ map e (update_where q f us)
written_twice q e f g [] k h = refl
written_twice q e f g (x ∷ xs) k h = elim (Bool-cases (q x)) [
  | inl w ↦ rw (w, k x, w, h x, written_twice q e f g xs k h) refl
  | inr w ↦ rw (w, w, written_twice q e f g xs k h) refl
]

customer_of :
    (key : Option String) (x y : User)
    → y.stripe_customer_id ≡ x.stripe_customer_id
    → is_customer key y ≡ is_customer key x
customer_of none x y e = rw e refl
customer_of (some k) x y e = rw e refl

module _ (test : User → Bool) (d d' : User → User → User)
    (keeps_test : (u x : User) → test (d u x) ≡ test x)
    (keeps_id : (u x : User) → (d u x).id ≡ x.id)
    (settles : (u x : User)
      → forget_last_payment (d' (d u u) (d u x)) ≡ forget_last_payment (d u x)) where
  update_first_twice :
      (us : List User)
      → let us' = update_first test d us (find test us) in
        map forget_last_payment (update_first test d' us' (find test us'))
        ≡ map forget_last_payment us'
  update_first_twice us = elim (Option-cases (find test us)) [
    | inl missing ↦ rw (missing) (rw missing refl)
    | inr (u, f) ↦
        let q = user_by_id u.id in
        let again : find test (update_where q (d u) us) ≡ some (d u u) =
          find-update_where test q (d u) us u (keeps_test u) f ∙ ap some (rw (eq_refl u.id) refl) in
        rw f (
          rw again (
            subst
              (λ i.
                map forget_last_payment
                  (update_where (user_by_id i) (d' (d u u)) (update_where q (d u) us))
                ≡ map forget_last_payment (update_where q (d u) us))
              (sym (keeps_id u u))
              (written_twice q forget_last_payment (d u) (d' (d u u)) us
                (λ x. ap (λ i. str_eq i u.id) (keeps_id u x)) (settles u))))
  ]

change_twice :
    (s : Subscription) (us : List User)
    → let us' = handle_subscription_change s us in
      map forget_last_payment (handle_subscription_change s us') ≡ map forget_last_payment us'
unfolding handle_subscription_change change_subscription
change_twice s us =
    update_first_twice (is_subscriber s.id) (λ user. change_subscription s)
      (λ user. change_subscription s) (λ u x. refl) (λ u x. refl) (λ u x. refl) us

fail_twice :
    (i : Invoice) (us : List User)
    → let us' = handle_payment_failed i us in
      map forget_last_payment (handle_payment_failed i us') ≡ map forget_last_payment us'
unfolding handle_payment_failed fail_payment
fail_twice i us =
    update_first_twice (is_customer i.customer) (λ user. fail_payment i) (λ user. fail_payment i)
      (λ u x. customer_of i.customer x (fail_payment i x) refl) (λ u x. refl) (λ u x. refl) us

finalize_twice :
    (i : Invoice) (us : List User)
    → let us' = handle_invoice_finalized i us in
      map forget_last_payment (handle_invoice_finalized i us') ≡ map forget_last_payment us'
unfolding handle_invoice_finalized await_payment
finalize_twice i us = elim (Bool-cases (is_status i.status "open")) [
  | inl awaits ↦ rw awaits (
      update_first_twice (is_customer i.customer) (λ user. await_payment i)
        (λ user. await_payment i) (λ u x. customer_of i.customer x (await_payment i x) refl)
        (λ u x. refl) (λ u x. refl) us)
  | inr settled ↦ rw settled refl
]

pay_settles :
    (i : Invoice) (now later : ℕ) (u x : User)
    → forget_last_payment (pay i later (pay i now u u) (pay i now u x))
      ≡ forget_last_payment (pay i now u x)
unfolding pay
pay_settles i now later u x = elim (Bool-cases (is_status u.subscription_status "past_due")) [
  | inl due ↦ elim (Bool-cases (is_some u.first_payment_date)) [
    | inl paid ↦ rw (due, paid) (rw paid refl)
    | inr first ↦ rw (due, first) refl
  ]
  | inr fine ↦ elim (Bool-cases (is_some u.first_payment_date)) [
    | inl paid ↦ rw (fine, paid) (rw (fine, paid) refl)
    | inr first ↦ rw (fine, first) (rw fine refl)
  ]
]

pay_twice :
    (i : Invoice) (now later : ℕ) (us : List User)
    → let us' = handle_invoice_paid i now us in
      map forget_last_payment (handle_invoice_paid i later us') ≡ map forget_last_payment us'
unfolding handle_invoice_paid pay
pay_twice i now later us =
    update_first_twice (is_customer i.customer) (pay i now) (pay i later)
      (λ u x. customer_of i.customer x (pay i now u x) refl) (λ u x. refl) (pay_settles i now later)
      us

activate_twice :
    (session : Session) (id : String) (us : List User)
    → map forget_last_payment (
        update_where
          (user_by_id id)
          (activate session)
          (update_where (user_by_id id) (activate session) us))
      ≡ map forget_last_payment (update_where (user_by_id id) (activate session) us)
unfolding activate
activate_twice session id us =
    written_twice (user_by_id id) forget_last_payment (activate session) (activate session) us
      (λ x. refl) (λ x. refl)

still_there :
    (session : Session) (id : String) (us : List User)
    → any (user_by_id id) (update_where (user_by_id id) (activate session) us)
      ≡ any (user_by_id id) us
unfolding activate
still_there session id us =
    any-update_where (user_by_id id) (user_by_id id) (activate session) us (λ x. refl)

checkout_twice :
    (session : Session) (key : Option String) (us us' : List User)
    → checkout_of session us key ≡ ok us'
    → (us'' : List User) × (checkout_of session us' key ≡ ok us'')
      × (map forget_last_payment us'' ≡ map forget_last_payment us')
checkout_twice session none us us' h = (us', refl, refl)
checkout_twice session (some id) us us' h = elim (Bool-cases (truthy (some id))) [
  | inr empty ↦ (us', rw empty refl, refl)
  | inl named ↦ elim (Bool-cases (any (user_by_id id) us)) [
    | inr missing ↦ absurd (ground arith)
    | inl here ↦
        let f = activate session in
        let e : update_where (user_by_id id) f us ≡ us' = ground arith in
        (
          update_where (user_by_id id) f us',
          rw (← e) (rw (named, still_there session id us, here) refl),
          rw (← e) (activate_twice session id us),
        )
  ]
]

-- A second delivery of an event that was handled, at any later instant, is handled too, and changes
-- nothing but the date of a last payment.
pub handle_event_twice :
    (e : Event) (now later : ℕ) (us us' : List User)
    → handle_event e now us ≡ ok us'
    → (us'' : List User) × (handle_event e later us' ≡ ok us'')
      × (map forget_last_payment us'' ≡ map forget_last_payment us')
unfolding handle_event handle_checkout_completed
handle_event_twice (checkout_completed session) now later us us' h =
    checkout_twice session session.user_id us us' h
handle_event_twice (subscription_updated s) now later us us' h =
    let e : handle_subscription_change s us ≡ us' = cc in
    (handle_subscription_change s us', refl, rw (← e) (change_twice s us))
handle_event_twice (subscription_deleted s) now later us us' h =
    let e : handle_subscription_change s us ≡ us' = cc in
    (handle_subscription_change s us', refl, rw (← e) (change_twice s us))
handle_event_twice (invoice_paid i) now later us us' h =
    let e : handle_invoice_paid i now us ≡ us' = cc in
    (handle_invoice_paid i later us', refl, rw (← e) (pay_twice i now later us))
handle_event_twice (payment_failed i) now later us us' h =
    let e : handle_payment_failed i us ≡ us' = cc in
    (handle_payment_failed i us', refl, rw (← e) (fail_twice i us))
handle_event_twice (invoice_finalized i) now later us us' h =
    let e : handle_invoice_finalized i us ≡ us' = cc in
    (handle_invoice_finalized i us', refl, rw (← e) (finalize_twice i us))
handle_event_twice other now later us us' h = (us', refl, refl)
