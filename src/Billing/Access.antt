-- ===== src/Billing/Access.antt =====
-- What a change of a subscription does to the limits of its user.
use goal_slot_api.Base.{
  ℕ, ◌≡◌, refl, sym, ap, subst, ◌∙◌, true, false, inl, inr, some, List, String, str_eq, arith,
  eq_iff, eq_refl, find, Bool-cases, or_else, if◌then◌else◌,
}
use goal_slot_api.Db.{external, PlanType, free, basic, pro, User, user_by_id}
use goal_slot_api.Plan.{is_status, plan_limits, resolve_plan_limits}
use goal_slot_api.Billing.{
  Subscription, is_subscriber, is_live, change_subscription, handle_subscription_change,
}
use goal_slot_api.Billing.Redelivery.{find-update_where}

honoured :
    (u : User) (p : PlanType) (now : ℕ)
    → u.user_type ≡ external
    → u.unlimited_access ≡ false
    → u.plan ≡ p
    → is_status u.subscription_status "canceled" ≡ false
    → resolve_plan_limits u now ≡ plan_limits p
unfolding resolve_plan_limits
honoured u free now outside limited e kept = ground arith
honoured u basic now outside limited e kept = ground arith
honoured u pro now outside limited e kept = ground arith

lapsed :
    (u : User) (now : ℕ)
    → u.user_type ≡ external
    → u.unlimited_access ≡ false
    → u.plan ≡ free
    → resolve_plan_limits u now ≡ plan_limits free
unfolding resolve_plan_limits
lapsed u now outside limited e = rw (outside, limited, e) refl

live-not_canceled : (status : String) → is_live status ≡ true → str_eq status "canceled" ≡ false
live-not_canceled status live = elim (Bool-cases (str_eq status "canceled")) [
  | inl over ↦
      let same : "canceled" ≡ status = sym ((eq_iff status "canceled").0 over) in
      let never : false ≡ true = subst (λ t. is_live t ≡ true) (sym same) live in cc
  | inr on ↦ on
]

changed_limits :
    (s : Subscription) (u : User) (now : ℕ)
    → u.user_type ≡ external
    → u.unlimited_access ≡ false
    → resolve_plan_limits (change_subscription s u) now
      ≡ (if is_live s.status then plan_limits (or_else s.plan pro) else plan_limits free)
unfolding change_subscription
changed_limits s u now outside limited = elim (Bool-cases (is_live s.status)) [
  | inr over ↦
      lapsed (change_subscription s u) now outside limited (rw over refl) ∙ sym (rw over refl)
  | inl live ↦
      honoured (change_subscription s u) (or_else s.plan pro) now outside limited (rw live refl)
        (live-not_canceled s.status live)
      ∙ sym (rw live refl)
]

-- After the change of a subscription of an external user without unlimited access, the row of the
-- subscription is that user's, and at every instant the user has the limits of the plan in the
-- metadata (PRO where it names none) if the status is active or trialing, and those of FREE if not.
pub subscription_change-limits :
    (s : Subscription) (users : List User) (u : User) (now : ℕ)
    → find (is_subscriber s.id) users ≡ some u
    → u.user_type ≡ external
    → u.unlimited_access ≡ false
    → (u' : User) × (find (is_subscriber s.id) (handle_subscription_change s users) ≡ some u')
      × (u'.id ≡ u.id)
      × (resolve_plan_limits u' now
          ≡ (if is_live s.status then plan_limits (or_else s.plan pro) else plan_limits free))
unfolding handle_subscription_change change_subscription
subscription_change-limits s users u now f outside limited = (
  change_subscription s u,
  rw f (
      find-update_where (is_subscriber s.id) (user_by_id u.id) (change_subscription s) users u
        (λ x. refl) f
      ∙ ap some (rw (eq_refl u.id) refl)),
  refl,
  changed_limits s u now outside limited,
)
