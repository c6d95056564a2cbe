-- ===== src/Plan/Laws.antt =====
-- Who passes the limits of plan-limits.ts.
use goal_slot_api.Base.{
  ℕ, ◌<◌, ◌≡◌, ◌≢◌, ◌↔◌, inl, inr, false, Option, none, some, arith, eq_iff, eq_refl, Option-cases,
  ok,
}
use goal_slot_api.Db.{external, free, User}
use goal_slot_api.Plan.{
  LimitType, limit_map, plan_limits, resolve_plan_limits, check_plan_limit_for_user,
}

-- An order test against a limit that may be infinite.
abbrev pub Below : ℕ → Option ℕ → Type 0
Below n none = Unit
Below n (some k) = n < k

-- The check of a limit passes exactly when the limit that the resolved plan sets is infinite or
-- above the current count.
check_plan_limit_ok_iff :
    (user : User) (now : ℕ) (l : LimitType) (n : ℕ)
    → (check_plan_limit_for_user user now l n ≡ ok tt)
      ↔ Below n (limit_map (resolve_plan_limits user now) l)
unfolding check_plan_limit_for_user
check_plan_limit_ok_iff user now l n =
    elim (Option-cases (limit_map (resolve_plan_limits user now) l)) [
      | inl infinite ↦ rw infinite (ground arith)
      | inr (k, limited) ↦ rw limited (ground arith)
    ]

-- The date at which a subscription ended lies before `now`.
abbrev pub EndedBefore : Option ℕ → ℕ → Type 0
EndedBefore none now = ⊥
EndedBefore (some end) now = end < now

-- An external user on a paid plan, without unlimited access, falls back to the free limits exactly
-- when the subscription is canceled, its end date is past, and no admin assigned a plan.
pub paid_plan_lost_iff :
    (user : User) (now : ℕ)
    → user.user_type ≡ external
    → user.unlimited_access ≡ false
    → user.plan ≢ free
    → (resolve_plan_limits user now ≡ plan_limits free) ↔ (
        (user.subscription_status ≡ some "canceled")
        × EndedBefore user.subscription_end_date now
        × (user.admin_assigned_plan ≡ none))
unfolding resolve_plan_limits
paid_plan_lost_iff user now e u p = (
  λ h. elim (Option-cases user.subscription_status) [
    | inl unset ↦ ground arith
    | inr (s, status) ↦ ground (arith, eq_iff s "active", eq_iff s "canceled")
  ],
  λ h. rw h.0 (ground (arith, eq_iff "canceled" "active", eq_refl "canceled")),
)
