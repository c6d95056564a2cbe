-- ===== src/Plan/Examples.antt =====
-- Concrete plans.
use goal_slot_api.Base.{◌≡◌, ◌↔◌, refl, false, none, some}
use goal_slot_api.Db.{external, pro, User}
use goal_slot_api.Plan.{plan_limits, resolve_plan_limits}
use goal_slot_api.Db.{free}
use goal_slot_api.Plan.Laws.{EndedBefore, paid_plan_lost_iff}

-- A PRO user who canceled, at the time 100.
abbrev canceled : User
canceled = record {
  id = "u1";
  email = "u1@example.org";
  user_type = external;
  plan = pro;
  unlimited_access = false;
  stripe_subscription_id = some "sub_1";
  subscription_status = some "canceled";
  subscription_end_date = some 100;
  admin_assigned_plan = none;
  stripe_customer_id = none;
  first_payment_date = none;
  last_payment_date = none;
  invoice_pending = false;
  last_invoice_id = none;
}

-- At the end date itself the plan is still honoured.
kept_at_the_end : resolve_plan_limits canceled 100 ≡ plan_limits pro
unfolding resolve_plan_limits
kept_at_the_end = refl

paid_plan_lost_iff_example : (resolve_plan_limits canceled 200 ≡ plan_limits free) ↔ (
    (canceled.subscription_status ≡ some "canceled")
    × EndedBefore canceled.subscription_end_date 200
    × (canceled.admin_assigned_plan ≡ none))
paid_plan_lost_iff_example = paid_plan_lost_iff canceled 200 refl refl (λ e. cc)
