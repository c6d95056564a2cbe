-- ===== src/Plan.antt =====
-- The limits of a plan: src/modules/auth/plan-limits.ts, and `checkPlanLimit` and
-- `checkPlanLimitForUser` of src/modules/auth/auth.service.ts.
pub mod Laws
pub mod Examples
use Prim.Native.String.{◌++◌}
use goal_slot_api.Base.{
  ℕ, ◌≡◌, Bool, true, false, not, ◌&&◌, ◌||◌, Option, none, some, String, str_eq, find, is_some,
  ltb, leb, if◌then◌else◌, Result, ok, err, forbidden, throw_if,
}
use goal_slot_api.Db.{UserType, internal, external, PlanType, free, basic, pro, User, Db, truthy}

-- `none` is Infinity.
pub record PlanLimits : Type 0 where
  pub max_goals : Option ℕ
  pub max_schedules : Option ℕ
  pub max_tasks_per_day : Option ℕ
  pub max_active_practices : Option ℕ

abbrev pub plan_limits : PlanType → PlanLimits
plan_limits free = record {
  max_goals = some 3;
  max_schedules = some 5;
  max_tasks_per_day = some 3;
  max_active_practices = some 20;
}
plan_limits basic = record {
  max_goals = some 10;
  max_schedules = none;
  max_tasks_per_day = none;
  max_active_practices = some 100;
}
plan_limits pro = record {
  max_goals = none;
  max_schedules = none;
  max_tasks_per_day = none;
  max_active_practices = none;
}

abbrev pub is_status : Option String → String → Bool
is_status none s = false
is_status (some t) s = str_eq t s

abbrev pub is_internal : UserType → Bool
is_internal internal = true
is_internal external = false

-- `!date || new Date(date) > now`
abbrev pub open_at : Option ℕ → ℕ → Bool
open_at none now = true
open_at (some end) now = ltb now end

-- `!!date && new Date(date) < now`
abbrev pub ended_before : Option ℕ → ℕ → Bool
ended_before none now = false
ended_before (some end) now = ltb end now

abbrev pub is_valid_subscription : User → ℕ → Bool
is_valid_subscription user now =
    let is_active = is_status user.subscription_status "active" in
    let is_stripe_active = truthy user.stripe_subscription_id && is_active in
    let is_manual_active =
      not (truthy user.stripe_subscription_id)
      && is_active
      && open_at user.subscription_end_date now in
    is_stripe_active || is_manual_active || is_some user.admin_assigned_plan

abbrev pub is_explicitly_canceled : User → ℕ → Bool
is_explicitly_canceled user now =
    is_status user.subscription_status "canceled" && ended_before user.subscription_end_date now

abbrev limits_of_plan : PlanType → Bool → PlanLimits
limits_of_plan pro true = plan_limits pro
limits_of_plan basic true = plan_limits basic
limits_of_plan _ _ = plan_limits free

unfoldable pub resolve_plan_limits : User → ℕ → PlanLimits
resolve_plan_limits user now =
    if is_internal user.user_type || user.unlimited_access
    then plan_limits pro
    else limits_of_plan user.plan
        (is_valid_subscription user now || not (is_explicitly_canceled user now))

pub data LimitType : Type 0 where
  goals schedules tasks_per_day active_practices : LimitType

abbrev pub limit_map : PlanLimits → LimitType → Option ℕ
limit_map limits goals = limits.max_goals
limit_map limits schedules = limits.max_schedules
limit_map limits tasks_per_day = limits.max_tasks_per_day
limit_map limits active_practices = limits.max_active_practices

-- `currentCount >= limit`
abbrev pub reached : ℕ → Option ℕ → Bool
reached count none = false
reached count (some limit) = leb limit count

abbrev pub plan_name : PlanType → String
plan_name free = "FREE"
plan_name basic = "BASIC"
plan_name pro = "PRO"

abbrev pub limit_name : LimitType → String
limit_name goals = "goals"
limit_name schedules = "schedules"
limit_name tasks_per_day = "tasksPerDay"
limit_name active_practices = "activePractices"

abbrev pub limit_message : PlanType → LimitType → String
limit_message plan limit_type =
    "You've reached your "
    ++ (plan_name plan
        ++ (" plan limit for "
            ++ (limit_name limit_type ++ ". Upgrade to Max for unlimited access.")))

unfoldable pub check_plan_limit_for_user : User → ℕ → LimitType → ℕ → Result (Unit {0})
check_plan_limit_for_user user now limit_type current_count =
    throw_if (reached current_count (limit_map (resolve_plan_limits user now) limit_type))
      (forbidden (limit_message user.plan limit_type))

abbrev or_forbidden : Option User → (User → Result (Unit {0})) → Result (Unit {0})
or_forbidden none check = err (forbidden "User not found")
or_forbidden (some user) check = check user

unfoldable pub check_plan_limit : Db → ℕ → String → LimitType → ℕ → Result (Unit {0})
check_plan_limit db now user_id limit_type current_count =
    or_forbidden (find (λ (u : User). str_eq u.id user_id) db.users)
      λ user. check_plan_limit_for_user user now limit_type current_count
