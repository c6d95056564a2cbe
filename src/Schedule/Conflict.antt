-- ===== src/Schedule/Conflict.antt =====
-- The range check, the ownership check and the conflict check of
-- src/modules/schedule/schedule.service.ts.
use goal_slot_api.Base.{
  ℕ, Bool, false, not, ◌&&◌, Option, none, some, List, String, str_eq, any, filter, js_lt, js_le,
  ◌==◌, Result, bad_request, forbidden, throw_if,
}
use goal_slot_api.Db.{Text, Goal, ScheduleBlock, Db, truthy}
use goal_slot_api.Schedule.Clock.{time_to_minutes}

unfoldable pub assert_valid_range : Text → Text → Result (Unit {0})
assert_valid_range start_time end_time =
    throw_if (js_le (time_to_minutes end_time) (time_to_minutes start_time))
      (bad_request "End time must be after start time")

abbrev pub owns_goal : Db → String → Option String → Bool
owns_goal db user_id none = false
owns_goal db user_id (some goal_id) =
    any (λ (g : Goal). str_eq g.id goal_id && str_eq g.user_id user_id) db.goals

unfoldable pub validate_goal_ownership : Db → String → Option String → Result (Unit {0})
validate_goal_ownership db user_id goal_id =
    throw_if (truthy goal_id && not (owns_goal db user_id goal_id))
      (forbidden "Goal not found or access denied")

-- `newStart < blockEnd && newEnd > blockStart`
unfoldable pub times_overlap : Text → Text → Text → Text → Bool
times_overlap new_start new_end block_start block_end =
    js_lt (time_to_minutes new_start) (time_to_minutes block_end)
    && js_lt (time_to_minutes block_start) (time_to_minutes new_end)

-- `id: excludeId ? { not: excludeId } : undefined`
abbrev pub is_excluded : Option String → ScheduleBlock → Bool
is_excluded none b = false
is_excluded (some exclude_id) b = truthy (some exclude_id) && str_eq b.id exclude_id

abbrev pub on_day : String → ℕ → Option String → ScheduleBlock → Bool
on_day user_id day_of_week exclude_id b =
    str_eq b.user_id user_id && (b.day_of_week == day_of_week) && not (is_excluded exclude_id b)

unfoldable pub check_time_conflict :
    String → ℕ → Text → Text → Option String → List ScheduleBlock → Bool
check_time_conflict user_id day_of_week start_time end_time exclude_id table =
    any (λ (b : ScheduleBlock). times_overlap start_time end_time b.start_time b.end_time)
      (filter (on_day user_id day_of_week exclude_id) table)
