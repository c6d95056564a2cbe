-- ===== src/Tracking/Progress.antt =====
-- `updateProgress` of src/modules/goals/goals.service.ts: the hours of a goal are recomputed from
-- the sum of its time entries.
use goal_slot_api.Base.{
  ℕ, ◌+◌, ◌*◌, Bool, true, false, ◌&&◌, Option, none, some, List, [], ◌∷◌, String, str_eq, find,
  update_where, leb, if◌then◌else◌,
}
use goal_slot_api.Db.{GoalStatus, active, completed, Goal, TimeEntry, Db, column_eq}

-- `aggregate({ where: { goalId }, _sum: { duration: true } })`, with `?? 0`.
unfoldable pub logged_minutes_of : String → List TimeEntry → ℕ
logged_minutes_of goal_id [] = 0
logged_minutes_of goal_id (e ∷ es) =
    let rest = logged_minutes_of goal_id es in
    if column_eq e.goal_id goal_id then e.duration + rest else rest

abbrev pub is_active : GoalStatus → Bool
is_active active = true
is_active _ = false

-- `loggedHours >= targetHours` with the hours as minutes / 60 and hundredths.
abbrev pub is_reached : ℕ → Goal → Bool
is_reached minutes g = leb (g.target_centihours * 60) (minutes * 100)

-- The columns that the recomputation writes.
unfoldable pub with_progress : ℕ → GoalStatus → Goal → Goal
with_progress minutes status g = record g { logged_minutes = minutes; status = status }

unfoldable pub next_status : ℕ → Goal → GoalStatus
next_status minutes g = if is_reached minutes g && is_active g.status then completed else g.status

abbrev pub owned_goal : String → String → Goal → Bool
owned_goal goal_id user_id g = str_eq g.id goal_id && str_eq g.user_id user_id

abbrev pub progress_found : String → ℕ → Option Goal → List Goal → List Goal
progress_found goal_id minutes none goals = goals
progress_found goal_id minutes (some goal) goals =
    update_where (λ (g : Goal). str_eq g.id goal_id)
      (with_progress minutes (next_status minutes goal)) goals

unfoldable pub update_progress : String → String → Db → Db
update_progress goal_id user_id db = record db {
  goals =
      progress_found goal_id (logged_minutes_of goal_id db.time_entries)
        (find (owned_goal goal_id user_id) db.goals) db.goals;
}
