-- ===== src/Tracking/Goals.antt =====
-- The operations of src/modules/goals/goals.service.ts on the table of goals. Colours, deadlines,
-- descriptions, labels and the categories made on the fly are in columns and tables left out. The
-- statements of one call run with no other request between them.
use goal_slot_api.Base.{
  ℕ, Bool, true, false, not, ◌&&◌, Option, none, some, List, [], ◌∷◌, ◌++◌, String, str_eq, find,
  any, count, update_where, delete_where, or_else, is_some, if◌then◌else◌, not_found,
  unique_violation, Result, ok, err, ◌>>◌, throw_if,
}
use goal_slot_api.Db.{
  GoalStatus, active, completed, Goal, ScheduleBlock, Task, TimeEntry, Db, column_eq,
}
use goal_slot_api.Plan.{goals, check_plan_limit}
use goal_slot_api.Tracking.Progress.{owned_goal}

pub record CreateGoalDto : Type 0 where
  pub id : Option String
  pub title : String
  pub category : String
  pub target_centihours : ℕ

-- `UpdateGoalDto`: `none` is a field left out.
pub record UpdateGoalDto : Type 0 where
  pub title : Option String
  pub category : Option String
  pub target_centihours : Option ℕ
  pub status : Option GoalStatus
  pub logged_minutes : Option ℕ

abbrev is_completed : GoalStatus → Bool
is_completed completed = true
is_completed _ = false

-- The goals of a user that are not completed.
abbrev pub current_goals : String → List Goal → ℕ
current_goals user_id =
    count (λ (g : Goal). str_eq g.user_id user_id && not (is_completed g.status))

unfoldable pub new_goal : String → String → CreateGoalDto → Goal
new_goal fresh_id user_id dto = record {
  id = or_else dto.id fresh_id;
  title = dto.title;
  category = some dto.category;
  target_centihours = dto.target_centihours;
  logged_minutes = 0;
  status = active;
  order = 0;
  user_id = user_id;
}

abbrev pub goal_by_id : String → Goal → Bool
goal_by_id goal_id g = str_eq g.id goal_id

unfoldable pub create : ℕ → String → String → CreateGoalDto → Db → Result Db
create now fresh_id user_id dto db = do
  check_plan_limit db now user_id goals (current_goals user_id db.goals)
  let goal = new_goal fresh_id user_id dto
  if any (goal_by_id goal.id) db.goals
      then err unique_violation
      else ok (record db { goals = db.goals ++ goal ∷ [] })

abbrev pub assert_goal : String → String → Db → Result (Unit {0})
assert_goal user_id goal_id db =
    throw_if (not (is_some (find (owned_goal goal_id user_id) db.goals)))
      (not_found "Goal not found")

abbrev or_keep : Option String → Option String → Option String
or_keep none column = column
or_keep (some value) column = some value

unfoldable pub apply_goal_update : UpdateGoalDto → Goal → Goal
apply_goal_update dto g = record g {
  title = or_else dto.title g.title;
  category = or_keep dto.category g.category;
  target_centihours = or_else dto.target_centihours g.target_centihours;
  status = or_else dto.status g.status;
  logged_minutes = or_else dto.logged_minutes g.logged_minutes;
}

unfoldable pub update : String → String → UpdateGoalDto → Db → Result Db
update user_id goal_id dto db = do
  assert_goal user_id goal_id db
  ok (record db { goals = update_where (goal_by_id goal_id) (apply_goal_update dto) db.goals })

-- `onDelete: SetNull` of the three relations to a goal.
abbrev pub block_of_goal : String → ScheduleBlock → Bool
block_of_goal goal_id b = column_eq b.goal_id goal_id

abbrev pub task_of_goal : String → Task → Bool
task_of_goal goal_id t = column_eq t.goal_id goal_id

abbrev pub entry_of_goal : String → TimeEntry → Bool
entry_of_goal goal_id e = column_eq e.goal_id goal_id

abbrev pub unlink_block : ScheduleBlock → ScheduleBlock
unlink_block b = record b { goal_id = none }

abbrev pub unlink_task : Task → Task
unlink_task t = record t { goal_id = none }

abbrev pub unlink_entry : TimeEntry → TimeEntry
unlink_entry e = record e { goal_id = none }

unfoldable pub delete : String → String → Db → Result Db
delete user_id goal_id db = do
  assert_goal user_id goal_id db
  ok (record db {
    goals = delete_where (goal_by_id goal_id) db.goals;
    schedule_blocks = update_where (block_of_goal goal_id) unlink_block db.schedule_blocks;
    tasks = update_where (task_of_goal goal_id) unlink_task db.tasks;
    time_entries = update_where (entry_of_goal goal_id) unlink_entry db.time_entries;
  })
