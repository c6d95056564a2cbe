-- ===== src/Tracking/Entries.antt =====
-- `create`, `update` and `delete` of src/modules/time-entries/time-entries.service.ts. The statements
-- of one call run with no other request between them.
use goal_slot_api.Base.{
  ℕ, Bool, true, false, not, ◌&&◌, ◌||◌, Option, none, some, List, [], ◌∷◌, ◌++◌, String, str_eq,
  find, any, count, update_where, delete_where, or_else, is_some, leb, if◌then◌else◌, forbidden,
  not_found, unique_violation, Result, ok, err, ◌>>=◌, ◌>>◌, throw_if,
}
use goal_slot_api.Db.{Goal, ScheduleBlock, Task, tracker, TimeEntry, Db, truthy}
use goal_slot_api.Plan.{tasks_per_day, check_plan_limit}
use goal_slot_api.Tracking.Progress.{update_progress}

-- The process's local time zone: the first and the last millisecond of the local day of an instant
-- (`setHours(0, 0, 0, 0)` and `setHours(23, 59, 59, 999)`), and its local day of the week.
pub record Zone : Type 0 where
  pub day_start : ℕ → ℕ
  pub day_end : ℕ → ℕ
  pub day_of_week : ℕ → ℕ

abbrev owned :
    {Row : Type 0} → (Row → String) → (Row → String) → String → Option String → List Row → Bool
owned id user user_id none rows = false
owned id user user_id (some key) rows = any (λ r. str_eq (id r) key && str_eq (user r) user_id) rows

abbrev pub owns_goal : Db → String → Option String → Bool
owns_goal db user_id key = owned (λ (g : Goal). g.id) (λ (g : Goal). g.user_id) user_id key db.goals

abbrev pub owns_block : Db → String → Option String → Bool
owns_block db user_id key =
    owned (λ (b : ScheduleBlock). b.id) (λ (b : ScheduleBlock). b.user_id) user_id key
      db.schedule_blocks

abbrev pub owns_task : Db → String → Option String → Bool
owns_task db user_id key = owned (λ (t : Task). t.id) (λ (t : Task). t.user_id) user_id key db.tasks

unfoldable pub validate_relations :
    Db → String → Option String → Option String → Option String → Result (Unit {0})
validate_relations db user_id goal_id schedule_block_id task_id = do
  throw_if (truthy goal_id && not (owns_goal db user_id goal_id))
      (forbidden "Goal not found or access denied")
  throw_if (truthy schedule_block_id && not (owns_block db user_id schedule_block_id))
      (forbidden "Schedule block not found or access denied")
  throw_if (truthy task_id && not (owns_task db user_id task_id))
      (forbidden "Task not found or access denied")

-- The dto with its two date texts parsed.
pub record CreateTimeEntryDto : Type 0 where
  pub id : Option String
  pub task_name : String
  pub duration : ℕ
  pub date : ℕ
  pub notes : Option String
  pub started_at : Option ℕ
  pub task_title : Option String
  pub goal_id : Option String
  pub schedule_block_id : Option String
  pub task_id : Option String

abbrev pub title_of : Option Task → Option String
title_of none = none
title_of (some t) = some t.title

abbrev pub owned_task : String → Option String → Task → Bool
owned_task user_id none t = false
owned_task user_id (some id) t = str_eq t.id id && str_eq t.user_id user_id

-- The snapshot of the title: the request's, or the task's where it has a task and no title.
unfoldable pub task_title : Db → String → Option String → Option String → Option String
task_title db user_id task_id title =
    if truthy task_id && not (truthy title)
    then title_of (find (owned_task user_id task_id) db.tasks)
    else title

abbrev pub in_day : Zone → String → ℕ → TimeEntry → Bool
in_day zone user_id instant e =
    str_eq e.user_id user_id
    && leb (zone.day_start instant) e.date
    && leb e.date (zone.day_end instant)

-- An insert fails on a key that is taken.
unfoldable pub insert_entry : TimeEntry → Db → Result Db
insert_entry entry db =
    if any (λ (e : TimeEntry). str_eq e.id entry.id) db.time_entries
    then err unique_violation
    else ok (record db { time_entries = db.time_entries ++ entry ∷ [] })

-- `if (goalId) await updateProgress(goalId, userId)`
abbrev pub progress_if : Option String → String → Db → Db
progress_if none user_id db = db
progress_if (some goal_id) user_id db =
    if truthy (some goal_id) then update_progress goal_id user_id db else db

unfoldable pub new_entry : Zone → String → Option String → String → CreateTimeEntryDto → TimeEntry
new_entry zone fresh_id title user_id dto = record {
  id = or_else dto.id fresh_id;
  task_name = dto.task_name;
  task_title = title;
  duration = dto.duration;
  date = dto.date;
  started_at = some (or_else dto.started_at dto.date);
  day_of_week = zone.day_of_week dto.date;
  notes = dto.notes;
  user_id = user_id;
  goal_id = dto.goal_id;
  schedule_block_id = dto.schedule_block_id;
  task_id = dto.task_id;
  source = tracker;
}

unfoldable pub create : Zone → ℕ → String → String → CreateTimeEntryDto → Db → Result Db
create zone now fresh_id user_id dto db = do
  validate_relations db user_id dto.goal_id dto.schedule_block_id dto.task_id
  check_plan_limit db now user_id tasks_per_day
      (count (in_day zone user_id dto.date) db.time_entries)
  let entry = new_entry zone fresh_id (task_title db user_id dto.task_id dto.task_title) user_id dto
  insert_entry entry db >>= λ db'. ok (progress_if dto.goal_id user_id db')

-- `UpdateTimeEntryDto`: `none` is a field left out, `some none` is null.
pub record UpdateTimeEntryDto : Type 0 where
  pub task_name : Option String
  pub duration : Option ℕ
  pub date : Option ℕ
  pub notes : Option (Option String)
  pub started_at : Option ℕ
  pub task_title : Option String
  pub goal_id : Option (Option String)
  pub schedule_block_id : Option (Option String)
  pub task_id : Option (Option String)

unfoldable pub apply_update : Zone → Option String → UpdateTimeEntryDto → TimeEntry → TimeEntry
apply_update zone title dto e = record {
  id = e.id;
  task_name = or_else dto.task_name e.task_name;
  task_title = if is_some title then title else e.task_title;
  duration = or_else dto.duration e.duration;
  date = or_else dto.date e.date;
  started_at = if is_some dto.started_at then dto.started_at else e.started_at;
  day_of_week = elim dto.date [ none ↦ e.day_of_week | some d ↦ zone.day_of_week d ];
  notes = or_else dto.notes e.notes;
  user_id = e.user_id;
  goal_id = or_else dto.goal_id e.goal_id;
  schedule_block_id = or_else dto.schedule_block_id e.schedule_block_id;
  task_id = or_else dto.task_id e.task_id;
  source = e.source;
}

abbrev pub owned_entry : String → String → TimeEntry → Bool
owned_entry user_id id e = str_eq e.id id && str_eq e.user_id user_id

abbrev pub entry_by_id : String → TimeEntry → Bool
entry_by_id id e = str_eq e.id id

-- `dto.goalId ?? oldGoalId`: null and a field left out keep the old goal.
abbrev pub new_goal_id : Option (Option String) → Option String → Option String
new_goal_id (some (some g)) old = some g
new_goal_id _ old = old

abbrev pub same_goal : Option String → Option String → Bool
same_goal none none = true
same_goal (some a) (some b) = str_eq a b
same_goal _ _ = false

-- The recomputations at the end of `update`.
unfoldable pub progress_after_update : UpdateTimeEntryDto → Option String → String → Db → Db
progress_after_update dto old user_id db =
    let new = new_goal_id dto.goal_id old in
    if is_some dto.duration || is_some dto.goal_id
    then progress_if new user_id (if same_goal old new then db else progress_if old user_id db)
    else db

abbrev pub update_found :
    Zone → String → String → UpdateTimeEntryDto → Db → Option TimeEntry → Result Db
update_found zone user_id entry_id dto db none = err (not_found "Time entry not found")
update_found zone user_id entry_id dto db (some entry) =
    let title = task_title db user_id (or_else dto.task_id none) dto.task_title in
    let db' = record db {
      time_entries =
          update_where (entry_by_id entry_id) (apply_update zone title dto) db.time_entries;
    } in
    ok (progress_after_update dto entry.goal_id user_id db')

unfoldable pub update : Zone → String → String → UpdateTimeEntryDto → Db → Result Db
update zone user_id entry_id dto db = do
  validate_relations db user_id (or_else dto.goal_id none) (or_else dto.schedule_block_id none)
      (or_else dto.task_id none)
  update_found zone user_id entry_id dto db (find (owned_entry user_id entry_id) db.time_entries)

abbrev pub delete_found : String → String → Db → Option TimeEntry → Result Db
delete_found user_id entry_id db none = err (not_found "Time entry not found")
delete_found user_id entry_id db (some entry) = ok (
    progress_if entry.goal_id user_id
      (record db { time_entries = delete_where (entry_by_id entry_id) db.time_entries }))

unfoldable pub delete : String → String → Db → Result Db
delete user_id entry_id db =
    delete_found user_id entry_id db (find (owned_entry user_id entry_id) db.time_entries)
