-- ===== src/Tracking/Tasks.antt =====
-- The writes of src/modules/tasks/tasks.service.ts. The columns `description`, `category`,
-- `estimatedMinutes`, `dueDate` and `notes` of a task, which these operations only copy from the
-- request, are left out. The statements of one call run with no other request between them.
use goal_slot_api.Base.{
  ℕ, ◌+◌, ◌-◌, Bool, true, false, not, ◌&&◌, Option, none, some, List, [], ◌∷◌, ◌++◌, String,
  str_eq, find, count, any, update_where, delete_where, or_else, is_some, ltb, if◌then◌else◌,
  forbidden, not_found, unique_violation, Result, ok, err, ◌>>=◌, ◌>>◌, throw_if,
}
use goal_slot_api.Db.{
  TaskStatus, backlog, todo, done, completion, tracker, TimeEntrySource, Goal, Task, TimeEntry, Db,
  truthy, column_eq,
}
use goal_slot_api.Plan.{tasks_per_day, check_plan_limit}
use goal_slot_api.Tracking.Progress.{logged_minutes_of, with_progress}
use goal_slot_api.Tracking.Entries.{Zone, owns_goal, owns_block, in_day, insert_entry, progress_if}

unfoldable pub validate_task_relations :
    Db → String → Option String → Option String → Result (Unit {0})
validate_task_relations db user_id goal_id schedule_block_id = do
  throw_if (truthy goal_id && not (owns_goal db user_id goal_id))
      (forbidden "Goal not found or access denied")
  throw_if (truthy schedule_block_id && not (owns_block db user_id schedule_block_id))
      (forbidden "Schedule block not found or access denied")

pub record CreateTaskDto : Type 0 where
  pub id : Option String
  pub title : String
  pub status : Option TaskStatus
  pub goal_id : Option String
  pub schedule_block_id : Option String

abbrev pub task_by_id : String → Task → Bool
task_by_id id t = str_eq t.id id

abbrev pub owned_task_by_id : String → String → Task → Bool
owned_task_by_id user_id id t = str_eq t.id id && str_eq t.user_id user_id

unfoldable pub new_task : String → String → CreateTaskDto → Task
new_task fresh_id user_id dto = record {
  id = or_else dto.id fresh_id;
  title = dto.title;
  status = or_else dto.status backlog;
  actual_minutes = none;
  order = 0;
  completed_at = none;
  user_id = user_id;
  goal_id = dto.goal_id;
  schedule_block_id = dto.schedule_block_id;
}

unfoldable pub create_task : String → String → CreateTaskDto → Db → Result Db
create_task fresh_id user_id dto db = do
  validate_task_relations db user_id dto.goal_id dto.schedule_block_id
  let task = new_task fresh_id user_id dto
  if any (task_by_id task.id) db.tasks
      then err unique_violation
      else ok (record db { tasks = db.tasks ++ task ∷ [] })

-- `UpdateTaskDto`: `none` is a field left out; for the two keys `some none` is null.
pub record UpdateTaskDto : Type 0 where
  pub title : Option String
  pub status : Option TaskStatus
  pub goal_id : Option (Option String)
  pub schedule_block_id : Option (Option String)

unfoldable pub apply_task_update : UpdateTaskDto → Task → Task
apply_task_update dto t = record t {
  title = or_else dto.title t.title;
  status = or_else dto.status t.status;
  goal_id = or_else dto.goal_id t.goal_id;
  schedule_block_id = or_else dto.schedule_block_id t.schedule_block_id;
}

abbrev pub no_task : Option Task → Bool
no_task task = not (is_some task)

unfoldable pub update_task : String → String → UpdateTaskDto → Db → Result Db
update_task user_id task_id dto db = do
  throw_if (no_task (find (owned_task_by_id user_id task_id) db.tasks)) (not_found "Task not found")
  validate_task_relations db user_id (or_else dto.goal_id none) (or_else dto.schedule_block_id none)
  ok (record db { tasks = update_where (task_by_id task_id) (apply_task_update dto) db.tasks })

-- `data: { order: index }` for each of the keys in turn.
unfoldable pub reorder_from : ℕ → String → List String → List Task → List Task
reorder_from index user_id [] tasks = tasks
reorder_from index user_id (id ∷ ids) tasks =
    reorder_from (index + 1) user_id ids
      (update_where (owned_task_by_id user_id id) (λ (t : Task). record t { order = index }) tasks)

unfoldable pub reorder : String → List String → Db → Db
reorder user_id ids db = record db { tasks = reorder_from 0 user_id ids db.tasks }

abbrev pub is_tracker : TimeEntrySource → Bool
is_tracker tracker = true
is_tracker completion = false

-- The minutes of the TRACKER entries of a task.
unfoldable pub tracked_minutes_of : String → List TimeEntry → ℕ
tracked_minutes_of task_id [] = 0
tracked_minutes_of task_id (e ∷ es) =
    let rest = tracked_minutes_of task_id es in
    if column_eq e.task_id task_id && is_tracker e.source then e.duration + rest else rest

pub record CompleteTaskDto : Type 0 where
  pub actual_minutes : ℕ
  pub date : Option ℕ
  pub notes : Option String

unfoldable pub completion_entry :
    Zone → String → String → ℕ → ℕ → CompleteTaskDto → Task → TimeEntry
completion_entry zone fresh_id user_id log_date remaining dto task = record {
  id = fresh_id;
  task_name = task.title;
  task_title = none;
  duration = remaining;
  date = log_date;
  started_at = none;
  day_of_week = zone.day_of_week log_date;
  notes = if truthy dto.notes then dto.notes else some "Logged from task completion";
  user_id = user_id;
  goal_id = task.goal_id;
  schedule_block_id = task.schedule_block_id;
  task_id = some task.id;
  source = completion;
}

abbrev pub mark_done : ℕ → ℕ → Task → Task
mark_done actual_minutes log_date t = record t {
  status = done;
  actual_minutes = some actual_minutes;
  completed_at = some log_date;
}

-- The writes of `complete`: the entry where minutes remain, the task, the goal.
unfoldable pub complete_write :
    Zone → String → String → ℕ → ℕ → CompleteTaskDto → Task → Db → Result Db
complete_write zone fresh_id user_id log_date remaining dto task db =
    let entry = completion_entry zone fresh_id user_id log_date remaining dto task in
    let marked = λ (d : Db). record d {
      tasks = update_where (task_by_id task.id) (mark_done dto.actual_minutes log_date) d.tasks;
    } in
    if ltb 0 remaining
    then (insert_entry entry db >>= λ d. ok (progress_if task.goal_id user_id (marked d)))
    else ok (marked db)

abbrev pub complete_found :
    Zone → ℕ → String → String → CompleteTaskDto → Db → Option Task → Result Db
complete_found zone now fresh_id user_id dto db none = err (not_found "Task not found")
complete_found zone now fresh_id user_id dto db (some task) =
    let log_date = or_else dto.date now in
    let remaining = dto.actual_minutes - tracked_minutes_of task.id db.time_entries in
    check_plan_limit db now user_id tasks_per_day
      (count (in_day zone user_id log_date) db.time_entries)
    >> complete_write zone fresh_id user_id log_date remaining dto task db

unfoldable pub complete : Zone → ℕ → String → String → String → CompleteTaskDto → Db → Result Db
complete zone now fresh_id user_id task_id dto db =
    complete_found zone now fresh_id user_id dto db
      (find (owned_task_by_id user_id task_id) db.tasks)

abbrev pub completes : String → TimeEntry → Bool
completes task_id e = column_eq e.task_id task_id && not (is_tracker e.source)

-- `orderBy: { createdAt: 'desc' }`: the newest, which a table holds last.
unfoldable pub find_last : (TimeEntry → Bool) → List TimeEntry → Option TimeEntry
find_last p [] = none
find_last p (e ∷ es) =
    let rest = find_last p es in if is_some rest then rest else if p e then some e else none

abbrev pub without_entry : Option TimeEntry → List TimeEntry → List TimeEntry
without_entry none entries = entries
without_entry (some entry) entries = delete_where (λ (e : TimeEntry). str_eq e.id entry.id) entries

-- The recomputation of `restore`, which leaves the status of the goal.
abbrev pub resum : Option String → Db → Db
resum none db = db
resum (some g) db =
    if truthy (some g)
    then record db {
      goals =
          update_where (λ (x : Goal). str_eq x.id g)
            (λ (x : Goal). with_progress (logged_minutes_of g db.time_entries) x.status x) db.goals;
    }
    else db

abbrev pub mark_todo : Task → Task
mark_todo t = record t { status = todo; actual_minutes = none; completed_at = none }

abbrev pub restore_found : Db → Option Task → Result Db
restore_found db none = err (not_found "Task not found")
restore_found db (some task) = ok (
    resum task.goal_id (record db {
      tasks = update_where (task_by_id task.id) mark_todo db.tasks;
      time_entries = without_entry (find_last (completes task.id) db.time_entries) db.time_entries;
    }))

unfoldable pub restore : String → String → Db → Result Db
restore user_id task_id db = restore_found db (find (owned_task_by_id user_id task_id) db.tasks)

-- `onDelete: SetNull` of `TimeEntry.task`.
abbrev pub unlink : TimeEntry → TimeEntry
unlink e = record e { task_id = none }

unfoldable pub delete_task : String → String → Db → Result Db
delete_task user_id task_id db = do
  throw_if (no_task (find (owned_task_by_id user_id task_id) db.tasks)) (not_found "Task not found")
  ok (record db {
    tasks = delete_where (task_by_id task_id) db.tasks;
    time_entries =
        update_where (λ (e : TimeEntry). column_eq e.task_id task_id) unlink db.time_entries;
  })
