-- ===== src/Tracking/Examples.antt =====
-- Concrete writes of time entries and tasks.
use goal_slot_api.Base.{
  find, eq_iff, arith, ℕ, ◌≡◌, refl, sym, ap, subst, ◌∙◌, false, none, some, List, [], ◌∷◌, max,
}
use goal_slot_api.Db.{external, pro, User, active, Goal, todo, done, Task, TimeEntry, tracker, Db}
use goal_slot_api.Plan.{resolve_plan_limits, check_plan_limit_for_user, check_plan_limit}
use goal_slot_api.Tracking.Progress.{logged_minutes_of, next_status, with_progress, update_progress}
use goal_slot_api.Tracking.Entries.{
  Zone, CreateTimeEntryDto, validate_relations, task_title, new_entry, insert_entry, create, delete,
  UpdateTimeEntryDto, apply_update, progress_after_update, update,
}
use goal_slot_api.Tracking.Synced.{IsSynced}
use goal_slot_api.Tracking.Restore.{restore-IsSynced}
use goal_slot_api.Tracking.Updates.{update-IsSynced}
use goal_slot_api.Tracking.Keeps.{create-IsSynced, delete-IsSynced}
use goal_slot_api.Tracking.Tasks.{
  owned_task_by_id, completes, find_last, restore, CompleteTaskDto, tracked_minutes_of,
  completion_entry, complete_write, complete,
}
use goal_slot_api.Tracking.Complete.{minutes_of, complete-IsSynced, complete-minutes}

abbrev user : User
user = record {
  id = "u1";
  email = "u1@example.org";
  user_type = external;
  plan = pro;
  unlimited_access = false;
  stripe_subscription_id = none;
  subscription_status = none;
  subscription_end_date = none;
  admin_assigned_plan = none;
  stripe_customer_id = none;
  first_payment_date = none;
  last_payment_date = none;
  invoice_pending = false;
  last_invoice_id = none;
}

abbrev goal : ℕ → Goal
goal minutes = record {
  id = "g1";
  title = "Writing";
  category = none;
  target_centihours = 1000;
  logged_minutes = minutes;
  status = active;
  order = 0;
  user_id = "u1";
}

abbrev task : Task
task = record {
  id = "t1";
  title = "Draft";
  status = todo;
  actual_minutes = none;
  order = 0;
  completed_at = none;
  user_id = "u1";
  goal_id = some "g1";
  schedule_block_id = none;
}

-- UTC.
abbrev zone : Zone
zone = record { day_start = λ t. 0; day_end = λ t. 86399999; day_of_week = λ t. 4 }

abbrev dto : CreateTimeEntryDto
dto = record {
  id = some "e1";
  task_name = "Draft";
  duration = 30;
  date = 0;
  notes = none;
  started_at = none;
  task_title = none;
  goal_id = some "g1";
  schedule_block_id = none;
  task_id = some "t1";
}

abbrev entry : TimeEntry
entry = record {
  id = "e1";
  task_name = "Draft";
  task_title = some "Draft";
  duration = 30;
  date = 0;
  started_at = some 0;
  day_of_week = 4;
  notes = none;
  user_id = "u1";
  goal_id = some "g1";
  schedule_block_id = none;
  task_id = some "t1";
  source = tracker;
}

abbrev db : ℕ → List TimeEntry → Db
db minutes entries = record {
  users = user ∷ [];
  goals = goal minutes ∷ [];
  schedule_blocks = [];
  tasks = task ∷ [];
  time_entries = entries;
}

empty-IsSynced : IsSynced (db 0 [])
unfolding logged_minutes_of
empty-IsSynced = record { ids = tt; named = (refl, tt); owned = tt; synced = (λ h. refl, tt) }

one-IsSynced : IsSynced (db 30 (entry ∷ []))
unfolding logged_minutes_of
one-IsSynced = record {
  ids = (tt, tt);
  named = (refl, tt);
  owned = (refl, tt);
  synced = (λ h. refl, tt);
}

create-IsSynced_example : IsSynced (db 30 (entry ∷ []))
unfolding create new_entry validate_relations task_title insert_entry update_progress
    logged_minutes_of next_status with_progress check_plan_limit check_plan_limit_for_user
    resolve_plan_limits
create-IsSynced_example =
    create-IsSynced zone 1000 "e9" "u1" dto (db 0 []) (db 30 (entry ∷ [])) empty-IsSynced refl

delete-IsSynced_example : IsSynced (db 0 [])
unfolding delete update_progress logged_minutes_of next_status with_progress
delete-IsSynced_example = delete-IsSynced "u1" "e1" (db 30 (entry ∷ [])) (db 0 []) one-IsSynced refl

abbrev report : CompleteTaskDto
report = record { actual_minutes = 45; date = none; notes = none }

abbrev finished : Db
finished = record {
  users = user ∷ [];
  goals = goal 45 ∷ [];
  schedule_blocks = [];
  tasks = record task { status = done; actual_minutes = some 45; completed_at = some 1000 } ∷ [];
  time_entries = entry ∷ completion_entry zone "e2" "u1" 1000 15 report task ∷ [];
}

complete-IsSynced_example : IsSynced finished
unfolding complete complete_write completion_entry tracked_minutes_of insert_entry update_progress
    logged_minutes_of next_status with_progress check_plan_limit check_plan_limit_for_user
    resolve_plan_limits
complete-IsSynced_example =
    complete-IsSynced zone 1000 "e2" "u1" "t1" report (db 30 (entry ∷ [])) finished one-IsSynced
      (refl, tt) refl

complete-minutes_example :
    minutes_of "t1" finished.time_entries ≡ max 45 (tracked_minutes_of "t1" (entry ∷ []))
unfolding complete complete_write completion_entry tracked_minutes_of insert_entry update_progress
    logged_minutes_of next_status with_progress check_plan_limit check_plan_limit_for_user
    resolve_plan_limits
complete-minutes_example =
    complete-minutes zone 1000 "e2" "u1" "t1" report (db 30 (entry ∷ [])) finished refl refl

-- Takes the goal away from the entry.
abbrev without_goal : UpdateTimeEntryDto
without_goal = record {
  task_name = none;
  duration = none;
  date = none;
  notes = none;
  started_at = none;
  task_title = none;
  goal_id = some none;
  schedule_block_id = none;
  task_id = none;
}

update-IsSynced_example : IsSynced (db 0 (record entry { goal_id = none } ∷ []))
unfolding update validate_relations task_title apply_update progress_after_update update_progress
    logged_minutes_of next_status with_progress
update-IsSynced_example =
    update-IsSynced zone "u1" "e1" without_goal (db 30 (entry ∷ []))
      (db 0 (record entry { goal_id = none } ∷ [])) one-IsSynced refl

abbrev open_again : Db
open_again = db 30 (entry ∷ [])

finished-IsSynced : IsSynced finished
unfolding logged_minutes_of completion_entry
finished-IsSynced = record {
  ids = ((λ same. absurd (ground (arith, eq_iff "e1" "e2")), tt), (tt, tt));
  named = (refl, tt);
  owned = (refl, (refl, tt));
  synced = (λ h. refl, tt);
}

abbrev finished_task : Task
finished_task = record task { status = done; actual_minutes = some 45; completed_at = some 1000 }

entry_of : {a b : TimeEntry} → some a ≡ some b → a ≡ b
entry_of h = cc

same_goal_still :
    (t : Task) (e : TimeEntry)
    → find (owned_task_by_id "u1" "t1") finished.tasks ≡ some t
    → find_last (completes t.id) finished.time_entries ≡ some e
    → e.goal_id ≡ t.goal_id
unfolding find_last completion_entry
same_goal_still t e f g =
    let is_task : finished_task ≡ t = cc in
    let is_entry : completion_entry zone "e2" "u1" 1000 15 report task ≡ e = entry_of (
      subst (λ (x : Task). find_last (completes x.id) finished.time_entries ≡ some e) (sym is_task)
        g) in
    ap (λ (x : TimeEntry). x.goal_id) (sym is_entry) ∙ ap (λ (x : Task). x.goal_id) is_task

restore-IsSynced_example : IsSynced open_again
unfolding restore find_last completion_entry logged_minutes_of with_progress
restore-IsSynced_example =
    restore-IsSynced "u1" "t1" finished open_again finished-IsSynced same_goal_still refl
