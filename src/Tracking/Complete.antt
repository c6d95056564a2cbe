-- ===== src/Tracking/Complete.antt =====
-- What `complete` and `restore` of tasks.service.ts keep of the hours of goals and tasks.
use goal_slot_api.Base.{
  ℕ, ◌+◌, ◌-◌, ◌≡◌, refl, false, not, ◌&&◌, max, inl, inr, none, some, List, [], ◌∷◌, ◌++◌, String,
  arith, >>=-eq-ok, >>-eq-ok, ◌>>=◌, find, find-some, All, All-at, eq_iff, eq_refl, Bool-cases,
  Option-cases, if◌then◌else◌, ok, update_where, ◌⊎◌, ltb, count, or_else,
}
use goal_slot_api.Db.{Task, TimeEntry, Db, truthy, column_eq}
use goal_slot_api.Plan.{tasks_per_day, check_plan_limit}
use goal_slot_api.Tracking.Entries.{Zone, owns_goal, insert_entry, progress_if, in_day}
use goal_slot_api.Tracking.Synced.{IsSynced}
use goal_slot_api.Tracking.Keeps.{progress_if-entries, insert_entry-IsSynced}
use goal_slot_api.Tracking.Tasks.{
  owned_task_by_id, task_by_id, mark_done, tracked_minutes_of, CompleteTaskDto, completion_entry,
  complete_write, complete_found, complete,
}

-- The minutes of all entries of a task, of either source.
abbrev pub minutes_of : String → List TimeEntry → ℕ
minutes_of task_id [] = 0
minutes_of task_id (e ∷ es) =
    let rest = minutes_of task_id es in
    if column_eq e.task_id task_id then e.duration + rest else rest

-- The goal of a task, if any, belongs to the user of the task.
abbrev pub TaskHasOwnGoal : Db → Task → Type 0
TaskHasOwnGoal db t = (truthy t.goal_id && not (owns_goal db t.user_id t.goal_id)) ≡ false

minutes_of-snoc :
    (task_id : String) (es : List TimeEntry) (e : TimeEntry)
    → e.task_id ≡ some task_id
    → minutes_of task_id (es ++ e ∷ []) ≡ minutes_of task_id es + e.duration
minutes_of-snoc task_id [] e h = ground (arith, eq_refl task_id)
minutes_of-snoc task_id (x ∷ es) e h = ground (arith, minutes_of-snoc task_id es e h)

abbrev marked : ℕ → CompleteTaskDto → Task → Db → Db
marked log_date dto task d = record d {
  tasks = update_where (task_by_id task.id) (mark_done dto.actual_minutes log_date) d.tasks;
}

abbrev entries_with : TimeEntry → Db → Db
entries_with entry d = record d { time_entries = d.time_entries ++ entry ∷ [] }

insert_entry_inv :
    (entry : TimeEntry) (db d : Db) → insert_entry entry db ≡ ok d → d ≡ entries_with entry db
unfolding insert_entry
insert_entry_inv entry db d h = ground arith

module _ (zone : Zone) (fresh_id user_id : String) (log_date remaining : ℕ) (dto : CompleteTaskDto)
    (task : Task) (db db' : Db)
    (h : complete_write zone fresh_id user_id log_date remaining dto task db ≡ ok db') where
  complete_write_inv :
      ((remaining ≡ 0) × (marked log_date dto task db ≡ db'))
      ⊎ ((insert_entry (completion_entry zone fresh_id user_id log_date remaining dto task) db
            ≡ ok (
                entries_with
                  (completion_entry zone fresh_id user_id log_date remaining dto task)
                  db))
          × (progress_if task.goal_id user_id (
                marked log_date dto task (
                  entries_with
                    (completion_entry zone fresh_id user_id log_date remaining dto task)
                    db))
              ≡ db'))
  unfolding complete_write
  complete_write_inv =
      let entry = completion_entry zone fresh_id user_id log_date remaining dto task in
      elim (Bool-cases (ltb 0 remaining)) [
        | inl more ↦
            let h' : (insert_entry entry db >>= λ d.
            ok (progress_if task.goal_id user_id (marked log_date dto task d)))
                ≡ ok db' =
              rw more at h in
            let (d, inserted, e) = >>=-eq-ok (insert_entry entry db) _ h' in
            let same : d ≡ entries_with entry db = insert_entry_inv entry db d inserted in
            let e' : progress_if task.goal_id user_id (marked log_date dto task d) ≡ db' = cc in
            inr (rw same at inserted, rw same at e')
        | inr nothing ↦
            let h' : ok (marked log_date dto task db) ≡ ok db' = rw nothing at h in
            inl (ground arith, cc)
      ]

  complete_write-IsSynced :
      IsSynced db
      → (truthy task.goal_id && not (owns_goal db user_id task.goal_id)) ≡ false
      → IsSynced db'
  unfolding completion_entry insert_entry
  complete_write-IsSynced v own =
      let entry = completion_entry zone fresh_id user_id log_date remaining dto task in
      let v' : IsSynced (marked log_date dto task db) = record {
        ids = v.ids;
        named = v.named;
        owned = v.owned;
        synced = v.synced;
      } in
      elim complete_write_inv [
        | inl (z, e) ↦ rw (← e) v'
        | inr (inserted, e) ↦
            let i : insert_entry entry (marked log_date dto task db)
                ≡ ok (marked log_date dto task (entries_with entry db)) =
              ground arith in
            rw (← e) (
              insert_entry-IsSynced entry (marked log_date dto task db)
                (marked log_date dto task (entries_with entry db)) v' own i)
      ]

  complete_write-minutes :
      minutes_of task.id db'.time_entries ≡ minutes_of task.id db.time_entries + remaining
  unfolding completion_entry
  complete_write-minutes =
      let entry = completion_entry zone fresh_id user_id log_date remaining dto task in
      elim complete_write_inv [
        | inl (z, e) ↦ rw (← e) (omega arith)
        | inr (inserted, e) ↦
            let all = marked log_date dto task (entries_with entry db) in
            rw (← e, progress_if-entries task.goal_id user_id all)
              (minutes_of-snoc task.id db.time_entries entry refl)
      ]

-- A successful `complete` is of a task of the caller's, and does the writes for what remains of the
-- reported minutes.
complete_inv :
    (zone : Zone) (now : ℕ) (fresh_id user_id task_id : String) (dto : CompleteTaskDto)
    (db db' : Db)
    → complete zone now fresh_id user_id task_id dto db ≡ ok db'
    → (task : Task) × (find (owned_task_by_id user_id task_id) db.tasks ≡ some task)
      × (complete_write zone fresh_id user_id
            (or_else dto.date now)
            (dto.actual_minutes - tracked_minutes_of task.id db.time_entries)
            dto
            task
            db
          ≡ ok db')
unfolding complete
complete_inv zone now fresh_id user_id task_id dto db db' h =
    elim (Option-cases (find (owned_task_by_id user_id task_id) db.tasks)) [
      | inl missing ↦
          let h' : complete_found zone now fresh_id user_id dto db none ≡ ok db' =
            rw missing at h in
          absurd (ground arith)
      | inr (task, f) ↦
          let h' : complete_found zone now fresh_id user_id dto db (some task) ≡ ok db' =
            rw f at h in
          let (checked, w) =
            >>-eq-ok
              (check_plan_limit db now user_id tasks_per_day
                (count (in_day zone user_id (or_else dto.date now)) db.time_entries))
              _ h' in
          (task, f, w)
    ]

-- A successful `complete` of a task keeps the hours of every goal the sum of its entries, if every
-- task's goal, where it has one, belongs to the task's user.
pub complete-IsSynced :
    (zone : Zone) (now : ℕ) (fresh_id user_id task_id : String) (dto : CompleteTaskDto)
    (db db' : Db)
    → IsSynced db
    → All (TaskHasOwnGoal db) db.tasks
    → complete zone now fresh_id user_id task_id dto db ≡ ok db'
    → IsSynced db'
complete-IsSynced zone now fresh_id user_id task_id dto db db' v own h =
    let (task, f, w) = complete_inv zone now fresh_id user_id task_id dto db db' h in
    let (m, q) = find-some (owned_task_by_id user_id task_id) db.tasks f in
    let mine : TaskHasOwnGoal db task = All-at (TaskHasOwnGoal db) db.tasks own m in
    let user : task.user_id ≡ user_id = ground (arith, eq_iff task.user_id user_id) in
    complete_write-IsSynced zone fresh_id user_id (or_else dto.date now)
      (dto.actual_minutes - tracked_minutes_of task.id db.time_entries) dto task db db' w v
      (rw user at mine)

-- After a successful `complete` of a task that had no completion entry, the entries of the task
-- make up the minutes that the request reports, or those that were tracked where these are more.
pub complete-minutes :
    (zone : Zone) (now : ℕ) (fresh_id user_id task_id : String) (dto : CompleteTaskDto)
    (db db' : Db)
    → minutes_of task_id db.time_entries ≡ tracked_minutes_of task_id db.time_entries
    → complete zone now fresh_id user_id task_id dto db ≡ ok db'
    → minutes_of task_id db'.time_entries
      ≡ max dto.actual_minutes (tracked_minutes_of task_id db.time_entries)
complete-minutes zone now fresh_id user_id task_id dto db db' none_yet h =
    let (task, f, w) = complete_inv zone now fresh_id user_id task_id dto db db' h in
    let (m, q) = find-some (owned_task_by_id user_id task_id) db.tasks f in
    let same : task.id ≡ task_id = ground (arith, eq_iff task.id task_id) in
    let w' =
      complete_write-minutes zone fresh_id user_id (or_else dto.date now)
        (dto.actual_minutes - tracked_minutes_of task.id db.time_entries) dto task db db' w in
    let w'' : minutes_of task_id db'.time_entries
        ≡ minutes_of task_id db.time_entries
          + (dto.actual_minutes - tracked_minutes_of task_id db.time_entries) =
      rw same at w' in
    omega arith
