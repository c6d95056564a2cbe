-- ===== src/Coach/Frame.antt =====
-- Predicates on the tables that do not read tasks and time entries: what the operations on these
-- two tables keep of them.
use goal_slot_api.Base.{
  ◌≡◌, subst, inl, inr, Bool-cases, Option, none, some, List, String, ℕ, arith, ok, ◌>>=◌,
  >>=-eq-ok, >>-eq-ok, find, is_some, ◌||◌, ◌++◌, ◌∷◌, [], if◌then◌else◌, ok-injective,
}
use goal_slot_api.Db.{Task, TimeEntry, Db, truthy}
use goal_slot_api.Tracking.Progress.{update_progress}
use goal_slot_api.Tracking.Entries
use goal_slot_api.Tracking.Entries.{
  Zone, validate_relations, CreateTimeEntryDto, UpdateTimeEntryDto, progress_if,
  progress_after_update, insert_entry, new_entry, task_title, owned_entry, update_found,
  delete_found, same_goal, new_goal_id,
}
use goal_slot_api.Tracking.Tasks
use goal_slot_api.Tracking.Tasks.{CreateTaskDto, UpdateTaskDto}

pub record IsFramed (P : Db → Type 0) : Type 0 where
  pub entries : (db : Db) (rows : List TimeEntry) → P db → P (record db { time_entries = rows })
  pub tasks : (db : Db) (rows : List Task) → P db → P (record db { tasks = rows })
  pub progress :
      (goal_id user_id : String) (db : Db) → P db → P (update_progress goal_id user_id db)

inserted_entry :
    (entry : TimeEntry) (db db' : Db)
    → insert_entry entry db ≡ ok db'
    → db' ≡ record db { time_entries = db.time_entries ++ entry ∷ [] }
unfolding insert_entry
inserted_entry entry db db' h = ground arith

module _ {P : Db → Type 0} (framed : IsFramed P) where
  progress_if-keeps :
      (key : Option String) (user_id : String) (db : Db) → P db → P (progress_if key user_id db)
  progress_if-keeps none user_id db h = h
  progress_if-keeps (some g) user_id db h = elim (Bool-cases (truthy (some g))) [
    | inl has ↦ rw has (framed.progress g user_id db h)
    | inr empty ↦ rw empty h
  ]

  progress_after_update-keeps :
      (dto : UpdateTimeEntryDto) (old : Option String) (user_id : String) (db : Db)
      → P db
      → P (progress_after_update dto old user_id db)
  unfolding progress_after_update
  progress_after_update-keeps dto old user_id db h =
      let new = new_goal_id dto.goal_id old in
      let before : P (if same_goal old new then db else progress_if old user_id db) =
        elim (Bool-cases (same_goal old new)) [
          | inl same ↦ rw same h
          | inr other ↦ rw other (progress_if-keeps old user_id db h)
        ] in
      elim (Bool-cases (is_some dto.duration || is_some dto.goal_id)) [
        | inl touched ↦ rw touched (progress_if-keeps new user_id _ before)
        | inr untouched ↦ rw untouched h
      ]

  pub entry_create-keeps :
      (zone : Zone) (now : ℕ) (fresh_id user_id : String) (dto : CreateTimeEntryDto) (db db' : Db)
      → P db
      → Entries.create zone now fresh_id user_id dto db ≡ ok db'
      → P db'
  unfolding Entries.create
  entry_create-keeps zone now fresh_id user_id dto db db' h e =
      let entry =
        new_entry zone fresh_id (task_title db user_id dto.task_id dto.task_title) user_id dto in
      let inserted : (insert_entry entry db >>= λ x. ok (progress_if dto.goal_id user_id x))
          ≡ ok db' =
        ground arith in
      let (mid, first, last) = >>=-eq-ok (insert_entry entry db) _ inserted in
      let added : mid ≡ record db { time_entries = db.time_entries ++ entry ∷ [] } =
        inserted_entry entry db mid first in
      let same : progress_if dto.goal_id user_id mid ≡ db' = cc in
      subst P same (progress_if-keeps dto.goal_id user_id mid (rw added (framed.entries db _ h)))

  pub entry_update-keeps :
      (zone : Zone) (user_id id : String) (dto : UpdateTimeEntryDto) (db db' : Db)
      → P db
      → Entries.update zone user_id id dto db ≡ ok db'
      → P db'
  unfolding Entries.update
  entry_update-keeps zone user_id id dto db db' h e =
      of_found (find (owned_entry user_id id) db.time_entries)
        (>>-eq-ok (validate_relations db user_id _ _ _) _ e).1
    where
      of_found :
          (entry : Option TimeEntry) → update_found zone user_id id dto db entry ≡ ok db' → P db'
      of_found none e = cc
      of_found (some entry) e =
          subst P (ok-injective e)
            (progress_after_update-keeps dto entry.goal_id user_id _ (framed.entries db _ h))

  pub entry_delete-keeps :
      (user_id id : String) (db db' : Db) → P db → Entries.delete user_id id db ≡ ok db' → P db'
  unfolding Entries.delete
  entry_delete-keeps user_id id db db' h e =
      of_found (find (owned_entry user_id id) db.time_entries) e
    where
      of_found : (entry : Option TimeEntry) → delete_found user_id id db entry ≡ ok db' → P db'
      of_found none e = cc
      of_found (some entry) e =
          subst P (ok-injective e)
            (progress_if-keeps entry.goal_id user_id _ (framed.entries db _ h))

  pub task_create-keeps :
      (fresh_id user_id : String) (dto : CreateTaskDto) (db db' : Db)
      → P db
      → Tasks.create_task fresh_id user_id dto db ≡ ok db'
      → P db'
  unfolding Tasks.create_task
  task_create-keeps fresh_id user_id dto db db' h e =
      let same : db' ≡ record db { tasks = db'.tasks } = ground arith in
      rw same (framed.tasks db db'.tasks h)

  pub task_update-keeps :
      (user_id id : String) (dto : UpdateTaskDto) (db db' : Db)
      → P db
      → Tasks.update_task user_id id dto db ≡ ok db'
      → P db'
  unfolding Tasks.update_task
  task_update-keeps user_id id dto db db' h e =
      let same : db' ≡ record db { tasks = db'.tasks } = ground arith in
      rw same (framed.tasks db db'.tasks h)

  pub task_delete-keeps :
      (user_id id : String) (db db' : Db) → P db → Tasks.delete_task user_id id db ≡ ok db' → P db'
  unfolding Tasks.delete_task
  task_delete-keeps user_id id db db' h e =
      let same : db' ≡ record db { tasks = db'.tasks; time_entries = db'.time_entries } =
        ground arith in
      rw same (
        framed.entries (record db { tasks = db'.tasks }) db'.time_entries
          (framed.tasks db db'.tasks h))
