-- ===== src/Coach/Blocks.antt =====
-- The schedule blocks that a proposal creates, updates and deletes: `createBlockIdempotent`, the
-- cases CREATE_SCHEDULE_BLOCK, UPDATE_SCHEDULE_BLOCK and DELETE_SCHEDULE_BLOCK of `dispatch`, and
-- `deleteIdempotent` of src/modules/coach-proposals/coach-proposals.service.ts.
use goal_slot_api.Base.{
  ℕ, Bool, true, false, ◌&&◌, Option, none, some, List, [], ◌∷◌, String, str_eq, find, update_where,
  or_else, ◌==◌, if◌then◌else◌, Exception, bad_request, not_found, serialization_failure,
  record_missing, Result, ok, err, ◌>>=◌, ◌>>◌,
}
use goal_slot_api.Db.{Text, ScheduleBlock, Task, TimeEntry, Db, column_eq, truthy}
use goal_slot_api.Notes.Text.{text_eq}
use goal_slot_api.Schedule.Create.{CreateScheduleBlockDto, Fresh, Attempt, create}
use goal_slot_api.Schedule.Update
use goal_slot_api.Schedule.Update.{UpdateScope, Changes, Updated, by_id}
use goal_slot_api.Coach.Titles.{
  Resolution, resolved, ambiguous, no_match, assert_expected_title, resolve_stale_schedule_block,
}

-- What an action answers, with the state that it leaves. An action that throws may have written.
abbrev pub Effect : Type 0 → Type 0
Effect State = Result (Option String) × State

-- A write that throws leaves the state as it was.
abbrev pub settle : {State : Type 0} → Result (Option String × State) → State → Effect State
settle (err thrown) before = (err thrown, before)
settle (ok (id, after)) before = (ok id, after)

-- `err instanceof NotFoundException || err.code === 'P2025'`
abbrev pub is_gone : Exception → Bool
is_gone (not_found _) = true
is_gone record_missing = true
is_gone _ = false

unfoldable pub delete_idempotent : {State : Type 0} → Result State → State → Result State
delete_idempotent (ok after) before = ok after
delete_idempotent (err thrown) before = if is_gone thrown then ok before else err thrown

abbrev pub is_identical : String → CreateScheduleBlockDto → ScheduleBlock → Bool
is_identical user_id dto b =
    str_eq b.user_id user_id
    && (b.day_of_week == dto.day_of_week)
    && text_eq b.start_time dto.start_time
    && text_eq b.end_time dto.end_time
    && str_eq b.title dto.title

abbrev pub created_block :
    Db → Option (Result (ScheduleBlock × List ScheduleBlock)) → Result (Option String × Db)
created_block db none = err serialization_failure
created_block db (some (err thrown)) = err thrown
created_block db (some (ok (block, table))) =
    ok (some block.id, record db { schedule_blocks = table })

-- `schedule.create` with one attempt that the database does not abort: requests do not overlap.
unfoldable pub schedule_create :
    ℕ → Fresh → String → CreateScheduleBlockDto → Db → Result (Option String × Db)
schedule_create now fresh user_id dto db =
    let attempt : Attempt = record { table = db.schedule_blocks; aborted = false } in
    created_block db (create db now fresh user_id dto (attempt ∷ []))

abbrev pub existing_or :
    Option ScheduleBlock → Db → Result (Option String × Db) → Result (Option String × Db)
existing_or none db created = created
existing_or (some b) db created = ok (some b.id, db)

unfoldable pub create_block_idempotent :
    ℕ → (Db → Fresh) → String → CreateScheduleBlockDto → Db → Result (Option String × Db)
create_block_idempotent now made_up user_id dto db =
    existing_or (find (is_identical user_id dto) db.schedule_blocks) db
      (schedule_create now (made_up db) user_id dto db)

abbrev pub in_series_on : String → ℕ → CreateScheduleBlockDto → CreateScheduleBlockDto
in_series_on series_id day dto = record dto {
  day_of_week = day;
  series_id = some series_id;
  is_recurring = some true;
}

-- `if (!firstId) firstId = id`
abbrev pub or_first : Option String → Option String → Option String
or_first first id = if truthy first then first else id

-- The `try … catch` of one day: a day that is refused as a bad request is skipped.
abbrev pub next_day :
    Result (Option String × Db) → Option String → Db → (Option String → Db → Effect Db) → Effect Db
next_day (ok (id, db')) first db rest = rest (or_first first id) db'
next_day (err (bad_request _)) first db rest = rest first db
next_day (err thrown) first db rest = (err thrown, db)

-- The loop over the days; another exception leaves the blocks of the days before.
unfoldable pub fan_out :
    ℕ
    → (Db → Fresh)
    → String
    → CreateScheduleBlockDto
    → String
    → List ℕ
    → Option String
    → Db
    → Effect Db
fan_out now made_up user_id dto series_id [] first db = (ok first, db)
fan_out now made_up user_id dto series_id (d ∷ days) first db =
    next_day (create_block_idempotent now made_up user_id (in_series_on series_id d dto) db) first
      db (fan_out now made_up user_id dto series_id days)

-- One day, or none in `daysOfWeek`: a single block; more: a series.
unfoldable pub create_schedule_block :
    ℕ → (Db → Fresh) → String → List ℕ → CreateScheduleBlockDto → Db → Effect Db
create_schedule_block now made_up user_id (d ∷ d' ∷ days) dto db =
    fan_out now made_up user_id dto (made_up db).series_id (d ∷ d' ∷ days) none db
create_schedule_block now made_up user_id _ dto db =
    settle (create_block_idempotent now made_up user_id dto db) db

-- `updated?.id ?? id`
abbrev pub updated_id : String → Option ScheduleBlock → String
updated_id id none = id
updated_id id (some b) = b.id

abbrev pub updated_block : String → Db → Updated → Option String × Db
updated_block id db (found, table) =
    (some (updated_id id found), record db { schedule_blocks = table })

unfoldable pub schedule_update :
    String → String → UpdateScope → Changes → Db → Result (Option String × Db)
schedule_update user_id id scope c db =
    Update.update db user_id id scope c >>= λ found. ok (updated_block id db found)

module _ (lower : Text → Text) where
  -- `if (expectedTitle) await this.assertExpectedTitle(...)`
  unfoldable pub assert_title : String → String → Option String → Db → Result (Unit {0})
  assert_title user_id id expected_title db =
      if truthy expected_title
      then assert_expected_title lower user_id id (or_else expected_title "") db.schedule_blocks
      else ok tt

  abbrev pub update_resolved :
      String → Option String → UpdateScope → Changes → Db → Resolution → Result (Option String × Db)
  update_resolved user_id expected_title scope c db (resolved id) = do
    assert_title user_id id expected_title db
    schedule_update user_id id scope c db
  update_resolved user_id expected_title scope c db ambiguous =
      err (not_found "multiple blocks in your current schedule could match")
  update_resolved user_id expected_title scope c db no_match =
      err (not_found "this schedule block no longer exists in your current schedule")

  -- The `catch` around the update.
  abbrev pub recover :
      String
      → Option String
      → UpdateScope
      → Changes
      → Db
      → Result (Option String × Db)
      → Result (Option String × Db)
  recover user_id expected_title scope c db (err (not_found _)) =
      update_resolved user_id expected_title scope c db
        (resolve_stale_schedule_block lower user_id c expected_title db.schedule_blocks)
  recover user_id expected_title scope c db first = first

  unfoldable pub update_schedule_block :
      String → String → Option String → UpdateScope → Changes → Db → Result (Option String × Db)
  update_schedule_block user_id id expected_title scope c db = do
    assert_title user_id id expected_title db
    recover user_id expected_title scope c db (schedule_update user_id id scope c db)

-- `onDelete: SetNull` of the two relations to a block.
abbrev pub task_of_block : String → Task → Bool
task_of_block id t = column_eq t.schedule_block_id id

abbrev pub entry_of_block : String → TimeEntry → Bool
entry_of_block id e = column_eq e.schedule_block_id id

abbrev pub unlink_task : Task → Task
unlink_task t = record t { schedule_block_id = none }

abbrev pub unlink_entry : TimeEntry → TimeEntry
unlink_entry e = record e { schedule_block_id = none }

unfoldable pub schedule_delete : String → String → Db → Result Db
schedule_delete user_id id db = Update.delete user_id id db.schedule_blocks >>= λ table.
    ok (record db {
      schedule_blocks = table;
      tasks = update_where (task_of_block id) unlink_task db.tasks;
      time_entries = update_where (entry_of_block id) unlink_entry db.time_entries;
    })
