-- ===== src/Timer/Service.antt =====
-- The operations of src/modules/active-timer/active-timer.service.ts. Each statement stands at the
-- slot that it meets: where an operation has several, `at_write` and `at_reread` are the slots at
-- its write and at its last read, so that other requests may come between.
use goal_slot_api.Base.{
  ℕ, min, Bool, true, false, not, ◌&&◌, Option, none, some, String, find, count, or_else, ◌==◌,
  if◌then◌else◌, Exception, bad_request, not_found, unique_violation, Result, ok, err, ◌>>=◌, ◌>>◌,
  throw_if,
}
use goal_slot_api.Db.{TimeEntry, tracker, Db, truthy}
use goal_slot_api.Plan.{tasks_per_day, check_plan_limit}
use goal_slot_api.Tracking.Entries.{
  Zone, owns_goal, owns_block, owns_task, owned_task, title_of, in_day, insert_entry, progress_if,
}
use goal_slot_api.Timer.Session.{
  running, SessionRow, max_session_ms, compute_elapsed_ms, to_duration_minutes, to_local_date_only,
  utc_day, Response, to_response, trim,
}
use goal_slot_api.Timer.Statements.{
  Slot, create_row, upsert_row, pause_patch, is_running, is_paused, pause_write, resume_write,
  delete_row,
}

unfoldable pub get_active : Slot → ℕ → Option Response
get_active none now = none
get_active (some s) now = some (to_response s now)

abbrev pub no_session : Exception
no_session = not_found "No active timer session"

-- A field of a dto: `none` is left out, `some none` is null.
abbrev pub Field : Type 0
Field = Option (Option String)

pub record AttributionDto : Type 0 where
  pub task_name : Field
  pub notes : Field
  pub goal_id : Field
  pub task_id : Field
  pub schedule_block_id : Field
  pub client : Field

-- Of several failing checks the first in this order is reported; the source reports the one whose
-- query answers first.
unfoldable pub assert_attribution_owned : Db → String → AttributionDto → Result (Unit {0})
assert_attribution_owned db user_id dto = do
  let goal_id = or_else dto.goal_id none
  let task_id = or_else dto.task_id none
  let schedule_block_id = or_else dto.schedule_block_id none
  throw_if (truthy goal_id && not (owns_goal db user_id goal_id)) (bad_request "Goal not found")
  throw_if (truthy task_id && not (owns_task db user_id task_id)) (bad_request "Task not found")
  throw_if (truthy schedule_block_id && not (owns_block db user_id schedule_block_id))
      (bad_request "Schedule block not found")

unfoldable pub assert_daily_entry_headroom : Zone → Db → String → ℕ → Result (Unit {0})
assert_daily_entry_headroom zone db user_id now =
    check_plan_limit db now user_id tasks_per_day (count (in_day zone user_id now) db.time_entries)

unfoldable pub base_row : String → AttributionDto → ℕ → SessionRow
base_row fresh_id dto now = record {
  id = fresh_id;
  status = running;
  started_at = now;
  segment_started_at = some now;
  paused_at = none;
  accumulated_ms = 0;
  task_name = or_else dto.task_name none;
  notes = or_else dto.notes none;
  goal_id = or_else dto.goal_id none;
  task_id = or_else dto.task_id none;
  schedule_block_id = or_else dto.schedule_block_id none;
  last_client = or_else dto.client none;
}

-- What `start` answers: a session, or the conflict (409) with the session that is there.
pub data Started : Type 0 where
  started : Response → Started
  exists : Option Response → Started

-- A write that the database may refuse for a reason of its own, such as the foreign key of a goal
-- that was deleted since the checks.
abbrev pub unless_refused : Option Exception → Result Slot → Result Slot
unless_refused none written = written
unless_refused (some thrown) written = err thrown

abbrev pub is_unique_violation : Exception → Bool
is_unique_violation unique_violation = true
is_unique_violation _ = false

-- `catch`: any error but that of the unique index is thrown again.
abbrev pub start_created : SessionRow → ℕ → Slot → Slot → Result Slot → Result (Started × Slot)
start_created row now at_write at_reread (ok slot) = ok (started (to_response row now), slot)
start_created row now at_write at_reread (err thrown) =
    if is_unique_violation thrown
    then ok (exists (get_active at_reread now), at_write)
    else err thrown

-- The write of `start`, after its checks.
unfoldable pub start_write :
    Bool → Option Exception → SessionRow → ℕ → Slot → Slot → Result (Started × Slot)
start_write true refused row now at_write at_reread =
    unless_refused refused (ok (upsert_row row at_write)) >>= λ slot.
    ok (started (to_response (or_else slot row) now), slot)
start_write false refused row now at_write at_reread =
    start_created row now at_write at_reread (unless_refused refused (create_row row at_write))

unfoldable pub start :
    Zone
    → Db
    → String
    → String
    → AttributionDto
    → Bool
    → ℕ
    → Option Exception
    → Slot
    → Slot
    → Result (Started × Slot)
start zone db user_id fresh_id dto take_over now refused at_write at_reread = do
  assert_attribution_owned db user_id dto
  assert_daily_entry_headroom zone db user_id now
  start_write take_over refused (base_row fresh_id dto now) now at_write at_reread

-- With no other request between its statements.
unfoldable pub pause : ℕ → Slot → Result (Option Response × Slot)
pause now none = err no_session
pause now (some s) =
    if is_paused s.status
    then ok (some (to_response s now), some s)
    else (let slot = (pause_write (pause_patch s now) (some s)).1 in ok (get_active slot now, slot))

unfoldable pub resume : ℕ → Slot → Result (Option Response × Slot)
resume now none = err no_session
resume now (some s) =
    if is_running s.status
    then ok (some (to_response s now), some s)
    else (let slot = (resume_write s.id now (some s)).1 in ok (get_active slot now, slot))

-- The `update` of `updateAttribution`; an empty change writes nothing, which is the same.
unfoldable pub attributed : AttributionDto → SessionRow → SessionRow
attributed dto s = record s {
  task_name = or_else dto.task_name s.task_name;
  notes = or_else dto.notes s.notes;
  goal_id = or_else dto.goal_id s.goal_id;
  task_id = or_else dto.task_id s.task_id;
  schedule_block_id = or_else dto.schedule_block_id s.schedule_block_id;
  last_client = or_else dto.client s.last_client;
}

unfoldable pub update_attribution :
    Db → String → AttributionDto → ℕ → Slot → Result (Response × Slot)
update_attribution db user_id dto now none = err no_session
update_attribution db user_id dto now (some s) = do
  assert_attribution_owned db user_id dto
  ok (to_response (attributed dto s) now, some (attributed dto s))

-- `text?.trim() || …`
abbrev pub trimmed : Option String → Option String
trimmed none = none
trimmed (some t) = some (trim t)

abbrev pub first_truthy : Option String → Option String → String → String
first_truthy a b d = if truthy a then or_else a d else if truthy b then or_else b d else d

unfoldable pub entry_of_stop :
    (ℕ → ℕ) → Db → String → String → AttributionDto → SessionRow → ℕ → TimeEntry
entry_of_stop local_ms db user_id entry_id dto s now =
    let task_id = or_else dto.task_id s.task_id in
    let title =
      if truthy task_id then title_of (find (owned_task user_id task_id) db.tasks) else none in
    let date = to_local_date_only local_ms s.started_at in
    record {
      id = entry_id;
      task_name =
          first_truthy (trimmed (or_else dto.task_name s.task_name)) title "Untitled session";
      task_title = title;
      duration = to_duration_minutes (min (compute_elapsed_ms s now) max_session_ms);
      date = date;
      started_at = some s.started_at;
      day_of_week = utc_day date;
      notes = or_else dto.notes s.notes;
      user_id = user_id;
      goal_id = or_else dto.goal_id s.goal_id;
      schedule_block_id = or_else dto.schedule_block_id s.schedule_block_id;
      task_id = task_id;
      source = tracker;
    }

abbrev pub already_stopped : Exception
already_stopped = Exception.conflict "This timer session was already stopped by another device."

-- The transaction of `stop`: the delete, its count, and the insert; a failure undoes both.
unfoldable pub stop_write : TimeEntry → String → Slot → Db → Result (Slot × Db)
stop_write entry session_id slot db = do
  throw_if ((delete_row session_id slot).0 == 0) already_stopped
  insert_entry entry db >>= λ db'. ok ((delete_row session_id slot).1, db')

-- `stop` of the session that it read; `at_write` and `db'` are what its transaction meets.
unfoldable pub stop_read :
    (ℕ → ℕ)
    → String
    → String
    → AttributionDto
    → ℕ
    → SessionRow
    → Db
    → Slot
    → Db
    → Result (Slot × Db)
stop_read local_ms user_id entry_id dto now s db at_write db' = do
  assert_attribution_owned db user_id dto
  let entry = entry_of_stop local_ms db user_id entry_id dto s now
  stop_write entry s.id at_write db' >>= λ r.
      ok (r.0, progress_if (or_else dto.goal_id s.goal_id) user_id r.1)

unfoldable pub stop :
    (ℕ → ℕ) → String → String → AttributionDto → ℕ → Slot → Db → Result (Slot × Db)
stop local_ms user_id entry_id dto now none db = err no_session
stop local_ms user_id entry_id dto now (some s) db =
    stop_read local_ms user_id entry_id dto now s db (some s) db
