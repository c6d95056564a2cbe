-- ===== src/Timer/Statements.antt =====
-- The database statements of src/modules/active-timer/active-timer.service.ts, on the slot of one
-- user: the unique index on `userId` holds at most one row for each user. Each is atomic; between
-- two statements of one request other requests may run theirs.
use goal_slot_api.Base.{
  ℕ, ◌+◌, min, Bool, true, false, ◌&&◌, Option, none, some, String, str_eq, if◌then◌else◌,
  unique_violation, Result, ok, err,
}
use goal_slot_api.Timer.Session.{Status, running, paused, SessionRow, open_ms, max_accumulated_ms}

abbrev pub Slot : Type 0
Slot = Option SessionRow

-- `activeTimerSession.create`
unfoldable pub create_row : SessionRow → Slot → Result Slot
create_row row none = ok (some row)
create_row row (some current) = err unique_violation

-- `activeTimerSession.upsert`: an update writes all of `base`, and keeps the key of the row.
unfoldable pub upsert_row : SessionRow → Slot → Slot
upsert_row row none = some row
upsert_row row (some current) = some (record row { id = current.id })

-- The columns that `pause` and `resume` compute from the row that they read.
pub record PausePatch : Type 0 where
  pub id : String
  pub now : ℕ
  pub accumulated_ms : ℕ

unfoldable pub pause_patch : SessionRow → ℕ → PausePatch
pause_patch s now = record {
  id = s.id;
  now = now;
  accumulated_ms = min (s.accumulated_ms + open_ms s.segment_started_at now) max_accumulated_ms;
}

abbrev pub is_running : Status → Bool
is_running running = true
is_running paused = false

abbrev pub is_paused : Status → Bool
is_paused running = false
is_paused paused = true

-- The `updateMany` of `pause`: the count of the rows written, and the slot.
unfoldable pub pause_write : PausePatch → Slot → ℕ × Slot
pause_write p none = (0, none)
pause_write p (some s) =
    if str_eq s.id p.id && is_running s.status
    then (
      1,
      some (record s {
        status = paused;
        segment_started_at = none;
        paused_at = some p.now;
        accumulated_ms = p.accumulated_ms;
      }),
    )
    else (0, some s)

-- The `updateMany` of `resume`.
unfoldable pub resume_write : String → ℕ → Slot → ℕ × Slot
resume_write id now none = (0, none)
resume_write id now (some s) =
    if str_eq s.id id && is_paused s.status
    then (1, some (record s { status = running; segment_started_at = some now; paused_at = none }))
    else (0, some s)

-- The `deleteMany` of `stop`.
unfoldable pub delete_row : String → Slot → ℕ × Slot
delete_row id none = (0, none)
delete_row id (some s) = if str_eq s.id id then (1, none) else (0, some s)

-- The `deleteMany` of `discard`: the slot is the user's.
unfoldable pub discard : Slot → Bool × Slot
discard none = (false, none)
discard (some s) = (true, none)
