-- ===== src/Timer/Examples.antt =====
-- Concrete runs of the timer.
use goal_slot_api.Base.{
  ℕ, ◌+◌, ◌-◌, ◌*◌, ◌≤◌, ◌<◌, ◌≡◌, ◌⊎◌, refl, true, false, none, some, List, [], ◌∷◌, ◌++◌, arith,
  min, ok, err, foreign_key_violation,
}
use goal_slot_api.Db.{TimeEntry, tracker, active, Goal, Db}
use goal_slot_api.Tracking.Entries.{insert_entry}
use goal_slot_api.Tracking.Synced.{IsSynced}
use goal_slot_api.Tracking.Progress.{logged_minutes_of, update_progress, with_progress, next_status}
use goal_slot_api.Timer.Session.{
  Status, running, SessionRow, compute_elapsed_ms, max_session_ms, trim, to_duration_minutes,
  to_local_date_only,
}
use goal_slot_api.Timer.Statements.{
  Slot, create_row, upsert_row, pause_patch, pause_write, delete_row,
}
use goal_slot_api.Timer.Service.{
  AttributionDto, base_row, exists, get_active, start_write, entry_of_stop, stop_write,
  already_stopped, assert_attribution_owned, stop, stop_read,
}
use goal_slot_api.Timer.Elapsed.{
  press_pause, press_resume, Press, presses, elapsed, ticks, runs_at, elapsed_exact,
}
use goal_slot_api.Timer.Invariant.{empty, then, creates, pauses, IsCoherent, Reach-IsCoherent}
use goal_slot_api.Timer.Races.{pause_write_once, stop_write_once, take_over-pause_write}
use goal_slot_api.Timer.Stop.{entry_of_stop-duration, stop-IsSynced}

abbrev goal : Goal
goal = record {
  id = "g1";
  title = "Writing";
  category = none;
  target_centihours = 1000;
  logged_minutes = 0;
  status = active;
  order = 0;
  user_id = "u1";
}

abbrev db : Db
db = record { users = []; goals = goal ∷ []; schedule_blocks = []; tasks = []; time_entries = [] }

abbrev dto : AttributionDto
dto = record {
  task_name = some (some "Draft");
  notes = none;
  goal_id = some (some "g1");
  task_id = none;
  schedule_block_id = none;
  client = none;
}

abbrev session : ℕ → SessionRow
session now = record {
  id = "s1";
  status = running;
  started_at = now;
  segment_started_at = some now;
  paused_at = none;
  accumulated_ms = 0;
  task_name = some "Draft";
  notes = none;
  goal_id = some "g1";
  task_id = none;
  schedule_block_id = none;
  last_client = none;
}

-- A clock two hours ahead of UTC.
abbrev local : ℕ → ℕ
local instant = instant + 7200000

abbrev two_presses : List Press
two_presses = press_pause 61000 ∷ press_resume 100000 ∷ []

elapsed_exact_example :
    elapsed (presses two_presses (some (session 1000))) 130000
    ≡ ticks (runs_at true two_presses) 1000 129000
elapsed_exact_example =
    elapsed_exact two_presses (session 1000) 130000 (refl, refl) refl (ground arith) (ground arith)

Reach-IsCoherent_example :
    IsCoherent (pause_write (pause_patch (session 0) 5000) (some (session 1000))).1
unfolding create_row base_row
Reach-IsCoherent_example =
    Reach-IsCoherent (then (then empty (creates "s1" dto 1000 refl)) (pauses (session 0) 5000))

pause_write_once_example :
    ((pause_write (pause_patch (session 0) 60000) (some (session 0))).0 ≡ 1)
    × (pause_write
          (pause_patch (session 0) 60001)
          (pause_write (pause_patch (session 0) 60000) (some (session 0))).1
        ≡ (0, (pause_write (pause_patch (session 0) 60000) (some (session 0))).1))
pause_write_once_example = pause_write_once (session 0) 60000 60001 refl

abbrev no_row : Slot
no_row = none

abbrev entry : TimeEntry
entry = record {
  id = "e1";
  task_name = "Draft";
  task_title = none;
  duration = 2;
  date = 0;
  started_at = some 0;
  day_of_week = 4;
  notes = none;
  user_id = "u1";
  goal_id = some "g1";
  schedule_block_id = none;
  task_id = none;
  source = tracker;
}

abbrev db_with_entry : Db
db_with_entry = record db { time_entries = entry ∷ [] }

stop_write_once_example :
    (no_row ≡ none)
    × (entry ∷ [] ≡ [] ++ entry ∷ [])
    × (stop_write entry "s1" none db_with_entry ≡ err already_stopped)
unfolding stop_write delete_row insert_entry
stop_write_once_example =
    stop_write_once entry entry "s1" (some (session 0)) none db db_with_entry refl

-- The second of two starts answers with the session of the first.
second_start :
    start_write false none (session 1) 1 (some (session 0)) (some (session 0))
    ≡ ok (exists (get_active (some (session 0)) 1), some (session 0))
unfolding start_write create_row
second_start = refl

-- A goal that was deleted since the checks.
refused_start :
    start_write false (some foreign_key_violation) (session 1) 1 none none
    ≡ err foreign_key_violation
unfolding start_write
refused_start = refl

-- A timer of an hour is taken over, and paused a second later on the word of its first device.
abbrev paused_wrongly : SessionRow
paused_wrongly = record (session 3600000) {
  status = Status.paused;
  segment_started_at = none;
  paused_at = some 3600000;
  accumulated_ms = 3600000;
}

take_over-pause_write_example :
    (paused_wrongly.started_at ≡ (session 3600000).started_at)
    × (3601000 - 3600000 < compute_elapsed_ms paused_wrongly 3601000)
unfolding upsert_row pause_write pause_patch
take_over-pause_write_example =
    take_over-pause_write (session 0) (session 3600000) 3600000 3601000 refl refl
      (some (session 3600000)) refl paused_wrongly refl (ground arith)

entry_of_stop-duration_example :
    let d = (entry_of_stop local db "u1" "e1" dto (session 0) 90000).duration in
    let e = min (compute_elapsed_ms (session 0) 90000) max_session_ms in
    (1 ≤ d) × (d ≤ 720) × (e < d * 60000 + 30000) × ((d ≡ 1) ⊎ (d * 60000 ≤ e + 30000))
entry_of_stop-duration_example = entry_of_stop-duration local db "u1" "e1" dto (session 0) 90000

abbrev renamed : AttributionDto
renamed = record dto { notes = some (some "Chapter 2") }

db-IsSynced : IsSynced db
unfolding logged_minutes_of
db-IsSynced = record { ids = tt; named = (refl, tt); owned = tt; synced = (λ h. refl, tt) }

abbrev db_stopped : Db
db_stopped = record db {
  goals = record goal { logged_minutes = 2 } ∷ [];
  time_entries = entry ∷ [];
}

stop-IsSynced_example : (no_row ≡ none) × IsSynced db_stopped
unfolding stop stop_read stop_write delete_row entry_of_stop assert_attribution_owned insert_entry
    update_progress with_progress trim to_duration_minutes to_local_date_only logged_minutes_of
    next_status compute_elapsed_ms
stop-IsSynced_example =
    stop-IsSynced local "u1" "e1" dto 90000 (session 0) db (none, db_stopped) db-IsSynced refl refl
