-- ===== src/Timer/Races.antt =====
-- Requests of two devices whose statements interleave.
use goal_slot_api.Base.{
  ℕ, ◌-◌, ◌<◌, ◌≡◌, none, some, [], ◌∷◌, ◌++◌, String, arith, eq_refl, ok, err,
}
use goal_slot_api.Db.{TimeEntry, Db}
use goal_slot_api.Tracking.Entries.{insert_entry}
use goal_slot_api.Timer.Session.{running, SessionRow, compute_elapsed_ms}
use goal_slot_api.Timer.Statements.{Slot, upsert_row, pause_patch, pause_write, delete_row}
use goal_slot_api.Timer.Service.{stop_write, already_stopped}

-- After the pause of one device, the pause of another that read the same session writes nothing:
-- the open segment is folded in once, with the time of the first.
pub pause_write_once :
    (s : SessionRow) (now now' : ℕ)
    → s.status ≡ running
    → let slot = (pause_write (pause_patch s now) (some s)).1 in
      (pause_write (pause_patch s now) (some s)).0 ≡ 1
      × (pause_write (pause_patch s now') slot ≡ (0, slot))
unfolding pause_write pause_patch
pause_write_once s now now' r = (ground (arith, eq_refl s.id), ground (arith, eq_refl s.id))

-- Of two stops of one session, in any order of their transactions, the second fails with the
-- conflict, and the entries of both tables are those of the first: one session makes one entry.
pub stop_write_once :
    (entry entry' : TimeEntry) (id : String) (slot slot' : Slot) (db db' : Db)
    → stop_write entry id slot db ≡ ok (slot', db')
    → (slot' ≡ none)
      × (db'.time_entries ≡ db.time_entries ++ entry ∷ [])
      × (stop_write entry' id slot' db' ≡ err already_stopped)
unfolding stop_write delete_row insert_entry
stop_write_once entry entry' id slot slot' db db' h =
    let gone : slot' ≡ none = ground arith in (gone, ground arith, rw gone)

-- A pause that read a session before another device took the timer over (which keeps the row's key)
-- still writes: the new session is paused with the time of the old one, more than has passed since
-- it started, if the old one had run longer than that.
pub take_over-pause_write :
    (old row : SessionRow) (now later : ℕ)
    → old.status ≡ running
    → row.status ≡ running
    → (slot : Slot) → slot ≡ upsert_row row (some old)
    → (s : SessionRow) → (pause_write (pause_patch old now) slot).1 ≡ some s
    → later - row.started_at < (pause_patch old now).accumulated_ms
    → (s.started_at ≡ row.started_at) × (later - s.started_at < compute_elapsed_ms s later)
unfolding pause_write upsert_row compute_elapsed_ms pause_patch
take_over-pause_write old row now later ro rr slot e s h long =
    let e' : slot ≡ some (record row { id = old.id }) = e in
    let h' : (pause_write (pause_patch old now) (some (record row { id = old.id }))).1 ≡ some s =
      rw e' at h in
    (ground (arith, eq_refl old.id), ground (arith, eq_refl old.id))
