-- ===== src/Timer/Stop.antt =====
-- What `stop` and `updateAttribution` make of a session.
use goal_slot_api.Base.{
  >>-eq-ok, ℕ, ◌+◌, ◌*◌, ◌≤◌, ◌<◌, ◌≡◌, ◌⊎◌, refl, ap, false, not, ◌&&◌, none, some, String, arith,
  min, or_else, >>=-eq-ok, ◌>>=◌, ok, eq_refl, Option-cases, inl, inr, ◌/◌,
}
use goal_slot_api.Db.{Db, truthy}
use goal_slot_api.Tracking.Entries.{owns_goal, insert_entry, progress_if}
use goal_slot_api.Tracking.Synced.{IsSynced, HasOwnGoal}
use goal_slot_api.Tracking.Keeps.{insert_entry-IsSynced}
use goal_slot_api.Timer.Session.{
  SessionRow, to_response, compute_elapsed_ms, to_duration_minutes, to_local_date_only, utc_day,
  max_session_ms, ms_per_day, Response,
}
use goal_slot_api.Timer.Statements.{Slot, delete_row}
use goal_slot_api.Timer.Service.{
  AttributionDto, attributed, update_attribution, assert_attribution_owned, entry_of_stop,
  stop_write, stop_read, stop,
}

-- The entry of a stop has between 1 minute and 12 hours, and is the capped elapsed time to the
-- nearest minute (halves up) but for the floor of one minute.
pub entry_of_stop-duration :
    (local_ms : ℕ → ℕ) (db : Db) (user_id entry_id : String) (dto : AttributionDto) (s : SessionRow)
    (now : ℕ)
    → let d = (entry_of_stop local_ms db user_id entry_id dto s now).duration in
      let e = min (compute_elapsed_ms s now) max_session_ms in
      (1 ≤ d) × (d ≤ 720) × (e < d * 60000 + 30000) × ((d ≡ 1) ⊎ (d * 60000 ≤ e + 30000))
unfolding entry_of_stop to_duration_minutes
entry_of_stop-duration local_ms db user_id entry_id dto s now = ground arith

-- The date of the entry is the midnight that begins the local calendar day on which the session
-- started, and its day of the week is that of the date.
entry_of_stop-date :
    (local_ms : ℕ → ℕ) (db : Db) (user_id entry_id : String) (dto : AttributionDto) (s : SessionRow)
    (now : ℕ)
    → let entry = entry_of_stop local_ms db user_id entry_id dto s now in
      (entry.date ≤ local_ms s.started_at)
      × (local_ms s.started_at < entry.date + ms_per_day)
      × ((days : ℕ) × (entry.date ≡ days * ms_per_day)
          × (entry.day_of_week ≡ utc_day (days * ms_per_day)))
unfolding entry_of_stop to_local_date_only
entry_of_stop-date local_ms db user_id entry_id dto s now =
    (ground arith, ground arith, (local_ms s.started_at / ms_per_day, refl, refl))

-- A change of the attribution never moves the clock: what `elapsedMs` reads is the same at every
-- instant before and after.
update_attribution-elapsed :
    (db : Db) (user_id : String) (dto : AttributionDto) (now : ℕ) (slot : Slot)
    (r : Response × Slot)
    → update_attribution db user_id dto now slot ≡ ok r
    → (s t : SessionRow) × (slot ≡ some s)
      × (r.1 ≡ some t)
      × (t.id ≡ s.id)
      × (t.started_at ≡ s.started_at)
      × ((later : ℕ) → compute_elapsed_ms t later ≡ compute_elapsed_ms s later)
unfolding update_attribution attributed compute_elapsed_ms to_response
update_attribution-elapsed db user_id dto now none r h = absurd (ground arith)
update_attribution-elapsed db user_id dto now (some s) r h =
    let (checked, e) = >>-eq-ok (assert_attribution_owned db user_id dto) _ h in
    let e' : r ≡ (to_response (attributed dto s) now, some (attributed dto s)) = cc in
    (s, attributed dto s, refl, ap (λ x. x.1) e', refl, refl, λ later. refl)

stopped_goal :
    (local_ms : ℕ → ℕ) (user_id entry_id : String) (dto : AttributionDto) (now : ℕ) (s : SessionRow)
    (db : Db)
    → (truthy s.goal_id && not (owns_goal db user_id s.goal_id)) ≡ false
    → assert_attribution_owned db user_id dto ≡ ok tt
    → HasOwnGoal db (entry_of_stop local_ms db user_id entry_id dto s now)
unfolding assert_attribution_owned entry_of_stop
stopped_goal local_ms user_id entry_id dto now s db own checked = elim (Option-cases dto.goal_id) [
  | inl without ↦ rw without own
  | inr (g, has) ↦ ground arith
]

-- A successful `stop` empties the slot, and keeps the hours of every goal the sum of its entries,
-- if the goal of the session, where it has one, belongs to the user.
pub stop-IsSynced :
    (local_ms : ℕ → ℕ) (user_id entry_id : String) (dto : AttributionDto) (now : ℕ) (s : SessionRow)
    (db : Db) (r : Slot × Db)
    → IsSynced db
    → (truthy s.goal_id && not (owns_goal db user_id s.goal_id)) ≡ false
    → stop local_ms user_id entry_id dto now (some s) db ≡ ok r
    → (r.0 ≡ none) × IsSynced r.1
unfolding stop stop_read stop_write delete_row entry_of_stop
stop-IsSynced local_ms user_id entry_id dto now s db r v own h =
    let entry = entry_of_stop local_ms db user_id entry_id dto s now in
    let (checked, h1) = >>-eq-ok (assert_attribution_owned db user_id dto) _ h in
    let (q, written, h2) = >>=-eq-ok (stop_write entry s.id (some s) db) _ h1 in
    let inserting : (insert_entry entry db >>= λ mid. ok ((delete_row s.id (some s)).1, mid))
        ≡ ok q =
      ground (arith, eq_refl s.id) in
    let (mid, inserted, h3) = >>=-eq-ok (insert_entry entry db) _ inserting in
    let own_entry : HasOwnGoal db entry =
      stopped_goal local_ms user_id entry_id dto now s db own checked in
    let gone : q.0 ≡ none = ground (arith, eq_refl s.id) in
    let kept : q.1 ≡ mid = cc in
    let e : r ≡ (q.0, progress_if (or_else dto.goal_id s.goal_id) user_id q.1) = cc in
    rw (e, kept) (gone, insert_entry-IsSynced entry db mid v own_entry inserted)
