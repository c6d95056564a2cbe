-- ===== src/Timer/Session.antt =====
-- The session row of src/modules/active-timer/active-timer.service.ts and the pure functions on it.
-- Instants and durations are milliseconds.
use Prim.Native.Char.{code}
use goal_slot_api.Base.{
  ℕ, ◌+◌, ◌-◌, ◌*◌, ◌/◌, ◌%◌, max, min, Bool, ◌&&◌, ◌||◌, Option, none, some, String, str_eq, ltb,
  leb, ◌==◌, if◌then◌else◌,
}

pub data Status : Type 0 where
  running paused : Status

-- The columns of `ActiveTimerSession` but its user, which is the key, and the stamps of the row.
pub record SessionRow : Type 0 where
  pub id : String
  pub status : Status
  pub started_at : ℕ
  pub segment_started_at : Option ℕ
  pub paused_at : Option ℕ
  pub accumulated_ms : ℕ
  pub task_name : Option String
  pub notes : Option String
  pub goal_id : Option String
  pub task_id : Option String
  pub schedule_block_id : Option String
  pub last_client : Option String

abbrev pub max_session_ms : ℕ
max_session_ms = 12 * 60 * 60 * 1000

abbrev pub stale_after_ms : ℕ
stale_after_ms = max_session_ms

abbrev pub max_accumulated_ms : ℕ
max_accumulated_ms = 2000000000

-- `Math.max(0, now - segmentStartedAt)`, or 0 where no segment is open.
abbrev pub open_ms : Option ℕ → ℕ → ℕ
open_ms none now = 0
open_ms (some start) now = now - start

abbrev pub elapsed_in : Status → ℕ → ℕ → ℕ
elapsed_in running accumulated segment = accumulated + segment
elapsed_in paused accumulated segment = accumulated

unfoldable pub compute_elapsed_ms : SessionRow → ℕ → ℕ
compute_elapsed_ms s now = elapsed_in s.status s.accumulated_ms (open_ms s.segment_started_at now)

-- `Math.max(1, Math.round(elapsedMs / 60_000))`: halves are rounded up.
unfoldable pub to_duration_minutes : ℕ → ℕ
to_duration_minutes elapsed_ms = max 1 ((elapsed_ms + 30000) / 60000)

abbrev pub ms_per_day : ℕ
ms_per_day = 86400000

-- The UTC midnight of the calendar date that the process's local clock shows at an instant.
-- `local_ms` is that clock: the milliseconds since 1970 that it reads.
unfoldable pub to_local_date_only : (ℕ → ℕ) → ℕ → ℕ
to_local_date_only local_ms instant = local_ms instant / ms_per_day * ms_per_day

-- `date.getUTCDay()`: 1970-01-01 was a Thursday.
abbrev pub utc_day : ℕ → ℕ
utc_day date = (date / ms_per_day + 4) % 7

-- `session.elapsedMs`, `isStale` and `cappedElapsedMs` of a response, with the row.
pub record Response : Type 0 where
  pub session : SessionRow
  pub elapsed_ms : ℕ
  pub server_time : ℕ
  pub is_stale : Bool
  pub capped_elapsed_ms : ℕ

unfoldable pub to_response : SessionRow → ℕ → Response
to_response s now =
    let elapsed = compute_elapsed_ms s now in
    record {
      session = s;
      elapsed_ms = elapsed;
      server_time = now;
      is_stale = ltb stale_after_ms elapsed;
      capped_elapsed_ms = min elapsed max_session_ms;
    }

-- JavaScript's white space and line ends.
abbrev pub is_space : ℕ → Bool
is_space c =
    (leb 9 c && leb c 13)
    || (c == 32)
    || (c == 160)
    || (c == 0x1680)
    || (leb 0x2000 c && leb c 0x200a)
    || (c == 0x2028)
    || (c == 0x2029)
    || (c == 0x202f)
    || (c == 0x205f)
    || (c == 0x3000)
    || (c == 0xfeff)

trim_start : String → String
trim_start String.[] = ""
trim_start (String.◌∷◌ c s) =
    let rest = trim_start s in if is_space (code c) then rest else String.◌∷◌ c s

trim_end : String → String
trim_end String.[] = ""
trim_end (String.◌∷◌ c s) =
    let rest = trim_end s in if is_space (code c) && str_eq rest "" then "" else String.◌∷◌ c rest

unfoldable pub trim : String → String
unfolding trim_start trim_end
trim s = trim_end (trim_start s)
