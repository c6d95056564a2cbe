-- ===== src/Schedule/Rows.antt =====
-- What holds of the rows of `ScheduleBlock` between two requests, and what the conflict check of
-- schedule.service.ts says of them.
use goal_slot_api.Base.{
  ℕ, ◌≤◌, ◌<◌, max, ◌≡◌, ◌≢◌, ◌↔◌, true, false, Option, some, List, String, arith, eq_iff, ==_iff,
  All, All-map, Pairs, any-filter-false,
}
use goal_slot_api.Db.{Text, ScheduleBlock}
use goal_slot_api.Schedule.Clock.{time_to_minutes}
use goal_slot_api.Schedule.Conflict.{times_overlap, is_excluded, on_day, check_time_conflict}

-- Two texts that are minutes in order: the range has at least one minute.
abbrev pub IsRange : Text → Text → Type 0
IsRange start_time end_time =
    (s : ℕ) × (e : ℕ) × (time_to_minutes start_time ≡ some s)
    × (time_to_minutes end_time ≡ some e)
    × (s < e)

abbrev pub HasRange : ScheduleBlock → Type 0
HasRange b = IsRange b.start_time b.end_time

-- Two rows of one user on one day do not overlap.
abbrev pub Compatible : ScheduleBlock → ScheduleBlock → Type 0
Compatible a b =
    a.user_id ≡ b.user_id
    → a.day_of_week ≡ b.day_of_week
    → times_overlap a.start_time a.end_time b.start_time b.end_time ≡ false

abbrev pub HasOtherId : ScheduleBlock → ScheduleBlock → Type 0
HasOtherId a b = a.id ≢ b.id

pub record IsSound (table : List ScheduleBlock) : Type 0 where
  pub ids : Pairs HasOtherId table
  pub ranges : All HasRange table
  pub disjoint : Pairs Compatible table

pub times_overlap_comm : (s e s' e' : Text) → times_overlap s e s' e' ≡ times_overlap s' e' s e
unfolding times_overlap
times_overlap_comm s e s' e' = ground arith

-- The minute `m` lies in the range, whose end is outside.
abbrev pub Inside : Text → Text → ℕ → Type 0
Inside start_time end_time m =
    (s : ℕ) × (e : ℕ) × (time_to_minutes start_time ≡ some s)
    × (time_to_minutes end_time ≡ some e)
    × (s ≤ m)
    × (m < e)

-- Of two ranges with their ends in order, the overlap test holds exactly when some minute lies in
-- both.
pub times_overlap_iff :
    (s e s' e' : Text)
    → IsRange s e
    → IsRange s' e'
    → (times_overlap s e s' e' ≡ true) ↔ ((m : ℕ) × Inside s e m × Inside s' e' m)
unfolding times_overlap
times_overlap_iff s e s' e' (a, b, p, q, l) (a', b', p', q', l') = (
  λ h. (
    max a a',
    (a, b, p, q, ground arith, ground arith),
    (a', b', p', q', ground arith, ground arith),
  ),
  λ h. ground arith,
)

-- No row of the user on that day, but the excluded one, overlaps the times.
abbrev pub IsFree : String → ℕ → Text → Text → Option String → ScheduleBlock → Type 0
IsFree user_id day start_time end_time exclude_id b =
    user_id ≡ b.user_id
    → day ≡ b.day_of_week
    → is_excluded exclude_id b ≡ false
    → times_overlap start_time end_time b.start_time b.end_time ≡ false

pub no_conflict-IsFree :
    (user_id : String) (day : ℕ) (s e : Text) (exclude_id : Option String)
    (table : List ScheduleBlock)
    → check_time_conflict user_id day s e exclude_id table ≡ false
    → All (IsFree user_id day s e exclude_id) table
unfolding check_time_conflict
no_conflict-IsFree user_id day s e exclude_id table h =
    All-map
      (λ b free u d x. free (ground (arith, eq_iff b.user_id user_id, ==_iff b.day_of_week day)))
      table
      (any-filter-false (on_day user_id day exclude_id)
        (λ (b : ScheduleBlock). times_overlap s e b.start_time b.end_time) table h)
