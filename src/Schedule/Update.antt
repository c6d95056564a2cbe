-- ===== src/Schedule/Update.antt =====
-- `update`, `delete` and `clearAll` of src/modules/schedule/schedule.service.ts.
pub mod Rewrite
pub mod Row
pub mod Sound
pub mod Tenancy
pub mod SeriesOverlap
use goal_slot_api.Base.{
  ℕ, Bool, true, false, not, ◌&&◌, ◌||◌, Option, none, some, List, [], ◌∷◌, String, str_eq, find,
  filter, count, update_where, delete_where, or_else, is_some, ◌==◌, if◌then◌else◌, bad_request,
  not_found, Result, ok, err, ◌>>=◌, ◌>>◌, throw_if,
}
use goal_slot_api.Db.{Text, ScheduleBlock, Db, truthy}
use goal_slot_api.Schedule.Conflict.{
  assert_valid_range, validate_goal_ownership, check_time_conflict,
}

pub data UpdateScope : Type 0 where
  single series : UpdateScope

-- The fields of `UpdateScheduleBlockDto` but `id` and `seriesId`, which `update` ignores. `none` is
-- a field left out; the two columns that may be null take `some none` for null.
pub record Changes : Type 0 where
  pub title : Option String
  pub start_time : Option Text
  pub end_time : Option Text
  pub day_of_week : Option ℕ
  pub category : Option (Option String)
  pub color : Option String
  pub is_recurring : Option Bool
  pub is_private : Option Bool
  pub goal_id : Option (Option String)

-- `data: updateData`
unfoldable pub apply_changes : Changes → ScheduleBlock → ScheduleBlock
apply_changes c b = record {
  id = b.id;
  title = or_else c.title b.title;
  start_time = or_else c.start_time b.start_time;
  end_time = or_else c.end_time b.end_time;
  day_of_week = or_else c.day_of_week b.day_of_week;
  category = or_else c.category b.category;
  color = or_else c.color b.color;
  is_recurring = or_else c.is_recurring b.is_recurring;
  series_id = b.series_id;
  is_private = or_else c.is_private b.is_private;
  user_id = b.user_id;
  goal_id = or_else c.goal_id b.goal_id;
}

-- `Object.keys(data).length === 0`
abbrev is_empty : Changes → Bool
is_empty c = not (
    is_some c.title
    || is_some c.start_time
    || is_some c.end_time
    || is_some c.day_of_week
    || is_some c.category
    || is_some c.color
    || is_some c.is_recurring
    || is_some c.is_private
    || is_some c.goal_id)

-- The truth of `startTime`: an empty text counts as absent.
abbrev pub truthy_text : Option Text → Bool
truthy_text (some (c ∷ cs)) = true
truthy_text _ = false

abbrev pub touches_time : Changes → Bool
touches_time c = truthy_text c.start_time || truthy_text c.end_time

abbrev pub in_series : String → String → ScheduleBlock → Bool
in_series user_id series_id b = str_eq b.user_id user_id && str_eq b.series_id series_id

-- The loop over `seriesBlocks`: each member with the new times, against all rows but itself.
pub check_series : String → Changes → List ScheduleBlock → List ScheduleBlock → Result (Unit {0})
check_series user_id c table [] = ok tt
check_series user_id c table (b ∷ members) = do
  assert_valid_range (or_else c.start_time b.start_time) (or_else c.end_time b.end_time)
  throw_if
      (check_time_conflict user_id b.day_of_week (or_else c.start_time b.start_time)
        (or_else c.end_time b.end_time) (some b.id) table)
      (bad_request "Time slot conflicts with an existing schedule block in this series")
  check_series user_id c table members

abbrev pub by_id : String → ScheduleBlock → Bool
by_id id b = str_eq b.id id

abbrev pub owned_by : String → String → ScheduleBlock → Bool
owned_by user_id id b = str_eq b.id id && str_eq b.user_id user_id

-- What a successful `update` answers, and the rows that it leaves.
abbrev pub Updated : Type 0
Updated = Option ScheduleBlock × List ScheduleBlock

-- The branch of `updateScope === 'series'`; the day of the members stays.
unfoldable pub update_series :
    String → String → Changes → ScheduleBlock → List ScheduleBlock → Result Updated
unfolding check_series
update_series user_id block_id changes block table =
    let c = record changes { day_of_week = none } in
    let members = in_series user_id block.series_id in
    let written = update_where members (apply_changes c) table in
    if is_empty c then ok (some block, table) else (do
      if touches_time c then check_series user_id c table (filter members table) else ok tt
      ok (find (by_id block_id) written, written))

-- The branch of a single block.
unfoldable pub update_single :
    String → String → Changes → ScheduleBlock → List ScheduleBlock → Result Updated
update_single user_id block_id c block table = do
  let start_time = or_else c.start_time block.start_time
  let end_time = or_else c.end_time block.end_time
  let written = update_where (by_id block_id) (apply_changes c) table
  if touches_time c then assert_valid_range start_time end_time else ok tt
  throw_if
      ((touches_time c || is_some c.day_of_week)
        && check_time_conflict user_id (or_else c.day_of_week block.day_of_week) start_time end_time
            (some block_id) table)
      (bad_request "Time slot conflicts with an existing schedule block")
  ok (find (by_id block_id) written, written)

abbrev is_series : UpdateScope → Bool
is_series series = true
is_series single = false

-- The relation of the change; null and a field left out are not checked.
abbrev pub changed_goal : Changes → Option String
changed_goal c = or_else c.goal_id none

abbrev pub update_found :
    Db → String → String → UpdateScope → Changes → Option ScheduleBlock → Result Updated
update_found db user_id block_id scope c none = err (not_found "Schedule block not found")
update_found db user_id block_id scope c (some block) = do
  validate_goal_ownership db user_id (changed_goal c)
  if is_series scope && truthy (some block.series_id)
      then update_series user_id block_id c block db.schedule_blocks
      else update_single user_id block_id c block db.schedule_blocks

-- The statements of one call run with no other request between them.
unfoldable pub update : Db → String → String → UpdateScope → Changes → Result Updated
update db user_id block_id scope c =
    update_found db user_id block_id scope c (find (owned_by user_id block_id) db.schedule_blocks)

unfoldable pub delete : String → String → List ScheduleBlock → Result (List ScheduleBlock)
delete user_id block_id table =
    if is_some (find (owned_by user_id block_id) table)
    then ok (delete_where (by_id block_id) table)
    else err (not_found "Schedule block not found")

abbrev pub of_user : String → ScheduleBlock → Bool
of_user user_id b = str_eq b.user_id user_id

-- The count of the rows deleted, and the rows left.
unfoldable pub clear_all : String → List ScheduleBlock → ℕ × List ScheduleBlock
clear_all user_id table = (count (of_user user_id) table, delete_where (of_user user_id) table)
