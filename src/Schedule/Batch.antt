-- ===== src/Schedule/Batch.antt =====
-- `createBatch` of src/modules/schedule/schedule.service.ts: a group of blocks, created all or none.
pub mod NoSelfConflict
pub mod Sound
use Prim.Native.String.{◌++◌ as str_append}
use goal_slot_api.Base.{
  ℕ, zero, suc, ◌+◌, Bool, true, false, ◌||◌, Option, none, some, List, [], ◌∷◌, ◌++◌, String,
  str_eq, any, ◌==◌, if◌then◌else◌, Exception, bad_request, Result, ok, err, ◌>>=◌, ◌>>◌, throw_if,
}
use goal_slot_api.Db.{ScheduleBlock, Db, truthy}
use goal_slot_api.Plan.{check_plan_limit, schedules}
use goal_slot_api.Schedule.Conflict.{
  assert_valid_range, validate_goal_ownership, times_overlap, check_time_conflict,
}
use goal_slot_api.Schedule.Create.{
  CreateScheduleBlockDto, Fresh, Attempt, new_block, insert_block, with_conflict_guard,
  count_blocks, and_then,
}

abbrev pub Dtos : Type 0
Dtos = List CreateScheduleBlockDto

-- `DAY_NAMES[dayOfWeek]`
abbrev day_name : ℕ → String
day_name zero = "Sunday"
day_name (suc zero) = "Monday"
day_name (suc (suc zero)) = "Tuesday"
day_name (suc (suc (suc zero))) = "Wednesday"
day_name (suc (suc (suc (suc zero)))) = "Thursday"
day_name (suc (suc (suc (suc (suc zero))))) = "Friday"
day_name (suc (suc (suc (suc (suc (suc zero)))))) = "Saturday"
day_name _ = "undefined"

abbrev pub conflict_on : ℕ → Exception
conflict_on day =
    bad_request
      (str_append "Time slot conflicts with an existing schedule block on " (day_name day))

abbrev pub overlap_on : ℕ → Exception
overlap_on day = bad_request (str_append "Two blocks in this request overlap on " (day_name day))

-- `byDay`, a `Map` from the day to its blocks, in the order of insertion.
abbrev pub Groups : Type 0
Groups = List (ℕ × Dtos)

add_to_day : CreateScheduleBlockDto → Groups → Groups
add_to_day block [] = (block.day_of_week, block ∷ []) ∷ []
add_to_day block ((day, group) ∷ rest) =
    if day == block.day_of_week
    then (day, group ++ block ∷ []) ∷ rest
    else (day, group) ∷ add_to_day block rest

group_by_day : Groups → Dtos → Groups
unfolding add_to_day
group_by_day groups [] = groups
group_by_day groups (block ∷ blocks) = group_by_day (add_to_day block groups) blocks

abbrev pub dtos_overlap : CreateScheduleBlockDto → CreateScheduleBlockDto → Bool
dtos_overlap a b = times_overlap a.start_time a.end_time b.start_time b.end_time

group_overlaps : Dtos → Bool
group_overlaps [] = false
group_overlaps (a ∷ rest) = any (dtos_overlap a) rest || group_overlaps rest

check_groups : Groups → Result (Unit {0})
unfolding group_overlaps
check_groups [] = ok tt
check_groups ((day, group) ∷ rest) = do
  throw_if (group_overlaps group) (overlap_on day)
  check_groups rest

unfoldable pub assert_no_self_conflict : Dtos → Result (Unit {0})
unfolding check_groups group_by_day
assert_no_self_conflict blocks = check_groups (group_by_day [] blocks)

-- The first loop of the transaction: every block against the rows that it reads.
check_all : String → List ScheduleBlock → Dtos → Result (Unit {0})
check_all user_id table [] = ok tt
check_all user_id table (block ∷ blocks) = do
  throw_if
      (check_time_conflict user_id block.day_of_week block.start_time block.end_time none table)
      (conflict_on block.day_of_week)
  check_all user_id table blocks

-- The second loop. `fresh i` is what the database makes up for the i-th insert.
insert_all :
    (ℕ → Fresh)
    → ℕ
    → String
    → Dtos
    → List ScheduleBlock
    → Result (List ScheduleBlock × List ScheduleBlock)
insert_all fresh i user_id [] table = ok ([], table)
insert_all fresh i user_id (block ∷ blocks) table =
    insert_block (new_block (fresh i) user_id block) table >>= λ r.
    insert_all fresh (i + 1) user_id blocks r.1 >>= λ rest. ok (r.0 ∷ rest.0, rest.1)

-- The body of the transaction of `createBatchWithConflictGuard`.
unfoldable pub create_batch_in_transaction :
    (ℕ → Fresh)
    → String
    → Dtos
    → List ScheduleBlock
    → Result (List ScheduleBlock × List ScheduleBlock)
unfolding check_all insert_all
create_batch_in_transaction fresh user_id blocks table = do
  assert_no_self_conflict blocks
  check_all user_id table blocks
  insert_all fresh 0 user_id blocks table

unfoldable pub create_batch_with_conflict_guard :
    (ℕ → Fresh)
    → String
    → Dtos
    → List Attempt
    → Option (Result (List ScheduleBlock × List ScheduleBlock))
create_batch_with_conflict_guard fresh user_id blocks =
    with_conflict_guard (create_batch_in_transaction fresh user_id blocks) 0

assert_valid_ranges : Dtos → Result (Unit {0})
assert_valid_ranges [] = ok tt
assert_valid_ranges (block ∷ blocks) = do
  assert_valid_range block.start_time block.end_time
  assert_valid_ranges blocks

-- `new Set(blocks.map((b) => b.goalId).filter((id) => !!id))`, in the order of insertion.
add_goal_id : Option String → List String → List String
add_goal_id none ids = ids
add_goal_id (some id) ids =
    if truthy (some id) then (if any (λ j. str_eq j id) ids then ids else ids ++ id ∷ []) else ids

goal_ids : List String → Dtos → List String
unfolding add_goal_id
goal_ids ids [] = ids
goal_ids ids (block ∷ blocks) = goal_ids (add_goal_id block.goal_id ids) blocks

validate_goals : Db → String → List String → Result (Unit {0})
validate_goals db user_id [] = ok tt
validate_goals db user_id (id ∷ ids) = do
  validate_goal_ownership db user_id (some id)
  validate_goals db user_id ids

-- One check for each block, as if `create` ran for each in turn.
check_plan_limits : Db → ℕ → String → ℕ → Dtos → Result (Unit {0})
check_plan_limits db now user_id current [] = ok tt
check_plan_limits db now user_id current (block ∷ blocks) = do
  check_plan_limit db now user_id schedules current
  check_plan_limits db now user_id (current + 1) blocks

unfoldable pub create_batch_checks : Db → ℕ → String → Dtos → Result (Unit {0})
unfolding assert_valid_ranges goal_ids validate_goals check_plan_limits
create_batch_checks db now user_id blocks = do
  assert_valid_ranges blocks
  validate_goals db user_id (goal_ids [] blocks)
  check_plan_limits db now user_id (count_blocks user_id db.schedule_blocks) blocks

unfoldable pub create_batch :
    Db
    → ℕ
    → (ℕ → Fresh)
    → String
    → Dtos
    → List Attempt
    → Option (Result (List ScheduleBlock × List ScheduleBlock))
create_batch db now fresh user_id blocks attempts =
    and_then (create_batch_checks db now user_id blocks)
      (create_batch_with_conflict_guard fresh user_id blocks attempts)
