-- ===== src/Schedule/Create.antt =====
-- `create` of src/modules/schedule/schedule.service.ts: the checks, the transaction that checks for
-- a conflict and inserts, and its retries.
pub mod Guard
pub mod Sound
use goal_slot_api.Base.{
  ℕ, ◌+◌, Bool, true, false, ◌&&◌, Option, none, some, List, [], ◌∷◌, ◌++◌, String, str_eq, any,
  count, or_else, ltb, if◌then◌else◌, Exception, bad_request, unique_violation,
  serialization_failure, Result, ok, err, ◌>>◌, throw_if,
}
use goal_slot_api.Db.{Text, ScheduleBlock, Db}
use goal_slot_api.Plan.{check_plan_limit, schedules}
use goal_slot_api.Schedule.Conflict.{
  assert_valid_range, validate_goal_ownership, check_time_conflict,
}

pub record CreateScheduleBlockDto : Type 0 where
  pub id : Option String
  pub title : String
  pub start_time : Text
  pub end_time : Text
  pub day_of_week : ℕ
  pub category : String
  pub color : Option String
  pub is_recurring : Option Bool
  pub is_private : Option Bool
  pub goal_id : Option String
  pub series_id : Option String

-- The identifiers that the database makes up where the request leaves them out.
pub record Fresh : Type 0 where
  pub id : String
  pub series_id : String

-- `{ ...dto, id: dto.id ?? undefined, userId }`, with the defaults of prisma/schema.prisma.
unfoldable pub new_block : Fresh → String → CreateScheduleBlockDto → ScheduleBlock
new_block fresh user_id dto = record {
  id = or_else dto.id fresh.id;
  title = dto.title;
  start_time = dto.start_time;
  end_time = dto.end_time;
  day_of_week = dto.day_of_week;
  category = some dto.category;
  color = or_else dto.color "#FFD700";
  is_recurring = or_else dto.is_recurring true;
  series_id = or_else dto.series_id fresh.series_id;
  is_private = or_else dto.is_private false;
  user_id = user_id;
  goal_id = dto.goal_id;
}

-- An insert fails on a key that is taken, else the row is in the table.
unfoldable pub insert_block :
    ScheduleBlock → List ScheduleBlock → Result (ScheduleBlock × List ScheduleBlock)
insert_block block table =
    if any (λ (b : ScheduleBlock). str_eq b.id block.id) table
    then err unique_violation
    else ok (block, table ++ block ∷ [])

-- The body of the transaction of `createWithConflictGuard`.
unfoldable pub create_in_transaction :
    Fresh
    → String
    → CreateScheduleBlockDto
    → List ScheduleBlock
    → Result (ScheduleBlock × List ScheduleBlock)
create_in_transaction fresh user_id dto table = do
  throw_if (check_time_conflict user_id dto.day_of_week dto.start_time dto.end_time none table)
      (bad_request "Time slot conflicts with an existing schedule block")
  insert_block (new_block fresh user_id dto) table

-- One attempt at a serializable transaction: the rows that it reads, and whether the database
-- aborts it (P2034).
pub record Attempt : Type 0 where
  pub table : List ScheduleBlock
  pub aborted : Bool

abbrev pub max_conflict_retries : ℕ
max_conflict_retries = 3

pub is_serialization_failure : Exception → Bool
is_serialization_failure serialization_failure = true
is_serialization_failure _ = false

module _ {ℓ} {R : Type ℓ} (body : List ScheduleBlock → Result (R × List ScheduleBlock)) where
  unfoldable pub run_attempt : Attempt → Result (R × List ScheduleBlock)
  run_attempt a = if a.aborted then err serialization_failure else body a.table

  abbrev after_attempt :
      Result (R × List ScheduleBlock)
      → ℕ
      → Option (Result (R × List ScheduleBlock))
      → Option (Result (R × List ScheduleBlock))
  unfolding is_serialization_failure
  after_attempt (ok r) attempt retry = some (ok r)
  after_attempt (err e) attempt retry =
      if is_serialization_failure e && ltb attempt max_conflict_retries then retry else some (err e)

  -- The `try … catch` of the two guards: `attempts` says what each attempt meets, in their order.
  -- `none` means that an attempt is made of which `attempts` says nothing.
  unfoldable pub with_conflict_guard : ℕ → List Attempt → Option (Result (R × List ScheduleBlock))
  unfolding run_attempt is_serialization_failure
  with_conflict_guard attempt [] = none
  with_conflict_guard attempt (a ∷ rest) =
      let retry = with_conflict_guard (attempt + 1) rest in
      after_attempt (run_attempt a) attempt retry

unfoldable pub create_with_conflict_guard :
    Fresh
    → String
    → CreateScheduleBlockDto
    → List Attempt
    → Option (Result (ScheduleBlock × List ScheduleBlock))
create_with_conflict_guard fresh user_id dto =
    with_conflict_guard (create_in_transaction fresh user_id dto) 0

abbrev pub count_blocks : String → List ScheduleBlock → ℕ
count_blocks user_id = count (λ (b : ScheduleBlock). str_eq b.user_id user_id)

-- The checks before the transaction, at the state that they read.
unfoldable pub create_checks : Db → ℕ → String → CreateScheduleBlockDto → Result (Unit {0})
create_checks db now user_id dto = do
  assert_valid_range dto.start_time dto.end_time
  validate_goal_ownership db user_id dto.goal_id
  check_plan_limit db now user_id schedules (count_blocks user_id db.schedule_blocks)

abbrev pub and_then {ℓ} : {A : Type ℓ} → Result (Unit {0}) → Option (Result A) → Option (Result A)
and_then (err e) k = some (err e)
and_then (ok _) k = k

unfoldable pub create :
    Db
    → ℕ
    → Fresh
    → String
    → CreateScheduleBlockDto
    → List Attempt
    → Option (Result (ScheduleBlock × List ScheduleBlock))
create db now fresh user_id dto attempts =
    and_then (create_checks db now user_id dto)
      (create_with_conflict_guard fresh user_id dto attempts)
