-- ===== src/Coach/Dispatch.antt =====
-- `validatePayload` and `dispatch` of src/modules/coach-proposals/coach-proposals.service.ts.
use Prim.Native.Char.{code}
use goal_slot_api.Base.{
  ℕ, Bool, false, ◌&&◌, ◌||◌, Option, none, some, List, [], ◌∷◌, String, str_eq, any, leb, or_else,
  if◌then◌else◌, bad_request, error, Result, ok, err, ◌>>=◌, ◌>>◌, throw_if, ◌==◌,
}
use goal_slot_api.Db.{Text, Db, truthy}
use goal_slot_api.Schedule.Create.{CreateScheduleBlockDto, Fresh}
use goal_slot_api.Schedule.Update.{UpdateScope, Changes}
use goal_slot_api.Tracking.Entries
use goal_slot_api.Tracking.Entries.{Zone, CreateTimeEntryDto, UpdateTimeEntryDto}
use goal_slot_api.Tracking.Tasks
use goal_slot_api.Tracking.Tasks.{CreateTaskDto, UpdateTaskDto}
use goal_slot_api.Tracking.Goals
use goal_slot_api.Tracking.Goals.{CreateGoalDto, UpdateGoalDto}
use goal_slot_api.Coach.Payload.{
  Json, number, string, array, Items, no_items, item, Fields, no_fields, field, CoachActionType,
  rename_goal, update_goal, create_goal, delete_goal, create_schedule_block, update_schedule_block,
  delete_schedule_block, create_time_entry, update_time_entry, delete_time_entry, create_task,
  update_task, delete_task, CoachProposedAction,
}
use goal_slot_api.Coach.Titles.{is_blank}
use goal_slot_api.Timer.Session.{is_space}
use goal_slot_api.Coach.Blocks
use goal_slot_api.Coach.Blocks.{Effect, settle, delete_idempotent, schedule_delete}

-- `plainToInstance` and `validate` for the dto of each action: third-party code.
pub record PayloadDtos : Type 0 where
  pub create_goal_dto : Fields → Result CreateGoalDto
  pub update_goal_dto : Fields → Result UpdateGoalDto
  pub create_block_dto : Fields → Result CreateScheduleBlockDto
  pub update_block_dto : Fields → Result (UpdateScope × Changes)
  pub create_entry_dto : Fields → Result CreateTimeEntryDto
  pub update_entry_dto : Fields → Result UpdateTimeEntryDto
  pub create_task_dto : Fields → Result CreateTaskDto
  pub update_task_dto : Fields → Result UpdateTaskDto

-- The tables of `Db`, and what the services of the timer, the journal, the practices and the notes
-- keep beside them.
pub record World (Rest : Type 0) : Type 0 where
  pub db : Db
  pub rest : Rest

-- What a batch runs with. `now` is the clock's reading, `made_up` the keys that the database makes
-- up, and `others` the dispatch of the actions on practices, timer, journal and notes.
pub record Services (Rest : Type 0) : Type 0 where
  pub lower : Text → Text
  pub zone : Zone
  pub now : ℕ
  pub made_up : Db → Fresh
  pub dtos : PayloadDtos
  pub others : CoachActionType → String → Fields → World Rest → Effect (World Rest)

-- `FORBIDDEN_PAYLOAD_KEYS`
abbrev is_forbidden : String → Bool
is_forbidden key = any (str_eq key) ("id" ∷ "userId" ∷ "user" ∷ "createdAt" ∷ "updatedAt" ∷ [])

unfoldable pub has_forbidden_key : Fields → Bool
has_forbidden_key no_fields = false
has_forbidden_key (field key v fs) = is_forbidden key || has_forbidden_key fs

unfoldable pub validate_payload {ℓ} : {Dto : Type ℓ} → (Fields → Result Dto) → Fields → Result Dto
validate_payload dto payload = do
  throw_if (has_forbidden_key payload) (bad_request "payload rejected: property should not exist")
  dto payload

unfoldable pub field_of : String → Fields → Option Json
field_of key no_fields = none
field_of key (field k v fs) = let rest = field_of key fs in if str_eq k key then some v else rest

unfoldable pub without_field : String → Fields → Fields
without_field key no_fields = no_fields
without_field key (field k v fs) =
    let rest = without_field key fs in if str_eq k key then rest else field k v rest

-- `p[key] = v`
unfoldable pub set_field : String → Json → Fields → Fields
set_field key v no_fields = field key v no_fields
set_field key v (field k old fs) =
    let rest = set_field key v fs in if str_eq k key then field k v fs else field k old rest

unfoldable without_leading_blanks : String → String
without_leading_blanks String.[] = ""
without_leading_blanks (String.◌∷◌ c s) =
    let rest = without_leading_blanks s in if is_space (code c) then rest else String.◌∷◌ c s

unfoldable without_trailing_blanks : String → String
without_trailing_blanks String.[] = ""
without_trailing_blanks (String.◌∷◌ c s) =
    let rest = without_trailing_blanks s in
    if is_space (code c) && str_eq rest "" then "" else String.◌∷◌ c rest

-- The text of a field, trimmed, that is not blank.
abbrev pub filled_text : Option Json → Option String
unfolding without_leading_blanks without_trailing_blanks
filled_text (some (string s)) =
    if is_blank s then none else some (without_trailing_blanks (without_leading_blanks s))
filled_text _ = none

abbrev day_in_week : Json → List ℕ
day_in_week (number (some d)) = if leb d 6 then d ∷ [] else []
day_in_week _ = []

-- `new Set` of the days keeps the first of equal ones; `seen` are those before.
unfoldable pub distinct_days : List ℕ → Items → List ℕ
distinct_days seen no_items = []
distinct_days seen (item v vs) = elim (day_in_week v) [
  | [] ↦ distinct_days seen vs
  | d ∷ _ ↦
      if any (λ e. d == e) seen then distinct_days seen vs else d ∷ distinct_days (d ∷ seen) vs
]

-- The days of `daysOfWeek`. Where it is no array, a single `dayOfWeek` stays in the payload.
unfoldable pub requested_days : Option Json → List ℕ
requested_days (some (array days)) = distinct_days [] days
requested_days _ = []

abbrev pub with_first_day : List ℕ → Fields → Fields
with_first_day [] p = p
with_first_day (d ∷ days) p = set_field "dayOfWeek" (number (some d)) p

-- `if (!action.id) throw new Error(...)`
unfoldable pub required_id : Option String → Result String
required_id id = if truthy id then ok (or_else id "") else err (error "the action requires id")

abbrev pub require {ℓ} : {A : Type ℓ} → Option A → String → Result A
require none message = err (error message)
require (some a) message = ok a

-- A write of one of the tables, which answers with the key `id`.
unfoldable pub keyed : Option String → Result Db → Db → Effect Db
keyed id written db = settle (written >>= λ db'. ok (id, db')) db

-- What throws before a service is called changes nothing.
abbrev pub attempt {ℓ} : {A : Type ℓ} → Result A → (A → Db → Effect Db) → Db → Effect Db
attempt (err thrown) run db = (err thrown, db)
attempt (ok a) run db = run a db

-- The id is asked for after the payload is validated.
abbrev pub with_id {ℓ} : {A : Type ℓ} → Result A → Option String → Result (String × A)
with_id validated id = validated >>= λ a. required_id id >>= λ id. ok (id, a)

abbrev rename : String → UpdateGoalDto
rename title = record {
  title = some title;
  category = none;
  target_centihours = none;
  status = none;
  logged_minutes = none;
}

abbrev pub new_title : String × Fields → Result (String × UpdateGoalDto)
new_title (id, p) =
    require (filled_text (field_of "title" p)) "RENAME_GOAL requires payload.title" >>= λ title.
    ok (id, rename title)

abbrev pub titled : CreateGoalDto → Result CreateGoalDto
titled dto = throw_if (is_blank dto.title) (error "CREATE_GOAL requires payload.title") >> ok dto

abbrev pub delete_with : (String → Db → Result Db) → CoachProposedAction → Fields → Db → Effect Db
delete_with delete a p =
    attempt (with_id (validate_payload ok p) a.id)
      (λ (id, _) db. keyed (some id) (delete_idempotent (delete id db) db) db)

-- An update answers with the id of the action.
abbrev pub update_with :
    {Dto : Type 0} → (String → Dto → Db → Result Db) → Result (String × Dto) → Db → Effect Db
update_with update request = attempt request (λ (id, dto) db. keyed (some id) (update id dto db) db)

-- A create answers with the key of the dto, or with the one that the database makes up.
abbrev pub create_with :
    {Dto : Type 0}
    → (Db → Fresh)
    → (Dto → Option String)
    → (String → Dto → Db → Result Db)
    → Result Dto
    → Db
    → Effect Db
create_with made_up id create request =
    attempt request
      (λ dto db. keyed (some (or_else (id dto) (made_up db).id)) (create (made_up db).id dto db) db)

-- The days are taken out of the payload, and the first of them takes the place of `dayOfWeek`.
abbrev pub block_request : PayloadDtos → Fields → Result (List ℕ × CreateScheduleBlockDto)
block_request dtos p =
    let days = requested_days (field_of "daysOfWeek" p) in
    validate_payload dtos.create_block_dto (with_first_day days (without_field "daysOfWeek" p))
    >>= λ dto. ok (days, dto)

-- The other actions; `others` validates the payload by the dto of the action.
abbrev pub dispatch_other :
    {Rest : Type 0}
    → Services Rest
    → String
    → CoachActionType
    → Fields
    → World Rest
    → Effect (World Rest)
dispatch_other s user_id type p w =
    if has_forbidden_key p
    then (err (bad_request "payload rejected: property should not exist"), w)
    else s.others type user_id p w

module _ {Rest : Type 0} (s : Services Rest) (user_id : String) where
  abbrev pub create_blocks : Result (List ℕ × CreateScheduleBlockDto) → Db → Effect Db
  create_blocks request =
      attempt request
        (λ (days, dto) db. Blocks.create_schedule_block s.now s.made_up user_id days dto db)

  abbrev pub update_block :
      Option String → Result (String × (UpdateScope × Changes)) → Db → Effect Db
  update_block expected_title request = attempt request (λ (id, (scope, c)) db.
      settle (Blocks.update_schedule_block s.lower user_id id expected_title scope c db) db)

  -- The cases of the actions that write the tables of `Db`; `none` for the others.
  unfoldable pub dispatch_db :
      CoachProposedAction → Fields → CoachActionType → Option (Db → Effect Db)
  dispatch_db a p rename_goal =
      some (update_with (Goals.update user_id) (with_id (validate_payload ok p) a.id >>= new_title))
  dispatch_db a p update_goal = some (
      update_with (Goals.update user_id) (with_id (validate_payload s.dtos.update_goal_dto p) a.id))
  dispatch_db a p create_goal = some (
      create_with s.made_up (λ (dto : CreateGoalDto). dto.id)
        (λ fresh_id. Goals.create s.now fresh_id user_id)
        (validate_payload s.dtos.create_goal_dto p >>= titled))
  dispatch_db a p delete_goal = some (delete_with (Goals.delete user_id) a p)
  dispatch_db a p create_schedule_block = some (create_blocks (block_request s.dtos p))
  dispatch_db a p update_schedule_block =
      some
        (update_block a.expected_title (with_id (validate_payload s.dtos.update_block_dto p) a.id))
  dispatch_db a p delete_schedule_block = some (delete_with (schedule_delete user_id) a p)
  dispatch_db a p create_time_entry = some (
      create_with s.made_up (λ (dto : CreateTimeEntryDto). dto.id)
        (λ fresh_id. Entries.create s.zone s.now fresh_id user_id)
        (validate_payload s.dtos.create_entry_dto p))
  dispatch_db a p update_time_entry = some (
      update_with (Entries.update s.zone user_id)
        (with_id (validate_payload s.dtos.update_entry_dto p) a.id))
  dispatch_db a p delete_time_entry = some (delete_with (Entries.delete user_id) a p)
  dispatch_db a p create_task = some (
      create_with s.made_up (λ (dto : CreateTaskDto). dto.id)
        (λ fresh_id. Tasks.create_task fresh_id user_id)
        (validate_payload s.dtos.create_task_dto p))
  dispatch_db a p update_task = some (
      update_with (Tasks.update_task user_id)
        (with_id (validate_payload s.dtos.update_task_dto p) a.id))
  dispatch_db a p delete_task = some (delete_with (Tasks.delete_task user_id) a p)
  dispatch_db a p _ = none

  abbrev pub on_db : Effect Db → World Rest → Effect (World Rest)
  on_db (outcome, db) w = (outcome, record w { db = db })

  abbrev pub run_case :
      Option (Db → Effect Db) → CoachActionType → Fields → World Rest → Effect (World Rest)
  run_case (some run) type p w = on_db (run w.db) w
  run_case none type p w = dispatch_other s user_id type p w

  -- `action.payload ?? {}` is an argument of its own.
  unfoldable pub dispatch : CoachProposedAction → Fields → World Rest → Effect (World Rest)
  unfolding dispatch_db
  dispatch a p w = run_case (dispatch_db a p a.type) a.type p w
