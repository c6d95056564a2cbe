-- ===== src/Coach/Operations.antt =====
-- The operations of the actions on the tables, each of which keeps a predicate, and the steps that
-- lead from them to a case of `dispatch`.
use goal_slot_api.Base.{
  ◌≡◌, refl, inl, inr, Option, none, some, List, String, arith, bad_request, Result, ok, err, ◌∙◌,
  ◌>>=◌, >>=-eq-ok, >>-eq-ok, ℕ, Bool-cases,
}
use goal_slot_api.Db.{Db}
use goal_slot_api.Schedule.Create.{CreateScheduleBlockDto}
use goal_slot_api.Schedule.Update.{UpdateScope, Changes}
use goal_slot_api.Tracking.Entries
use goal_slot_api.Tracking.Entries.{CreateTimeEntryDto, UpdateTimeEntryDto}
use goal_slot_api.Tracking.Tasks
use goal_slot_api.Tracking.Tasks.{CreateTaskDto, UpdateTaskDto}
use goal_slot_api.Tracking.Goals
use goal_slot_api.Tracking.Goals.{CreateGoalDto, UpdateGoalDto}
use goal_slot_api.Coach.Payload.{
  Fields, CoachActionType, delete_goal, delete_schedule_block, delete_time_entry, delete_task,
}
use goal_slot_api.Coach.Blocks
use goal_slot_api.Coach.Blocks.{
  Effect, settle, delete_idempotent, is_gone, create_block_idempotent, in_series_on, or_first,
  next_day, fan_out, schedule_delete,
}
use goal_slot_api.Coach.Dispatch.{
  PayloadDtos, World, Services, keyed, attempt, with_id, required_id, validate_payload,
  block_request,
}

-- Each operation on the tables keeps `P`, for the creates and updates of blocks that are `Valid` and
-- `ValidUpdate` (as those of a `Fine` payload are), and the deletes that are `Allowed`.
pub record OperationsKeep {Rest : Type 0} (P : Db → Type 0)
    (Valid : CreateScheduleBlockDto → Type 0) (ValidUpdate : UpdateScope → Changes → Type 0)
    (Allowed : CoachActionType → String → Type 0) (Fine : Fields → Type 0) (s : Services Rest)
    (user_id : String) : Type 0 where
  pub goal_create :
      (fresh_id : String) (dto : CreateGoalDto) (db db' : Db)
      → P db
      → Goals.create s.now fresh_id user_id dto db ≡ ok db'
      → P db'
  pub goal_update :
      (id : String) (dto : UpdateGoalDto) (db db' : Db)
      → P db
      → Goals.update user_id id dto db ≡ ok db'
      → P db'
  pub goal_delete :
      (id : String) (db db' : Db)
      → Allowed delete_goal id
      → P db
      → Goals.delete user_id id db ≡ ok db'
      → P db'
  pub entry_create :
      (fresh_id : String) (dto : CreateTimeEntryDto) (db db' : Db)
      → P db
      → Entries.create s.zone s.now fresh_id user_id dto db ≡ ok db'
      → P db'
  pub entry_update :
      (id : String) (dto : UpdateTimeEntryDto) (db db' : Db)
      → P db
      → Entries.update s.zone user_id id dto db ≡ ok db'
      → P db'
  pub entry_delete :
      (id : String) (db db' : Db)
      → Allowed delete_time_entry id
      → P db
      → Entries.delete user_id id db ≡ ok db'
      → P db'
  pub task_create :
      (fresh_id : String) (dto : CreateTaskDto) (db db' : Db)
      → P db
      → Tasks.create_task fresh_id user_id dto db ≡ ok db'
      → P db'
  pub task_update :
      (id : String) (dto : UpdateTaskDto) (db db' : Db)
      → P db
      → Tasks.update_task user_id id dto db ≡ ok db'
      → P db'
  pub task_delete :
      (id : String) (db db' : Db)
      → Allowed delete_task id
      → P db
      → Tasks.delete_task user_id id db ≡ ok db'
      → P db'
  pub block_create :
      (dto : CreateScheduleBlockDto) (db : Db) (id : Option String) (db' : Db)
      → Valid dto
      → P db
      → create_block_idempotent s.now s.made_up user_id dto db ≡ ok (id, db')
      → P db'
  pub block_update :
      (id : String) (expected_title : Option String) (scope : UpdateScope) (c : Changes) (db : Db)
      (id' : Option String) (db' : Db)
      → ValidUpdate scope c
      → P db
      → Blocks.update_schedule_block s.lower user_id id expected_title scope c db ≡ ok (id', db')
      → P db'
  pub block_delete :
      (id : String) (db db' : Db)
      → Allowed delete_schedule_block id
      → P db
      → schedule_delete user_id id db ≡ ok db'
      → P db'
  pub valid :
      (p : Fields) (dto : CreateScheduleBlockDto) → s.dtos.create_block_dto p ≡ ok dto → Valid dto
  pub valid_in_series :
      (series_id : String) (d : ℕ) (dto : CreateScheduleBlockDto)
      → Valid dto
      → Valid (in_series_on series_id d dto)
  pub valid_update :
      (p : Fields) (scope : UpdateScope) (c : Changes)
      → Fine p
      → s.dtos.update_block_dto p ≡ ok (scope, c)
      → ValidUpdate scope c
  pub others :
      (type : CoachActionType) (p : Fields) (w : World Rest)
      → P w.db
      → P (s.others type user_id p w).1.db

module _ (P : Db → Type 0) where
  pub settle-keeps :
      (r : Result (Option String × Db)) (db : Db)
      → P db
      → ((id : Option String) (db' : Db) → r ≡ ok (id, db') → P db')
      → P (settle r db).1
  settle-keeps (err thrown) db h f = h
  settle-keeps (ok (id, db')) db h f = f id db' refl

  pub keyed-keeps :
      (id : Option String) (r : Result Db) (db : Db)
      → P db
      → ((db' : Db) → r ≡ ok db' → P db')
      → P (keyed id r db).1
  unfolding keyed
  keyed-keeps id (err thrown) db h f = h
  keyed-keeps id (ok db') db h f = f db' refl

  pub delete_idempotent-keeps :
      (r : Result Db) (db : Db)
      → P db
      → ((db' : Db) → r ≡ ok db' → P db')
      → (db' : Db) → delete_idempotent r db ≡ ok db'
      → P db'
  unfolding delete_idempotent
  delete_idempotent-keeps (ok after) db h f db' e = f db' e
  delete_idempotent-keeps (err thrown) db h f db' e = elim (Bool-cases (is_gone thrown)) [
    | inl gone ↦ let same : db ≡ db' = ground arith in rw same at h
    | inr other ↦ absurd (ground arith)
  ]

  pub attempt-keeps {ℓ} :
      {A : Type ℓ} (r : Result A) (run : A → Db → Effect Db) (db : Db)
      → P db
      → ((x : A) → r ≡ ok x → P (run x db).1)
      → P (attempt r run db).1
  attempt-keeps (err thrown) run db h f = h
  attempt-keeps (ok x) run db h f = f x refl

  pub next_day-keeps :
      (r : Result (Option String × Db)) (first : Option String) (db : Db)
      (rest : Option String → Db → Effect Db)
      → P db
      → ((first' : Option String) (db' : Db) → P db' → P (rest first' db').1)
      → ((id : Option String) (db' : Db) → r ≡ ok (id, db') → P db')
      → P (next_day r first db rest).1
  next_day-keeps (ok (id, db')) first db rest h go f = go (or_first first id) db' (f id db' refl)
  next_day-keeps (err (bad_request m)) first db rest h go f = go first db h
  next_day-keeps (err _) first db rest h go f = h

pub validated {ℓ} :
    {Dto : Type ℓ} (dto : Fields → Result Dto) (p : Fields) {x : Dto}
    → validate_payload dto p ≡ ok x
    → dto p ≡ ok x
unfolding validate_payload
validated dto p h = (>>-eq-ok _ (dto p) h).1

required_id-ok : (key : Option String) {id : String} → required_id key ≡ ok id → key ≡ some id
unfolding required_id
required_id-ok none h = cc
required_id-ok (some k) h = ground arith

pub with_id-ok {ℓ} :
    {A : Type ℓ} (r : Result A) (key : Option String) {id : String} {x : A}
    → with_id r key ≡ ok (id, x)
    → (r ≡ ok x) × (key ≡ some id)
with_id-ok r key h =
    let (a, first, last) = >>=-eq-ok r (λ a. required_id key >>= λ id. ok (id, a)) h in
    let (id', present, both) = >>=-eq-ok (required_id key) (λ id. ok (id, a)) last in
    (cc, required_id-ok key present ∙ cc)

pub block_request-ok :
    (dtos : PayloadDtos) (p : Fields) {days : List ℕ} {dto : CreateScheduleBlockDto}
    → block_request dtos p ≡ ok (days, dto)
    → (q : Fields) × (dtos.create_block_dto q ≡ ok dto)
block_request-ok dtos p h =
    let (dto', first, last) = >>=-eq-ok _ _ h in (_, validated dtos.create_block_dto _ first ∙ cc)
