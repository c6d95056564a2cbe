-- ===== src/Coach/Keeps.antt =====
-- What a batch keeps: a predicate on the tables that each operation keeps holds after `apply`.
use goal_slot_api.Base.{
  ◌+◌, ◌≡◌, refl, true, inl, inr, Option, none, some, List, [], ◌∷◌, String, or_else, All,
  Result-cases, Result, ok, ◌>>=◌, ℕ, Bool-cases,
}
use goal_slot_api.Db.{Db}
use goal_slot_api.Schedule.Create.{CreateScheduleBlockDto}
use goal_slot_api.Schedule.Update.{UpdateScope, Changes}
use goal_slot_api.Tracking.Entries
use goal_slot_api.Tracking.Entries.{CreateTimeEntryDto, UpdateTimeEntryDto}
use goal_slot_api.Tracking.Tasks
use goal_slot_api.Tracking.Tasks.{CreateTaskDto, UpdateTaskDto}
use goal_slot_api.Tracking.Goals
use goal_slot_api.Tracking.Goals.{CreateGoalDto, UpdateGoalDto}
use goal_slot_api.Coach.Payload.{
  Fields, CoachActionType, rename_goal, update_goal, create_goal, delete_goal,
  create_schedule_block, update_schedule_block, delete_schedule_block, create_time_entry,
  update_time_entry, delete_time_entry, create_task, update_task, delete_task, CoachProposedAction,
}
use goal_slot_api.Coach.Safety.{is_destructive, Settings, assert_proposal_batch_safe}
use goal_slot_api.Coach.Refs.{Results}
use goal_slot_api.Coach.Blocks
use goal_slot_api.Coach.Blocks.{
  Effect, settle, delete_idempotent, is_gone, create_block_idempotent, in_series_on, or_first,
  next_day, fan_out, schedule_delete,
}
use goal_slot_api.Coach.Dispatch.{
  update_with, create_with, create_blocks, update_block, new_title, titled, has_forbidden_key,
  run_case, dispatch_other, World, Services, keyed, with_id, validate_payload, delete_with,
  block_request, dispatch_db, dispatch,
}
use goal_slot_api.Coach.Apply.{resolve_payload, apply_action, apply_from, apply}
use goal_slot_api.Coach.Operations.{
  OperationsKeep, settle-keeps, keyed-keeps, delete_idempotent-keeps, attempt-keeps, next_day-keeps,
  validated, with_id-ok, block_request-ok,
}

module _ {Rest : Type 0} {P : Db → Type 0} {Valid : CreateScheduleBlockDto → Type 0}
    {ValidUpdate : UpdateScope → Changes → Type 0} {Allowed : CoachActionType → String → Type 0}
    {Fine : Fields → Type 0} (s : Services Rest) (user_id : String)
    (ops : OperationsKeep P Valid ValidUpdate Allowed Fine s user_id) where
  -- The tables after a case of `dispatch`, if it is one that writes them.
  abbrev KeptBy : Option (Db → Effect Db) → Db → Type 0
  KeptBy none db = Unit
  KeptBy (some run) db = P (run db).1

  fan_out-keeps :
      (dto : CreateScheduleBlockDto) (series_id : String) (days : List ℕ) (first : Option String)
      (db : Db)
      → Valid dto
      → P db
      → P (fan_out s.now s.made_up user_id dto series_id days first db).1
  unfolding fan_out
  fan_out-keeps dto series_id [] first db v h = h
  fan_out-keeps dto series_id (d ∷ days) first db v h =
      next_day-keeps P
        (create_block_idempotent s.now s.made_up user_id (in_series_on series_id d dto) db) first db
        (fan_out s.now s.made_up user_id dto series_id days) h
        (λ first' db' h'. fan_out-keeps dto series_id days first' db' v h')
        λ id db' e.
          ops.block_create (in_series_on series_id d dto) db id db'
            (ops.valid_in_series series_id d dto v) h e

  create_schedule_block-keeps :
      (days : List ℕ) (dto : CreateScheduleBlockDto) (db : Db)
      → Valid dto
      → P db
      → P (Blocks.create_schedule_block s.now s.made_up user_id days dto db).1
  unfolding Blocks.create_schedule_block
  create_schedule_block-keeps (d ∷ d' ∷ days) dto db v h =
      fan_out-keeps dto (s.made_up db).series_id (d ∷ d' ∷ days) none db v h
  create_schedule_block-keeps _ dto db v h =
      settle-keeps P (create_block_idempotent s.now s.made_up user_id dto db) db h
        (λ id db' e. ops.block_create dto db id db' v h e)

  delete_with-keeps :
      (delete : String → Db → Result Db) (a : CoachProposedAction) (p : Fields) (db : Db)
      → P db
      → ((id : String) (db' : Db) → a.id ≡ some id → delete id db ≡ ok db' → P db')
      → P (delete_with delete a p db).1
  delete_with-keeps delete a p db h f =
      attempt-keeps P (with_id (validate_payload ok p) a.id)
        (λ (id, _) db. keyed (some id) (delete_idempotent (delete id db) db) db) db h
        λ (id, _) e. keyed-keeps P (some id) (delete_idempotent (delete id db) db) db h (
          delete_idempotent-keeps P (delete id db) db h
            λ db' e'. f id db' (with_id-ok (validate_payload ok p) a.id e).1 e')

  update_with-keeps :
      {Dto : Type 0} (update : String → Dto → Db → Result Db) (request : Result (String × Dto))
      (db : Db)
      → P db
      → ((id : String) (dto : Dto) (db' : Db) → update id dto db ≡ ok db' → P db')
      → P (update_with update request db).1
  update_with-keeps update request db h f =
      attempt-keeps P request (λ (id, dto) db. keyed (some id) (update id dto db) db) db h
        λ (id, dto) e. keyed-keeps P (some id) (update id dto db) db h (f id dto)

  create_with-keeps :
      {Dto : Type 0} (id : Dto → Option String) (create : String → Dto → Db → Result Db)
      (request : Result Dto) (db : Db)
      → P db
      → ((fresh_id : String) (dto : Dto) (db' : Db) → create fresh_id dto db ≡ ok db' → P db')
      → P (create_with s.made_up id create request db).1
  create_with-keeps id create request db h f =
      attempt-keeps P request
        (λ dto db.
          keyed (some (or_else (id dto) (s.made_up db).id)) (create (s.made_up db).id dto db) db)
        db h
        λ dto e.
          keyed-keeps P (some (or_else (id dto) (s.made_up db).id))
            (create (s.made_up db).id dto db) db h (f (s.made_up db).id dto)

  create_blocks-keeps :
      (p : Fields) (db : Db) → P db → P (create_blocks s user_id (block_request s.dtos p) db).1
  create_blocks-keeps p db h =
      attempt-keeps P (block_request s.dtos p)
        (λ (days, dto) db. Blocks.create_schedule_block s.now s.made_up user_id days dto db) db h
        λ (days, dto) e.
          let (q, accepted) = block_request-ok s.dtos p e in
          create_schedule_block-keeps days dto db (ops.valid q dto accepted) h

  update_block-keeps :
      (a : CoachProposedAction) (p : Fields) (db : Db)
      → Fine p
      → P db
      → P
          (update_block s user_id a.expected_title
            (with_id (validate_payload s.dtos.update_block_dto p) a.id)
            db).1
  update_block-keeps a p db fine h =
      let request = with_id (validate_payload s.dtos.update_block_dto p) a.id in
      attempt-keeps P request
        (λ (id, (scope, c)) db.
          settle (Blocks.update_schedule_block s.lower user_id id a.expected_title scope c db) db)
        db h
        λ (id, (scope, c)) e.
          let accepted =
            validated s.dtos.update_block_dto p
              (with_id-ok (validate_payload s.dtos.update_block_dto p) a.id e).0 in
          settle-keeps P
            (Blocks.update_schedule_block s.lower user_id id a.expected_title scope c db) db h
            λ id' db' e'.
              ops.block_update id a.expected_title scope c db id' db'
                (ops.valid_update p scope c fine accepted) h e'

  -- The deletes of an action are allowed, and the payload of an update of a block is fine.
  abbrev pub IsAllowed : CoachProposedAction → Type 0
  IsAllowed a =
      ((id : String) → a.id ≡ some id → is_destructive a.type ≡ true → Allowed a.type id)
      × ((results : Results) (p : Fields)
          → a.type ≡ update_schedule_block
          → resolve_payload results a.payload ≡ ok p
          → Fine p)

  dispatch_db-keeps :
      (a : CoachProposedAction) (p : Fields) (type : CoachActionType) (db : Db)
      → ((id : String) → a.id ≡ some id → is_destructive type ≡ true → Allowed type id)
      → (type ≡ update_schedule_block → Fine p)
      → P db
      → KeptBy (dispatch_db s user_id a p type) db
  unfolding dispatch_db
  dispatch_db-keeps a p rename_goal db allowed fine h =
      update_with-keeps (Goals.update user_id) (with_id (validate_payload ok p) a.id >>= new_title)
        db h λ id dto db' e. ops.goal_update id dto db db' h e
  dispatch_db-keeps a p update_goal db allowed fine h =
      update_with-keeps (Goals.update user_id)
        (with_id (validate_payload s.dtos.update_goal_dto p) a.id) db h
        λ id dto db' e. ops.goal_update id dto db db' h e
  dispatch_db-keeps a p create_goal db allowed fine h =
      create_with-keeps (λ (dto : CreateGoalDto). dto.id)
        (λ fresh_id. Goals.create s.now fresh_id user_id)
        (validate_payload s.dtos.create_goal_dto p >>= titled) db h
        λ fresh_id dto db' e. ops.goal_create fresh_id dto db db' h e
  dispatch_db-keeps a p delete_goal db allowed fine h =
      delete_with-keeps (Goals.delete user_id) a p db h
        λ id db' named e. ops.goal_delete id db db' (allowed id named refl) h e
  dispatch_db-keeps a p create_schedule_block db allowed fine h = create_blocks-keeps p db h
  dispatch_db-keeps a p update_schedule_block db allowed fine h =
      update_block-keeps a p db (fine refl) h
  dispatch_db-keeps a p delete_schedule_block db allowed fine h =
      delete_with-keeps (schedule_delete user_id) a p db h
        λ id db' named e. ops.block_delete id db db' (allowed id named refl) h e
  dispatch_db-keeps a p create_time_entry db allowed fine h =
      create_with-keeps (λ (dto : CreateTimeEntryDto). dto.id)
        (λ fresh_id. Entries.create s.zone s.now fresh_id user_id)
        (validate_payload s.dtos.create_entry_dto p) db h
        λ fresh_id dto db' e. ops.entry_create fresh_id dto db db' h e
  dispatch_db-keeps a p update_time_entry db allowed fine h =
      update_with-keeps (Entries.update s.zone user_id)
        (with_id (validate_payload s.dtos.update_entry_dto p) a.id) db h
        λ id dto db' e. ops.entry_update id dto db db' h e
  dispatch_db-keeps a p delete_time_entry db allowed fine h =
      delete_with-keeps (Entries.delete user_id) a p db h
        λ id db' named e. ops.entry_delete id db db' (allowed id named refl) h e
  dispatch_db-keeps a p create_task db allowed fine h =
      create_with-keeps (λ (dto : CreateTaskDto). dto.id)
        (λ fresh_id. Tasks.create_task fresh_id user_id) (validate_payload s.dtos.create_task_dto p)
        db h λ fresh_id dto db' e. ops.task_create fresh_id dto db db' h e
  dispatch_db-keeps a p update_task db allowed fine h =
      update_with-keeps (Tasks.update_task user_id)
        (with_id (validate_payload s.dtos.update_task_dto p) a.id) db h
        λ id dto db' e. ops.task_update id dto db db' h e
  dispatch_db-keeps a p delete_task db allowed fine h =
      delete_with-keeps (Tasks.delete_task user_id) a p db h
        λ id db' named e. ops.task_delete id db db' (allowed id named refl) h e
  dispatch_db-keeps a p _ db allowed fine h = tt

  dispatch_other-keeps :
      (type : CoachActionType) (p : Fields) (w : World Rest)
      → P w.db
      → P (dispatch_other s user_id type p w).1.db
  dispatch_other-keeps type p w h = elim (Bool-cases (has_forbidden_key p)) [
    | inl refused ↦ rw refused h
    | inr accepted ↦ rw accepted (ops.others type p w h)
  ]

  run_case-keeps :
      (run : Option (Db → Effect Db)) (type : CoachActionType) (p : Fields) (w : World Rest)
      → KeptBy run w.db
      → P w.db
      → P (run_case s user_id run type p w).1.db
  run_case-keeps none type p w k h = dispatch_other-keeps type p w h
  run_case-keeps (some run) type p w k h = k

  dispatch-keeps :
      (a : CoachProposedAction) (p : Fields) (w : World Rest)
      → ((id : String) → a.id ≡ some id → is_destructive a.type ≡ true → Allowed a.type id)
      → (a.type ≡ update_schedule_block → Fine p)
      → P w.db
      → P (dispatch s user_id a p w).1.db
  unfolding dispatch
  dispatch-keeps a p w allowed fine h =
      run_case-keeps (dispatch_db s user_id a p a.type) a.type p w
        (dispatch_db-keeps a p a.type w.db allowed fine h) h

  apply_from-keeps :
      (index : ℕ) (actions : List CoachProposedAction) (results : Results) (w : World Rest)
      → All IsAllowed actions
      → P w.db
      → P (apply_from s user_id index actions results w).1.db
  unfolding apply_from apply_action
  apply_from-keeps index [] results w allowed h = h
  apply_from-keeps index (a ∷ actions) results w allowed h =
      elim (Result-cases (resolve_payload results a.payload)) [
        | inl (thrown, e) ↦ rw e h
        | inr (payload, e) ↦ rw e (
            apply_from-keeps (index + 1) actions _ _ allowed.1
              (dispatch-keeps a payload w allowed.0.0 (λ t. allowed.0.1 results payload t e) h))
      ]

  -- A predicate that each operation keeps holds after a batch, whatever the batch answers.
  pub apply-keeps :
      (settings : Settings) (actions : List CoachProposedAction) (confirmed : Option (List String))
      (w : World Rest)
      → (assert_proposal_batch_safe settings actions confirmed ≡ ok tt → All IsAllowed actions)
      → P w.db
      → P (apply s user_id settings actions confirmed w).1.db
  unfolding apply
  apply-keeps settings actions confirmed w allowed h =
      elim (Result-cases (assert_proposal_batch_safe settings actions confirmed)) [
        | inl (thrown, e) ↦ rw e h
        | inr (_, e) ↦ rw e (apply_from-keeps 0 actions [] w (allowed e) h)
      ]
