-- ===== src/Coach/GoalRows.antt =====
-- Which goals the operations of the actions leave in the table.
use goal_slot_api.Base.{
  ◌≡◌, refl, sym, ap, ◌∙◌, inl, inr, Bool, true, false, Option, none, some, List, [], ◌∷◌, ◌++◌,
  String, arith, str_eq, eq_iff, any, any-snoc, any-update_where, find, update_where, delete_where,
  Bool-cases, Option-cases, Result, ok, err, >>=-eq-ok, ok-injective, ℕ,
}
use goal_slot_api.Db.{Text, Goal, ScheduleBlock, Db}
use goal_slot_api.Schedule.Create.{CreateScheduleBlockDto, Fresh, Attempt, create}
use goal_slot_api.Schedule.Update
use goal_slot_api.Schedule.Update.{UpdateScope, Changes, by_id}
use goal_slot_api.Tracking.Progress.{
  logged_minutes_of, next_status, update_progress, with_progress, owned_goal,
}
use goal_slot_api.Tracking.Goals
use goal_slot_api.Tracking.Goals.{
  CreateGoalDto, UpdateGoalDto, goal_by_id, apply_goal_update, new_goal,
}
use goal_slot_api.Coach.Blocks
use goal_slot_api.Coach.Blocks.{
  create_block_idempotent, schedule_create, created_block, is_identical, schedule_update,
  schedule_delete,
}
use goal_slot_api.Coach.Target.{update_schedule_block-Written}
use goal_slot_api.Coach.Frame.{IsFramed}

abbrev pub has_goal : String → Db → Bool
has_goal id db = any (goal_by_id id) db.goals

abbrev pub HasGoal : String → Db → Type 0
HasGoal id db = has_goal id db ≡ true

progress-HasGoal :
    (id goal_id user_id : String) (db : Db)
    → HasGoal id db
    → HasGoal id (update_progress goal_id user_id db)
unfolding update_progress with_progress
progress-HasGoal id goal_id user_id db h =
    elim (Option-cases (find (owned_goal goal_id user_id) db.goals)) [
      | inl missing ↦ rw missing h
      | inr (g, f) ↦
          let minutes = logged_minutes_of goal_id db.time_entries in
          let same =
            any-update_where (λ (x : Goal). str_eq x.id goal_id) (goal_by_id id)
              (with_progress minutes (next_status minutes g)) db.goals (λ x. refl) in
          rw f (same ∙ h)
    ]

pub framed : (id : String) → IsFramed (HasGoal id)
framed id = record {
  entries = λ db rows h. h;
  tasks = λ db rows h. h;
  progress = λ goal_id user_id db h. progress-HasGoal id goal_id user_id db h;
}

module _ {ℓ} {A : Type ℓ} (p q : A → Bool) where
  any-delete_where :
      (xs : List A)
      → ((x : A) → q x ≡ true → p x ≡ false)
      → any q xs ≡ true
      → any q (delete_where p xs) ≡ true
  any-delete_where [] apart h = h
  any-delete_where (x ∷ xs) apart h = elim (Bool-cases (q x)) [
    | inl hit ↦ rw (apart x hit, hit)
    | inr miss ↦
        let rest = any-delete_where xs apart (rw miss at h) in
        elim (Bool-cases (p x)) [ inl gone ↦ rw gone rest | inr kept ↦ rw (kept, miss) rest ]
  ]

pub created_goal-HasGoal :
    (id : String) (now : ℕ) (fresh_id user_id : String) (dto : CreateGoalDto) (db db' : Db)
    → HasGoal id db
    → Goals.create now fresh_id user_id dto db ≡ ok db'
    → HasGoal id db'
unfolding Goals.create
created_goal-HasGoal id now fresh_id user_id dto db db' h e =
    let rows : db'.goals ≡ db.goals ++ new_goal fresh_id user_id dto ∷ [] = ground arith in
    rw (rows, any-snoc (goal_by_id id) db.goals (new_goal fresh_id user_id dto), h)

pub updated_goal-HasGoal :
    (id user_id target : String) (dto : UpdateGoalDto) (db db' : Db)
    → HasGoal id db
    → Goals.update user_id target dto db ≡ ok db'
    → HasGoal id db'
unfolding Goals.update apply_goal_update
updated_goal-HasGoal id user_id target dto db db' h e =
    let rows : db'.goals ≡ update_where (goal_by_id target) (apply_goal_update dto) db.goals =
      ground arith in
    rw
      (
        rows,
        any-update_where (goal_by_id target) (goal_by_id id) (apply_goal_update dto) db.goals
            (λ x. refl),
      )
      h

pub deleted_goal-HasGoal :
    (id user_id target : String) (db db' : Db)
    → str_eq target id ≡ false
    → HasGoal id db
    → Goals.delete user_id target db ≡ ok db'
    → HasGoal id db'
unfolding Goals.delete
deleted_goal-HasGoal id user_id target db db' other h e =
    let rows : db'.goals ≡ delete_where (goal_by_id target) db.goals = ground arith in
    rw rows (
      any-delete_where (goal_by_id target) (goal_by_id id) db.goals
        (λ x hit. ground (arith, eq_iff x.id id, eq_iff x.id target, eq_iff target id)) h)

-- The writes of blocks leave the goals.
pub created_block-goals :
    (now : ℕ) (made_up : Db → Fresh) (user_id : String) (dto : CreateScheduleBlockDto) (db : Db)
    (id : Option String) (db' : Db)
    → create_block_idempotent now made_up user_id dto db ≡ ok (id, db')
    → db'.goals ≡ db.goals
unfolding create_block_idempotent schedule_create
created_block-goals now made_up user_id dto db id db' e =
    elim (Option-cases (find (is_identical user_id dto) db.schedule_blocks)) [
      | inr (b, f) ↦ let same : db ≡ db' = ground arith in rw same
      | inl new ↦
          let attempt : Attempt = record { table = db.schedule_blocks; aborted = false } in
          of_attempt (create db now (made_up db) user_id dto (attempt ∷ [])) (ground arith)
    ]
  where
    of_attempt :
        (r : Option (Result (ScheduleBlock × List ScheduleBlock)))
        → created_block db r ≡ ok (id, db')
        → db'.goals ≡ db.goals
    of_attempt none made = cc
    of_attempt (some (err thrown)) made = cc
    of_attempt (some (ok (block, table))) made = ap (λ r. r.1.goals) (sym (ok-injective made))

pub updated_block-goals :
    (lower : Text → Text) (user_id id : String) (expected_title : Option String)
    (scope : UpdateScope) (c : Changes) (db : Db) (r : Option String × Db)
    → Blocks.update_schedule_block lower user_id id expected_title scope c db ≡ ok r
    → r.1.goals ≡ db.goals
unfolding schedule_update
updated_block-goals lower user_id id expected_title scope c db r h =
    let (target, _, _, made) =
      update_schedule_block-Written lower user_id id expected_title scope c db r h in
    let (found, _, same) = >>=-eq-ok (Update.update db user_id target scope c) _ made in
    ap (λ r. r.1.goals) (sym (ok-injective same))

pub deleted_block-goals :
    (user_id id : String) (db db' : Db)
    → schedule_delete user_id id db ≡ ok db'
    → db'.goals ≡ db.goals
unfolding schedule_delete Update.delete
deleted_block-goals user_id id db db' h = ground arith
