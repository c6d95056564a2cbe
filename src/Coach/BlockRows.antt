-- ===== src/Coach/BlockRows.antt =====
-- The table of schedule blocks under the operations of the actions.
use goal_slot_api.Base.{
  ◌≡◌, refl, ap, sym, ◌∙◌, Bool, false, ◌⊎◌, inl, inr, Option, none, some, List, [], ◌∷◌, String,
  arith, All, All-map, Pairs-map, All-update_where, Pairs-update_where, All-delete_where,
  Pairs-delete_where, updated, update_where, delete_where, find, Bool-cases, Option-cases, Result,
  ok, err, >>=-eq-ok, ok-injective, ℕ,
}
use goal_slot_api.Db.{Text, ScheduleBlock, Db}
use goal_slot_api.Schedule.Rows.{HasRange, Compatible, HasOtherId, IsSound}
use goal_slot_api.Schedule.Create.{CreateScheduleBlockDto, Fresh, Attempt, create}
use goal_slot_api.Schedule.Create.Sound.{IsValidDto, create-IsSound}
use goal_slot_api.Schedule.Update.{UpdateScope, single, series, Changes, by_id}
use goal_slot_api.Schedule.Update
use goal_slot_api.Schedule.Update.Row.{IsValidChanges}
use goal_slot_api.Schedule.Update.Sound.{update-IsSound}
use goal_slot_api.Tracking.Progress.{update_progress}
use goal_slot_api.Tracking.Goals
use goal_slot_api.Tracking.Goals.{CreateGoalDto, UpdateGoalDto, unlink_block, block_of_goal}
use goal_slot_api.Coach.Blocks
use goal_slot_api.Coach.Blocks.{
  create_block_idempotent, schedule_create, schedule_update, schedule_delete, is_identical,
  created_block,
}
use goal_slot_api.Coach.Frame.{IsFramed}
use goal_slot_api.Coach.Target.{update_schedule_block-Written}

unlinked :
    (goal_id : String) (b : ScheduleBlock)
    → (updated (block_of_goal goal_id) unlink_block b ≡ b)
      ⊎ (updated (block_of_goal goal_id) unlink_block b ≡ unlink_block b)
unlinked goal_id b = elim (Bool-cases (block_of_goal goal_id b)) [
  | inl linked ↦ inr (rw linked)
  | inr other ↦ inl (rw other)
]

-- A row and the row with its goal unlinked have one key, one user, one day and one range.
unlinked-HasRange :
    (goal_id : String) (b : ScheduleBlock)
    → HasRange b
    → HasRange (updated (block_of_goal goal_id) unlink_block b)
unlinked-HasRange goal_id b h = elim (unlinked goal_id b) [ inl e ↦ rw e h | inr e ↦ rw e h ]

unlinked-Pair :
    (R : ScheduleBlock → ScheduleBlock → Type 0)
    → ((a b : ScheduleBlock) → R a b → R a (unlink_block b))
    → ((a b : ScheduleBlock) → R a b → R (unlink_block a) b)
    → (goal_id : String) (a b : ScheduleBlock) → R a b
    → R
        (updated (block_of_goal goal_id) unlink_block a)
        (updated (block_of_goal goal_id) unlink_block b)
unlinked-Pair R right left goal_id a b h =
    let right' : R a (updated (block_of_goal goal_id) unlink_block b) = elim (unlinked goal_id b) [
      | inl e ↦ rw e h
      | inr e ↦ rw e (right a b h)
    ] in
    elim (unlinked goal_id a) [ inl e ↦ rw e right' | inr e ↦ rw e (left a _ right') ]

All-units : (table : List ScheduleBlock) → All (λ b. Unit {0}) table
All-units [] = tt
All-units (b ∷ bs) = (tt, All-units bs)

unlink-IsSound :
    (goal_id : String) (table : List ScheduleBlock)
    → IsSound table
    → IsSound (update_where (block_of_goal goal_id) unlink_block table)
unlink-IsSound goal_id table sound =
    let p = block_of_goal goal_id in
    record {
      ids = Pairs-update_where p unlink_block HasOtherId table (
          Pairs-map (λ a b _ _. unlinked-Pair HasOtherId (λ a b h. h) (λ a b h. h) goal_id a b)
            table (All-units table) sound.ids);
      ranges =
          All-update_where p unlink_block HasRange table
            (All-map (unlinked-HasRange goal_id) table sound.ranges);
      disjoint = Pairs-update_where p unlink_block Compatible table (
          Pairs-map (λ a b _ _. unlinked-Pair Compatible (λ a b h. h) (λ a b h. h) goal_id a b)
            table (All-units table) sound.disjoint);
    }

delete_where-IsSound :
    (p : ScheduleBlock → Bool) (table : List ScheduleBlock)
    → IsSound table
    → IsSound (delete_where p table)
delete_where-IsSound p table sound = record {
  ids = Pairs-delete_where p HasOtherId table sound.ids;
  ranges = All-delete_where p HasRange table sound.ranges;
  disjoint = Pairs-delete_where p Compatible table sound.disjoint;
}

-- The operations on goals, entries and tasks leave the blocks.
pub goal_create-blocks :
    (now : ℕ) (fresh_id user_id : String) (dto : CreateGoalDto) (db db' : Db)
    → Goals.create now fresh_id user_id dto db ≡ ok db'
    → db'.schedule_blocks ≡ db.schedule_blocks
unfolding Goals.create
goal_create-blocks now fresh_id user_id dto db db' h = ground arith

pub goal_update-blocks :
    (user_id id : String) (dto : UpdateGoalDto) (db db' : Db)
    → Goals.update user_id id dto db ≡ ok db'
    → db'.schedule_blocks ≡ db.schedule_blocks
unfolding Goals.update
goal_update-blocks user_id id dto db db' h = ground arith

pub progress-blocks :
    (goal_id user_id : String) (db : Db)
    → (update_progress goal_id user_id db).schedule_blocks ≡ db.schedule_blocks
unfolding update_progress
progress-blocks goal_id user_id db = refl

abbrev pub BlocksSound : Db → Type 0
BlocksSound db = IsSound db.schedule_blocks

abbrev pub framed : IsFramed BlocksSound
framed = record {
  entries = λ db rows h. h;
  tasks = λ db rows h. h;
  progress = λ goal_id user_id db h. rw (progress-blocks goal_id user_id db) h;
}

pub created_block-IsSound :
    (now : ℕ) (made_up : Db → Fresh) (user_id : String) (dto : CreateScheduleBlockDto) (db : Db)
    (id : Option String) (db' : Db)
    → IsValidDto dto
    → BlocksSound db
    → create_block_idempotent now made_up user_id dto db ≡ ok (id, db')
    → BlocksSound db'
unfolding create_block_idempotent schedule_create
created_block-IsSound now made_up user_id dto db id db' valid h e =
    elim (Option-cases (find (is_identical user_id dto) db.schedule_blocks)) [
      | inr (b, f) ↦ let same : db ≡ db' = ground arith in rw (← same) h
      | inl new ↦
          let attempt : Attempt = record { table = db.schedule_blocks; aborted = false } in
          let made = create db now (made_up db) user_id dto (attempt ∷ []) in
          let e' : created_block db made ≡ ok (id, db') = ground arith in of_attempt made refl e'
    ]
  where
    of_attempt :
        (r : Option (Result (ScheduleBlock × List ScheduleBlock)))
        → create db now
            (made_up db)
            user_id
            dto
            (record { table = db.schedule_blocks; aborted = false } ∷ [])
          ≡ r
        → created_block db r ≡ ok (id, db')
        → BlocksSound db'
    of_attempt none made e' = cc
    of_attempt (some (err thrown)) made e' = cc
    of_attempt (some (ok (block, table))) made e' =
        let written : table ≡ db'.schedule_blocks =
          ap (λ r. r.1.schedule_blocks) (ok-injective e') in
        rw (← written)
          (create-IsSound db now (made_up db) user_id dto _ (block, table) valid (h, tt) made).0

series≢single : ¬ (series ≡ single)
series≢single e = cc

pub updated_block-IsSound :
    (lower : Text → Text) (user_id id : String) (expected_title : Option String)
    (scope : UpdateScope) (c : Changes) (db : Db) (id' : Option String) (db' : Db)
    → IsValidChanges c
    → scope ≡ single
    → BlocksSound db
    → Blocks.update_schedule_block lower user_id id expected_title scope c db ≡ ok (id', db')
    → BlocksSound db'
unfolding schedule_update
updated_block-IsSound lower user_id id expected_title scope c db id' db' valid is_single h e =
    let (target, _, _, made) =
      update_schedule_block-Written lower user_id id expected_title scope c db (id', db') e in
    let (r, updated, written) = >>=-eq-ok (Update.update db user_id target scope c) _ made in
    let table : r.1 ≡ db'.schedule_blocks = ap (λ r. r.1.schedule_blocks) (ok-injective written) in
    rw (← table) (
      update-IsSound db user_id target scope c r valid h
        (λ is_series. absurd (series≢single (sym is_series ∙ is_single))) updated)

pub deleted_block-IsSound :
    (user_id id : String) (db db' : Db)
    → BlocksSound db
    → schedule_delete user_id id db ≡ ok db'
    → BlocksSound db'
unfolding schedule_delete Update.delete
deleted_block-IsSound user_id id db db' h e =
    let table : db'.schedule_blocks ≡ delete_where (by_id id) db.schedule_blocks = ground arith in
    rw table (delete_where-IsSound (by_id id) db.schedule_blocks h)

pub deleted_goal-IsSound :
    (user_id id : String) (db db' : Db)
    → BlocksSound db
    → Goals.delete user_id id db ≡ ok db'
    → BlocksSound db'
unfolding Goals.delete
deleted_goal-IsSound user_id id db db' h e =
    let table : db'.schedule_blocks
        ≡ update_where (block_of_goal id) unlink_block db.schedule_blocks =
      ground arith in
    rw table (unlink-IsSound id db.schedule_blocks h)
