-- ===== src/Schedule/Batch/Sound.antt =====
-- What a successful batch leaves in the table.
use mathlib.Core.List.{append-nil, append_assoc}
use goal_slot_api.Base.{
  ℕ, ◌+◌, ◌≡◌, refl, sym, ap, ◌∙◌, false, none, some, List, [], ◌∷◌, ◌++◌, String, arith, All,
  All-at, All-map₂, All-append, Memᴰ, Pairs, ok, >>=-eq-ok,
}
use goal_slot_api.Db.{ScheduleBlock, Db}
use goal_slot_api.Schedule.Conflict.{assert_valid_range, check_time_conflict}
use goal_slot_api.Schedule.Rows.{
  IsRange, HasRange, IsSound, IsFree, times_overlap_comm, no_conflict-IsFree,
}
use goal_slot_api.Schedule.Create.{CreateScheduleBlockDto, Fresh, Attempt, new_block, insert_block}
use goal_slot_api.Schedule.Create.Guard.{guard-ok}
use goal_slot_api.Schedule.Create.Sound.{
  insert_block-IsSound, IsFree-Compatible, assert_valid_range-IsRange, IsValidDto,
  matches_time-HasMinute,
}
use goal_slot_api.Schedule.Batch.{
  Dtos, assert_no_self_conflict, check_all, insert_all, create_batch_in_transaction,
  create_batch_with_conflict_guard, assert_valid_ranges, create_batch_checks, create_batch,
}
use goal_slot_api.Schedule.Batch.NoSelfConflict.{Apart, assert_no_self_conflict-Apart}

-- The rows of a request, in its order.
pub new_blocks : (ℕ → Fresh) → ℕ → String → Dtos → List ScheduleBlock
new_blocks fresh i user_id [] = []
new_blocks fresh i user_id (b ∷ bs) =
    new_block (fresh i) user_id b ∷ new_blocks fresh (i + 1) user_id bs

-- No row of the table overlaps the times of a block of the request.
abbrev FreeIn : String → List ScheduleBlock → CreateScheduleBlockDto → Type 0
FreeIn user_id table b = All (IsFree user_id b.day_of_week b.start_time b.end_time none) table

check_all-FreeIn :
    (user_id : String) (table : List ScheduleBlock) (blocks : Dtos)
    → check_all user_id table blocks ≡ ok tt
    → All (FreeIn user_id table) blocks
unfolding check_all
check_all-FreeIn user_id table [] h = tt
check_all-FreeIn user_id table (b ∷ bs) h =
    let free : check_time_conflict user_id b.day_of_week b.start_time b.end_time none table
        ≡ false =
      ground arith in
    let rest : check_all user_id table bs ≡ ok tt = ground arith in
    (
      no_conflict-IsFree user_id b.day_of_week b.start_time b.end_time none table free,
      check_all-FreeIn user_id table bs rest,
    )

abbrev DtoRange : CreateScheduleBlockDto → Type 0
DtoRange b = IsRange b.start_time b.end_time

assert_valid_ranges-DtoRange :
    (blocks : Dtos)
    → All IsValidDto blocks
    → assert_valid_ranges blocks ≡ ok tt
    → All DtoRange blocks
unfolding assert_valid_ranges
assert_valid_ranges-DtoRange [] valid h = tt
assert_valid_ranges-DtoRange (b ∷ bs) valid h =
    let here : assert_valid_range b.start_time b.end_time ≡ ok tt = ground arith in
    let rest : assert_valid_ranges bs ≡ ok tt = ground arith in
    (
      assert_valid_range-IsRange b.start_time b.end_time
          (matches_time-HasMinute b.start_time valid.0.0)
          (matches_time-HasMinute b.end_time valid.0.1) here,
      assert_valid_ranges-DtoRange bs valid.1 rest,
    )

-- What is free in the table stays free after the insert of a block that stands apart.
FreeIn-insert :
    (fresh : Fresh) (user_id : String) (table : List ScheduleBlock) (b c : CreateScheduleBlockDto)
    → Apart b c
    → FreeIn user_id table c
    → FreeIn user_id (table ++ new_block fresh user_id b ∷ []) c
unfolding new_block
FreeIn-insert fresh user_id table b c apart free =
    All-append _ table (new_block fresh user_id b ∷ []) free (
      λ u d x. times_overlap_comm c.start_time c.end_time b.start_time b.end_time ∙ apart (sym d),
      tt,
    )

insert_all-IsSound :
    (fresh : ℕ → Fresh) (i : ℕ) (user_id : String) (blocks : Dtos) (table : List ScheduleBlock)
    (r : List ScheduleBlock × List ScheduleBlock)
    → IsSound table
    → All DtoRange blocks
    → All (FreeIn user_id table) blocks
    → Pairs Apart blocks
    → insert_all fresh i user_id blocks table ≡ ok r
    → IsSound r.1
      × (r.0 ≡ new_blocks fresh i user_id blocks)
      × (r.1 ≡ table ++ new_blocks fresh i user_id blocks)
unfolding insert_all new_blocks new_block
insert_all-IsSound fresh i user_id [] table r sound ranges free apart h =
    let e : r ≡ ([], table) = ground arith in rw e (sound, refl, sym (append-nil table))
insert_all-IsSound fresh i user_id (b ∷ bs) table r sound ranges free apart h =
    let nb = new_block (fresh i) user_id b in
    let (p, inserted, h') = >>=-eq-ok (insert_block nb table) _ h in
    let (q, rest, e) = >>=-eq-ok (insert_all fresh (i + 1) user_id bs p.1) _ h' in
    let compatible = IsFree-Compatible nb table free.0 in
    let range : HasRange nb = ranges.0 in
    let (sound', pe) = insert_block-IsSound nb table p sound range compatible inserted in
    let grown : All (FreeIn user_id (table ++ nb ∷ [])) bs =
      All-map₂ (λ c. FreeIn-insert (fresh i) user_id table b c) bs apart.0 free.1 in
    let (sound'', qe, te) =
      insert_all-IsSound fresh (i + 1) user_id bs p.1 q sound' ranges.1
        (rw (ap (λ x. x.1) pe) grown) apart.1 rest in
    let re : r ≡ (p.0 ∷ q.0, q.1) = cc in
    let first : p.0 ≡ nb = ap (λ x. x.0) pe in
    let table' : p.1 ≡ table ++ nb ∷ [] = ap (λ x. x.1) pe in
    (
      rw (ap (λ x. x.1) re) sound'',
      ap (λ x. x.0) re ∙ cc,
      ap (λ x. x.1) re
          ∙ te
          ∙ ap (λ t. t ++ new_blocks fresh (i + 1) user_id bs) table'
          ∙ append_assoc table (nb ∷ []) (new_blocks fresh (i + 1) user_id bs),
    )

-- All or none: when `createBatch` succeeds on times that the dto accepts, and its attempts read
-- sound tables, then it appended one row for each block of the request, in order, to the rows that
-- one attempt read, which the database did not abort, and the table is sound again.
pub create_batch-IsSound :
    (db : Db) (now : ℕ) (fresh : ℕ → Fresh) (user_id : String) (blocks : Dtos)
    (attempts : List Attempt) (r : List ScheduleBlock × List ScheduleBlock)
    → All IsValidDto blocks
    → All (λ a. IsSound a.table) attempts
    → create_batch db now fresh user_id blocks attempts ≡ some (ok r)
    → IsSound r.1
      × (r.0 ≡ new_blocks fresh 0 user_id blocks)
      × (a : Attempt) × Memᴰ a attempts
      × (a.aborted ≡ false)
      × (r.1 ≡ a.table ++ r.0)
unfolding create_batch create_batch_checks create_batch_with_conflict_guard
    create_batch_in_transaction
create_batch-IsSound db now fresh user_id blocks attempts r valid sound h =
    let checked : assert_valid_ranges blocks ≡ ok tt = ground arith in
    let ranges = assert_valid_ranges-DtoRange blocks valid checked in
    let (a, m, live, made) =
      guard-ok (create_batch_in_transaction fresh user_id blocks) 0 attempts r (ground arith) in
    let apart : assert_no_self_conflict blocks ≡ ok tt = ground arith in
    let free : check_all user_id a.table blocks ≡ ok tt = ground arith in
    let inserted : insert_all fresh 0 user_id blocks a.table ≡ ok r = ground arith in
    let (sound', rows, table) =
      insert_all-IsSound fresh 0 user_id blocks a.table r
        (All-at (λ a. IsSound a.table) attempts sound m) ranges
        (check_all-FreeIn user_id a.table blocks free) (assert_no_self_conflict-Apart blocks apart)
        inserted in
    (sound', rows, a, m, live, table ∙ ap (λ t. a.table ++ t) (sym rows))
