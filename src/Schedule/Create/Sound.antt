-- ===== src/Schedule/Create/Sound.antt =====
-- What a successful create leaves in the table.
use goal_slot_api.Base.{
  ℕ, ◌≡◌, refl, sym, ◌∙◌, true, false, none, some, List, [], ◌∷◌, ◌++◌, String, str_eq, arith,
  eq_iff, any, All, All-at, Memᴰ, ap, All-append, All-map, Pairs-snoc, any-false, ok,
}
use goal_slot_api.Db.{Text, ScheduleBlock, Db}
use goal_slot_api.Schedule.Clock.{matches_time, time_to_minutes, time_to_minutes_in_day}
use goal_slot_api.Schedule.Conflict.{assert_valid_range, check_time_conflict}
use goal_slot_api.Schedule.Rows.{
  IsRange, HasRange, Compatible, HasOtherId, IsSound, IsFree, times_overlap_comm,
  no_conflict-IsFree,
}
use goal_slot_api.Schedule.Create.{
  CreateScheduleBlockDto, Fresh, Attempt, new_block, insert_block, create_in_transaction,
  create_with_conflict_guard, create_checks, create,
}
use goal_slot_api.Schedule.Create.Guard.{guard-ok}

-- A row that is free of conflicts joins a sound table.
pub insert_block-IsSound :
    (b : ScheduleBlock) (table : List ScheduleBlock) (r : ScheduleBlock × List ScheduleBlock)
    → IsSound table
    → HasRange b
    → All (λ x. Compatible x b) table
    → insert_block b table ≡ ok r
    → IsSound r.1 × (r ≡ (b, table ++ b ∷ []))
unfolding insert_block
insert_block-IsSound b table r sound range free h =
    let new : any (λ (x : ScheduleBlock). str_eq x.id b.id) table ≡ false = ground arith in
    let e : r ≡ (b, table ++ b ∷ []) = ground arith in
    rw e (
      record {
        ids = Pairs-snoc HasOtherId table b sound.ids (ids table new);
        ranges = All-append HasRange table (b ∷ []) sound.ranges (range, tt);
        disjoint = Pairs-snoc Compatible table b sound.disjoint free;
      },
      refl,
    )
  where
    ids :
        (t : List ScheduleBlock)
        → any (λ (x : ScheduleBlock). str_eq x.id b.id) t ≡ false
        → All (λ x. HasOtherId x b) t
    ids t h = All-map (λ x ne e. ground (arith, eq_iff x.id b.id)) t (any-false _ t h)

-- A new row that the rows leave free overlaps none of them.
pub IsFree-Compatible :
    (b : ScheduleBlock) (table : List ScheduleBlock)
    → All (IsFree b.user_id b.day_of_week b.start_time b.end_time none) table
    → All (λ x. Compatible x b) table
IsFree-Compatible b = All-map λ x free u d.
    times_overlap_comm x.start_time x.end_time b.start_time b.end_time ∙ free (sym u) (sym d) refl

abbrev pub HasMinute : Text → Type 0
HasMinute s = (m : ℕ) × (time_to_minutes s ≡ some m)

pub matches_time-HasMinute : (s : Text) → matches_time s ≡ true → HasMinute s
matches_time-HasMinute s h = let (m, e, _) = time_to_minutes_in_day s h in (m, e)

-- The range check passes on texts that are minutes only if they are in order.
pub assert_valid_range-IsRange :
    (s e : Text) → HasMinute s → HasMinute e → assert_valid_range s e ≡ ok tt → IsRange s e
unfolding assert_valid_range
assert_valid_range-IsRange s e (m, p) (n, q) h = (m, n, p, q, ground arith)

-- The dto's validation of the two times.
abbrev pub IsValidDto : CreateScheduleBlockDto → Type 0
IsValidDto dto = (matches_time dto.start_time ≡ true) × (matches_time dto.end_time ≡ true)

create_in_transaction-IsSound :
    (fresh : Fresh) (user_id : String) (dto : CreateScheduleBlockDto) (table : List ScheduleBlock)
    (r : ScheduleBlock × List ScheduleBlock)
    → IsSound table
    → IsRange dto.start_time dto.end_time
    → create_in_transaction fresh user_id dto table ≡ ok r
    → IsSound r.1 × (r ≡ (new_block fresh user_id dto, table ++ new_block fresh user_id dto ∷ []))
unfolding create_in_transaction new_block
create_in_transaction-IsSound fresh user_id dto table r sound range h =
    let b = new_block fresh user_id dto in
    let free : check_time_conflict user_id dto.day_of_week dto.start_time dto.end_time none table
        ≡ false =
      ground arith in
    let inserted : insert_block b table ≡ ok r = ground arith in
    let rows =
      no_conflict-IsFree user_id dto.day_of_week dto.start_time dto.end_time none table free in
    insert_block-IsSound b table r sound range (IsFree-Compatible b table rows) inserted

-- Whatever other requests do between the attempts: when `create` succeeds on times that the dto
-- accepts, and the attempts read sound tables, then it appended one row, the row of the request, to
-- the rows that one attempt read, which the database did not abort, and the table is sound again:
-- its keys differ, its ranges are in order, and no two rows of a user on a day overlap.
pub create-IsSound :
    (db : Db) (now : ℕ) (fresh : Fresh) (user_id : String) (dto : CreateScheduleBlockDto)
    (attempts : List Attempt) (r : ScheduleBlock × List ScheduleBlock)
    → IsValidDto dto
    → All (λ a. IsSound a.table) attempts
    → create db now fresh user_id dto attempts ≡ some (ok r)
    → IsSound r.1
      × (r.0 ≡ new_block fresh user_id dto)
      × (a : Attempt) × Memᴰ a attempts
      × (a.aborted ≡ false)
      × (r.1 ≡ a.table ++ r.0 ∷ [])
unfolding create create_checks create_with_conflict_guard
create-IsSound db now fresh user_id dto attempts r valid sound h =
    let checked : assert_valid_range dto.start_time dto.end_time ≡ ok tt = ground arith in
    let range =
      assert_valid_range-IsRange dto.start_time dto.end_time
        (matches_time-HasMinute dto.start_time valid.0)
        (matches_time-HasMinute dto.end_time valid.1) checked in
    let (a, m, live, made) =
      guard-ok (create_in_transaction fresh user_id dto) 0 attempts r (ground arith) in
    let (sound', e) =
      create_in_transaction-IsSound fresh user_id dto a.table r
        (All-at (λ a. IsSound a.table) attempts sound m) range made in
    (sound', ap (λ p. p.0) e, a, m, live, rw (ap (λ p. p.0) e) (ap (λ p. p.1) e))
