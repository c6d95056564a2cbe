-- ===== src/Schedule/Examples.antt =====
-- Concrete creates: runs of the operations, and the theorems at inputs that meet their conditions.
use goal_slot_api.Base.{
  ◌+◌, ◌<◌, ◌≡◌, ◌↔◌, refl, true, false, some, List, [], ◌∷◌, ◌++◌, arith, Memᴰ, ok, err,
  serialization_failure, is_some,
}
use goal_slot_api.Db.{ScheduleBlock}
use goal_slot_api.Schedule.Clock.{matches_time, time_to_minutes}
use goal_slot_api.Schedule.Conflict.{
  assert_valid_range, validate_goal_ownership, times_overlap, check_time_conflict,
}
use goal_slot_api.Plan.{resolve_plan_limits, check_plan_limit_for_user, check_plan_limit}
use goal_slot_api.Schedule.Rows.{IsSound}
use goal_slot_api.Schedule.Fixtures.{
  nine, half_past_ten, eleven, noon, db, block, dto, fresh, morning, morning-IsSound, reads, aborts,
}
use goal_slot_api.Schedule.Create.{
  Attempt, new_block, create_in_transaction, create_with_conflict_guard, create_checks,
  insert_block, with_conflict_guard, create,
}
use goal_slot_api.Schedule.Create.Guard.{guard_total, guard-serialization_failure_iff, aborted_run}
use goal_slot_api.Schedule.Create.Sound.{create-IsSound}

nine_minutes : time_to_minutes nine ≡ some 540
unfolding time_to_minutes
nine_minutes = refl

half_past_ten_minutes : time_to_minutes half_past_ten ≡ some 630
unfolding time_to_minutes
half_past_ten_minutes = refl

abbrev midday : ScheduleBlock × List ScheduleBlock
midday = (block "b9" "u1" 1 eleven noon, morning ∷ block "b9" "u1" 1 eleven noon ∷ [])

-- The first attempt is aborted, the second inserts.
create_runs :
    create
      (db (morning ∷ []))
      0
      fresh
      "u1"
      (dto 1 eleven noon)
      (record { table = morning ∷ []; aborted = true } ∷ reads (morning ∷ []) ∷ [])
    ≡ some (ok midday)
unfolding create create_in_transaction create_checks assert_valid_range time_to_minutes
    validate_goal_ownership check_plan_limit check_plan_limit_for_user resolve_plan_limits
    create_with_conflict_guard with_conflict_guard check_time_conflict times_overlap insert_block
    new_block
create_runs = refl

abbrev attempts : List Attempt
attempts = record { table = morning ∷ []; aborted = true } ∷ reads (morning ∷ []) ∷ []

create-IsSound_example :
    IsSound midday.1
    × (midday.0 ≡ new_block fresh "u1" (dto 1 eleven noon))
    × (a : Attempt) × Memᴰ a attempts
    × (a.aborted ≡ false)
    × (midday.1 ≡ a.table ++ midday.0 ∷ [])
unfolding matches_time
create-IsSound_example =
    create-IsSound (db (morning ∷ [])) 0 fresh "u1" (dto 1 eleven noon) attempts midday (refl, refl)
      (morning-IsSound, (morning-IsSound, tt)) create_runs

guard_total_example :
    is_some (
      with_conflict_guard
        (create_in_transaction fresh "u1" (dto 1 eleven noon))
        0
        (aborts ∷ aborts ∷ aborts ∷ reads [] ∷ []))
    ≡ true
guard_total_example =
    guard_total (create_in_transaction fresh "u1" (dto 1 eleven noon)) 0
      (aborts ∷ aborts ∷ aborts ∷ reads [] ∷ []) (omega arith) (omega arith)

guard-serialization_failure_iff_example :
    (with_conflict_guard (λ t. ok (morning, t)) 0 (aborts ∷ aborts ∷ aborts ∷ aborts ∷ [])
      ≡ some (err serialization_failure))
    ↔ (3 < 0 + aborted_run (aborts ∷ aborts ∷ aborts ∷ aborts ∷ []))
guard-serialization_failure_iff_example =
    guard-serialization_failure_iff (λ t. ok (morning, t)) 0
      (aborts ∷ aborts ∷ aborts ∷ aborts ∷ []) (λ t e. cc) (omega arith)
