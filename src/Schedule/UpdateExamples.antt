-- ===== src/Schedule/UpdateExamples.antt =====
-- Concrete batches and updates of a schedule.
use goal_slot_api.Base.{
  ℕ, ◌≡◌, refl, false, none, some, List, [], ◌∷◌, ◌++◌, arith, Memᴰ, eq_iff, ◌==◌, if◌then◌else◌,
  ok,
}
use goal_slot_api.Db.{ScheduleBlock}
use goal_slot_api.Plan.{resolve_plan_limits, check_plan_limit_for_user, check_plan_limit}
use goal_slot_api.Schedule.Clock.{matches_time, time_to_minutes}
use goal_slot_api.Schedule.Conflict.{
  assert_valid_range, validate_goal_ownership, times_overlap, check_time_conflict,
}
use goal_slot_api.Schedule.Rows.{IsSound}
use goal_slot_api.Schedule.Fixtures.{
  nine, eleven, noon, db, block, dto, fresh, morning, morning-IsSound, reads, aborts,
}
use goal_slot_api.Schedule.Create.{Fresh, Attempt, insert_block, new_block, with_conflict_guard}
use goal_slot_api.Schedule.Batch.{
  Dtos, assert_no_self_conflict, create_batch_in_transaction, create_batch_with_conflict_guard,
  create_batch_checks, create_batch,
}
use goal_slot_api.Schedule.Batch.Sound.{new_blocks, create_batch-IsSound}
use goal_slot_api.Schedule.Update.{
  series, single, Changes, apply_changes, update_series, update_single, Updated, update, delete,
}
use goal_slot_api.Schedule.Update.Sound.{update-IsSound}
use goal_slot_api.Schedule.Update.Tenancy.{update_other_users}
use goal_slot_api.Schedule.Update.SeriesOverlap.{update_series_overlap}

-- Monday 11:00 to 12:00, and Tuesday 9:00 to 11:00.
abbrev two_days : Dtos
two_days = dto 1 eleven noon ∷ dto 2 nine eleven ∷ []

abbrev given : ℕ → Fresh
given i = if i == 0 then record { id = "b8"; series_id = "s8" } else fresh

abbrev attempts : List Attempt
attempts = aborts ∷ reads (morning ∷ []) ∷ []

abbrev batch : List ScheduleBlock × List ScheduleBlock
batch =
    let rows : List ScheduleBlock =
      block "b8" "u1" 1 eleven noon ∷ block "b9" "u1" 2 nine eleven ∷ [] in
    (rows, morning ∷ rows)

create_batch_runs :
    create_batch (db (morning ∷ [])) 0 given "u1" two_days attempts ≡ some (ok batch)
unfolding create_batch create_batch_checks create_batch_in_transaction
    create_batch_with_conflict_guard with_conflict_guard insert_block new_block
    assert_no_self_conflict assert_valid_range time_to_minutes validate_goal_ownership
    check_plan_limit check_plan_limit_for_user resolve_plan_limits check_time_conflict times_overlap
create_batch_runs = refl

create_batch-IsSound_example :
    IsSound batch.1
    × (batch.0 ≡ new_blocks given 0 "u1" two_days)
    × (a : Attempt) × Memᴰ a attempts
    × (a.aborted ≡ false)
    × (batch.1 ≡ a.table ++ batch.0)
unfolding matches_time
create_batch-IsSound_example =
    create_batch-IsSound (db (morning ∷ [])) 0 given "u1" two_days attempts batch
      ((refl, refl), ((refl, refl), tt))
      (record { ids = tt; ranges = tt; disjoint = tt }, (morning-IsSound, tt)) create_batch_runs

-- A second block of the series "s1" on Monday, and a block of another user.
abbrev table : List ScheduleBlock
table =
    morning
    ∷ block "b2" "u1" 1 (49 ∷ 52 ∷ 58 ∷ 48 ∷ 48 ∷ []) (49 ∷ 53 ∷ 58 ∷ 48 ∷ 48 ∷ [])
    ∷ block "b3" "u2" 1 nine noon
    ∷ []

table-IsSound : IsSound table
unfolding time_to_minutes times_overlap
table-IsSound = record {
  ids = (
    ((λ e. ground (arith, eq_iff "b1" "b2")), ((λ e. ground (arith, eq_iff "b1" "b3")), tt)),
    (((λ e. ground (arith, eq_iff "b2" "b3")), tt), (tt, tt)),
  );
  ranges = (
    (540, 660, refl, refl, omega arith),
    ((840, 900, refl, refl, omega arith), ((540, 720, refl, refl, omega arith), tt)),
  );
  disjoint = (
    ((λ u d. refl), ((λ u d. ground (arith, eq_iff "u1" "u2")), tt)),
    (((λ u d. refl), tt), (tt, tt)),
  );
}

abbrev to_eleven : Changes
to_eleven = record {
  title = none;
  start_time = some eleven;
  end_time = some noon;
  day_of_week = none;
  category = none;
  color = none;
  is_recurring = none;
  is_private = none;
  goal_id = none;
}

abbrev moved : Updated
moved =
    let rows : List ScheduleBlock =
      block "b1" "u1" 1 eleven noon
      ∷ block "b2" "u1" 1 (49 ∷ 52 ∷ 58 ∷ 48 ∷ 48 ∷ []) (49 ∷ 53 ∷ 58 ∷ 48 ∷ 48 ∷ [])
      ∷ block "b3" "u2" 1 nine noon
      ∷ [] in
    (some (block "b1" "u1" 1 eleven noon), rows)

update_runs : update (db table) "u1" "b1" single to_eleven ≡ ok moved
unfolding update update_single update_series apply_changes assert_valid_range
    validate_goal_ownership check_time_conflict times_overlap time_to_minutes
update_runs = refl

update-IsSound_example : IsSound moved.1
unfolding matches_time
update-IsSound_example =
    update-IsSound (db table) "u1" "b1" single to_eleven moved (refl, refl) table-IsSound (λ e. cc)
      update_runs

update_other_users_example : Memᴰ (block "b3" "u2" 1 nine noon) moved.1
update_other_users_example =
    update_other_users (db table) "u1" "b1" single to_eleven moved (block "b3" "u2" 1 nine noon)
      table-IsSound (Memᴰ.tail (Memᴰ.tail (Memᴰ.head refl))) (λ e. ground (arith, eq_iff "u2" "u1"))
      update_runs

-- Both blocks of the series move to 11:00.
abbrev collided : Updated
collided =
    let rows : List ScheduleBlock =
      block "b1" "u1" 1 eleven noon
      ∷ block "b2" "u1" 1 eleven noon
      ∷ block "b3" "u2" 1 nine noon
      ∷ [] in
    (some (block "b1" "u1" 1 eleven noon), rows)

update_series_runs : update (db table) "u1" "b1" series to_eleven ≡ ok collided
unfolding update update_single update_series apply_changes assert_valid_range
    validate_goal_ownership check_time_conflict times_overlap time_to_minutes
update_series_runs = refl

update_series_overlap_example : ¬ IsSound collided.1
unfolding time_to_minutes
update_series_overlap_example =
    update_series_overlap (db table) "u1" "b1" to_eleven morning morning
      (block "b2" "u1" 1 (49 ∷ 52 ∷ 58 ∷ 48 ∷ 48 ∷ []) (49 ∷ 53 ∷ 58 ∷ 48 ∷ 48 ∷ [])) eleven noon
      collided refl refl (660, 720, refl, refl, omega arith) refl refl (Memᴰ.head refl)
      (Memᴰ.tail (Memᴰ.head refl)) refl refl (λ e. ground (arith, eq_iff "b1" "b2")) refl
      update_series_runs

delete_runs : delete "u1" "b1" (morning ∷ []) ≡ ok []
unfolding delete
delete_runs = refl
