-- ===== src/Coach/BlockExamples.antt =====
-- Concrete proposals for schedule blocks.
use goal_slot_api.Base.{◌≡◌, refl, Option, some, List, [], ◌∷◌, String, arith, ok, Memᴰ, eq_iff}
use goal_slot_api.Db.{Db, ScheduleBlock}
use goal_slot_api.Plan.{resolve_plan_limits, check_plan_limit_for_user, check_plan_limit}
use goal_slot_api.Schedule.Clock.{time_to_minutes}
use goal_slot_api.Schedule.Conflict.{
  assert_valid_range, validate_goal_ownership, times_overlap, check_time_conflict,
}
use goal_slot_api.Schedule.Rows.{IsSound}
use goal_slot_api.Schedule.Create.{
  insert_block, new_block, create_in_transaction, create_checks, with_conflict_guard, run_attempt,
  create_with_conflict_guard, create,
}
use goal_slot_api.Schedule.Update
use goal_slot_api.Schedule.Update.{Changes, single, update_single, apply_changes}
use goal_slot_api.Schedule.Fixtures.{morning, eleven, noon, block, dto, db}
use goal_slot_api.Notes.Text.{trim_start, trim_end}
use goal_slot_api.Coach.Titles
use goal_slot_api.Coach.Blocks
use goal_slot_api.Coach.RightBlock.{update_schedule_block-title}
use goal_slot_api.Coach.Fixtures.{to_wednesday, services}

-- A block of another title on the same day.
abbrev lunch : ScheduleBlock
lunch = record (block "b2" "u1" 3 eleven noon) { title = "Lunch" }

abbrev table : List ScheduleBlock
table = morning ∷ lunch ∷ []

table-IsSound : IsSound table
unfolding time_to_minutes times_overlap
table-IsSound = record {
  ids = (((λ e. ground (arith, eq_iff "b1" "b2")), tt), (tt, tt));
  ranges = ((540, 660, refl, refl, omega arith), ((660, 720, refl, refl, omega arith), tt));
  disjoint = (((λ user day. cc), tt), (tt, tt));
}

-- The id "b7" is stale, and the title finds "b1".
abbrev retitled : Option String × Db
retitled = (some "b1", db (record morning { day_of_week = 4 } ∷ lunch ∷ []))

abbrev to_thursday : Changes
to_thursday = record to_wednesday { day_of_week = some 4 }

update_runs :
    Blocks.update_schedule_block services.lower "u1" "b7"
      (some " Deep  Work ")
      single
      to_thursday
      (db table)
    ≡ ok retitled
unfolding Blocks.update_schedule_block Blocks.assert_title Blocks.schedule_update
    Titles.assert_expected_title Titles.titles_match Titles.normalize_title
    Titles.resolve_stale_schedule_block Titles.first_tier Titles.tiers Update.update update_single
    apply_changes validate_goal_ownership check_time_conflict times_overlap time_to_minutes
    trim_start trim_end Titles.collapse
update_runs = refl

update_schedule_block-title_example : Memᴰ lunch retitled.1.schedule_blocks
unfolding Titles.titles_match Titles.normalize_title Titles.collapse trim_start trim_end
update_schedule_block-title_example =
    update_schedule_block-title services.lower "u1" "b7" " Deep  Work " to_thursday (db table)
      retitled lunch refl table-IsSound (Memᴰ.tail (Memᴰ.head refl)) refl update_runs

-- A proposed block from eleven to noon.
abbrev with_noon : Db
with_noon = db (morning ∷ block "b9" "u1" 1 eleven noon ∷ [])

create_runs :
    Blocks.create_block_idempotent 0 services.made_up "u1" (dto 1 eleven noon) (db (morning ∷ []))
    ≡ ok (some "b9", with_noon)
unfolding Blocks.create_block_idempotent Blocks.schedule_create create create_checks
    create_with_conflict_guard with_conflict_guard run_attempt create_in_transaction insert_block
    new_block assert_valid_range time_to_minutes validate_goal_ownership check_plan_limit
    check_plan_limit_for_user resolve_plan_limits check_time_conflict times_overlap
create_runs = refl
