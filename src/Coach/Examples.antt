-- ===== src/Coach/Examples.antt =====
-- Concrete batches of proposals.
use goal_slot_api.Base.{
  ◌≡◌, refl, sym, ap, subst, map, ok-injective, true, false, ◌⊎◌, ◌≤◌, Option, none, some, List, [],
  ◌∷◌, ◌++◌, String, ok, err, any, str_eq, length, Exception,
}
use goal_slot_api.Plan.{resolve_plan_limits, check_plan_limit_for_user, check_plan_limit}
use goal_slot_api.Schedule.Clock.{matches_time}
use goal_slot_api.Schedule.Rows.{IsSound}
use goal_slot_api.Schedule.Fixtures.{morning-IsSound}
use goal_slot_api.Schedule.Create.{CreateScheduleBlockDto}
use goal_slot_api.Schedule.Create.Sound.{IsValidDto}
use goal_slot_api.Schedule.Update.Row.{IsValidChanges}
use goal_slot_api.Tracking.Goals
use goal_slot_api.Notes.Text.{trim_start, trim_end}
use goal_slot_api.Coach.Payload.{
  Json, number, string, array, no_items, item, Fields, no_fields, field, CoachProposedAction,
  create_goal, delete_goal, create_schedule_block, update_schedule_block,
}
use goal_slot_api.Coach.Safety.{
  default_settings, enter, assert_payload_shape, assert_payload_shapes, assert_proposal_batch_safe,
}
use goal_slot_api.Coach.Refs.{Results, ref_index, resolve_refs}
use goal_slot_api.Coach.Dispatch.{
  World, validate_payload, has_forbidden_key, field_of, distinct_days, requested_days, keyed,
  dispatch,
}
use goal_slot_api.Coach.Apply.{resolve_payload, apply_from, apply}
use goal_slot_api.Coach.SoundSchedule.{AcceptsBlocks, apply-IsSound}
use goal_slot_api.Coach.GoalRows.{has_goal}
use goal_slot_api.Coach.Survive.{apply-few_goals, apply-confirmed}
use goal_slot_api.Coach.Answers.{index_and_type, numbered, apply-outcome}
use goal_slot_api.Coach.Fixtures.{goal, block_on, dtos, services, world, action}

-- `{ daysOfWeek: [2, 1, 2] }`
abbrev week : Fields
week =
    field "daysOfWeek"
      (array (item (number (some 2)) (item (number (some 1)) (item (number (some 2)) no_items))))
      no_fields

abbrev batch : List CoachProposedAction
batch =
    action create_schedule_block none (some week)
    ∷ action update_schedule_block (some "b1") (some no_fields)
    ∷ action delete_goal (some "g1") none
    ∷ []

-- A goal, a block that refers to a result that is not there, and a deletion.
abbrev aborted : List CoachProposedAction
aborted =
    action create_goal none (some (field "title" (string "Write") no_fields))
    ∷ action create_schedule_block none (some (field "goalId" (string "$ref:5") no_fields))
    ∷ action delete_goal (some "g2") none
    ∷ []

ref_reads : ref_index "$ref:12" ≡ some 12
unfolding ref_index
ref_reads = refl

days_read : requested_days (field_of "daysOfWeek" week) ≡ 2 ∷ 1 ∷ []
unfolding requested_days distinct_days field_of
days_read = refl

batch_is_safe : assert_proposal_batch_safe default_settings batch none ≡ ok tt
unfolding assert_proposal_batch_safe assert_payload_shapes assert_payload_shape enter
batch_is_safe = refl

aborted_is_safe : assert_proposal_batch_safe default_settings aborted none ≡ ok tt
unfolding assert_proposal_batch_safe assert_payload_shapes assert_payload_shape enter
aborted_is_safe = refl

-- The goal is written, the block is not, and the goal "g2" is not deleted.
aborted_runs :
    (apply services "u1" default_settings aborted none world).1.db.goals
    ≡ goal "g1"
      ∷ goal "g2"
      ∷ record (goal "b9") { title = "Write"; category = some "LEARNING"; target_centihours = 500 }
      ∷ []
unfolding apply assert_proposal_batch_safe assert_payload_shapes assert_payload_shape enter
    resolve_payload resolve_refs dispatch validate_payload has_forbidden_key field_of keyed
    Goals.create Goals.new_goal check_plan_limit check_plan_limit_for_user resolve_plan_limits
    apply_from trim_end trim_start
aborted_runs = refl

dtos-AcceptsBlocks : AcceptsBlocks dtos
unfolding matches_time
dtos-AcceptsBlocks = record {
  create_times = λ p d e. of_day (field_of "dayOfWeek" p) d e;
  default_scope = λ p scope c absent e. sym (ap (λ x. x.0) (ok-injective e));
  update_times = λ p scope c e. subst IsValidChanges (ap (λ x. x.1) (ok-injective e)) (tt, tt);
}
  where
    of_day : (day : Option Json) (d : CreateScheduleBlockDto) → block_on day ≡ ok d → IsValidDto d
    of_day (some (number (some n))) d e = subst IsValidDto (ok-injective e) (refl, refl)
    of_day _ d e = cc

apply-IsSound_example :
    IsSound (apply services "u1" default_settings batch none world).1.db.schedule_blocks
unfolding field_of
apply-IsSound_example =
    apply-IsSound services "u1" default_settings batch none world dtos-AcceptsBlocks
      ((λ type. cc), ((λ type. refl), ((λ type. cc), tt))) (λ type p w h. h) morning-IsSound

apply-few_goals_example :
    (gone : List String) × (length gone ≤ 3)
    × ((id : String)
        → any (str_eq id) gone ≡ false
        → has_goal id world.db ≡ true
        → has_goal id (apply services "u1" default_settings batch none world).1.db ≡ true)
apply-few_goals_example =
    apply-few_goals services "u1" (λ id type p w h. h) default_settings batch none world

apply-confirmed_example :
    has_goal "g2" (apply services "u1" default_settings batch (some ("g1" ∷ [])) world).1.db ≡ true
apply-confirmed_example =
    apply-confirmed services "u1" (λ id type p w h. h) default_settings batch (some ("g1" ∷ []))
      world "g2" refl refl refl

apply-outcome_example :
    ((results : Results) × (w' : World (Unit {0})) × (apply services "u1" default_settings aborted
          none world
        ≡ (ok results, w'))
      × (map index_and_type results ≡ numbered 0 aborted))
    ⊎ ((done : List CoachProposedAction) × (a : CoachProposedAction) × (rest : List
          CoachProposedAction)
        × (results : Results) × (w' : World (Unit {0})) × (thrown : Exception) × (aborted
            ≡ done ++ a ∷ rest)
        × (apply_from services "u1" 0 done [] world ≡ (ok results, w'))
        × (resolve_payload results a.payload ≡ err thrown)
        × (apply services "u1" default_settings aborted none world ≡ (err thrown, w')))
apply-outcome_example =
    apply-outcome services "u1" default_settings aborted none world aborted_is_safe
