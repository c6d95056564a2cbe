-- ===== src/Coach/Fixtures.antt =====
-- Data of the tests of proposals: a user with a goal and a block, and dtos that read their fields.
use goal_slot_api.Base.{
  Option, none, some, [], ◌∷◌, String, length, ◌==◌, if◌then◌else◌, error, Result, ok, err,
}
use goal_slot_api.Db.{Goal, active, Db}
use goal_slot_api.Tracking.Goals.{CreateGoalDto}
use goal_slot_api.Schedule.Create.{CreateScheduleBlockDto, Fresh}
use goal_slot_api.Schedule.Update.{single, Changes}
use goal_slot_api.Schedule.Fixtures.{eleven, noon, dto, fresh, morning, db}
use goal_slot_api.Coach.Payload.{Json, number, string, Fields, CoachActionType, CoachProposedAction}
use goal_slot_api.Coach.Dispatch.{PayloadDtos, World, Services, field_of}

abbrev pub goal : String → Goal
goal id = record {
  id = id;
  title = "Read";
  category = none;
  target_centihours = 1000;
  logged_minutes = 0;
  status = active;
  order = 0;
  user_id = "u1";
}

-- A block from eleven to noon, on the day that the payload gives.
abbrev pub block_on : Option Json → Result CreateScheduleBlockDto
block_on (some (number (some d))) = ok (record (dto d eleven noon) { series_id = none })
block_on _ = err (error "dayOfWeek must be a number")

abbrev goal_titled : Option Json → Result CreateGoalDto
goal_titled (some (string title)) =
    ok (record { id = none; title = title; category = "LEARNING"; target_centihours = 500 })
goal_titled _ = err (error "title must be a string")

abbrev pub to_wednesday : Changes
to_wednesday = record {
  title = none;
  start_time = none;
  end_time = none;
  day_of_week = some 3;
  category = none;
  color = none;
  is_recurring = none;
  is_private = none;
  goal_id = none;
}

abbrev refused {ℓ} : {Dto : Type ℓ} → Fields → Result Dto
refused p = err (error "refused")

abbrev pub dtos : PayloadDtos
dtos = record {
  create_goal_dto = λ p. goal_titled (field_of "title" p);
  update_goal_dto = refused;
  create_block_dto = λ p. block_on (field_of "dayOfWeek" p);
  update_block_dto = λ p. ok (single, to_wednesday);
  create_entry_dto = refused;
  update_entry_dto = refused;
  create_task_dto = refused;
  update_task_dto = refused;
}

-- Another key for each size of the table.
abbrev made_up : Db → Fresh
made_up db =
    if length db.schedule_blocks == 1 then fresh else record { id = "b8"; series_id = "s8" }

abbrev pub services : Services (Unit {0})
services = record {
  lower = λ t. t;
  zone = record { day_start = λ i. i; day_end = λ i. i; day_of_week = λ i. 1 };
  now = 0;
  made_up = made_up;
  dtos = dtos;
  others = λ type user_id p w. (ok none, w);
}

-- The block `morning` and two goals.
abbrev pub world : World (Unit {0})
world = record { db = record (db (morning ∷ [])) { goals = goal "g1" ∷ goal "g2" ∷ [] }; rest = tt }

abbrev pub action : CoachActionType → Option String → Option Fields → CoachProposedAction
action type id payload = record { type = type; id = id; payload = payload; expected_title = none }
