-- ===== src/Tracking/ReorderExamples.antt =====
-- A concrete order of tasks.
use goal_slot_api.Base.{◌≡◌, none, [], ◌∷◌, String}
use goal_slot_api.Db.{Task, todo, Db}
use goal_slot_api.Tracking.Tasks.{reorder}
use goal_slot_api.Tracking.Reorder.{reorder-ranked}

abbrev task : String → String → Task
task id user_id = record {
  id = id;
  title = "Draft";
  status = todo;
  actual_minutes = none;
  order = 7;
  completed_at = none;
  user_id = user_id;
  goal_id = none;
  schedule_block_id = none;
}

abbrev db : Db
db = record {
  users = [];
  goals = [];
  schedule_blocks = [];
  tasks = task "t1" "u1" ∷ task "t2" "u1" ∷ task "t3" "u2" ∷ [];
  time_entries = [];
}

reorder-ranked_example :
    (reorder "u1" ("t2" ∷ "t3" ∷ "t1" ∷ []) db).tasks
    ≡ record (task "t1" "u1") { order = 2 }
      ∷ record (task "t2" "u1") { order = 0 }
      ∷ task "t3" "u2"
      ∷ []
reorder-ranked_example = reorder-ranked "u1" ("t2" ∷ "t3" ∷ "t1" ∷ []) db
