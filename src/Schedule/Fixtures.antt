-- ===== src/Schedule/Fixtures.antt =====
-- Data of the schedule tests: times, a user, and blocks of one series.
use goal_slot_api.Base.{ℕ, refl, true, false, none, some, List, [], ◌∷◌, String, arith}
use goal_slot_api.Db.{Text, ScheduleBlock, User, external, pro, Db}
use goal_slot_api.Schedule.Clock.{time_to_minutes}
use goal_slot_api.Schedule.Rows.{IsSound}
use goal_slot_api.Schedule.Create.{CreateScheduleBlockDto, Fresh, Attempt}

-- "9:00", "10:30", "11:00" and "12:00"
abbrev pub nine : Text
nine = 57 ∷ 58 ∷ 48 ∷ 48 ∷ []

abbrev pub half_past_ten : Text
half_past_ten = 49 ∷ 48 ∷ 58 ∷ 51 ∷ 48 ∷ []

abbrev pub eleven : Text
eleven = 49 ∷ 49 ∷ 58 ∷ 48 ∷ 48 ∷ []

abbrev pub noon : Text
noon = 49 ∷ 50 ∷ 58 ∷ 48 ∷ 48 ∷ []

abbrev pub user : User
user = record {
  id = "u1";
  email = "u1@example.org";
  user_type = external;
  plan = pro;
  unlimited_access = false;
  stripe_subscription_id = none;
  subscription_status = none;
  subscription_end_date = none;
  admin_assigned_plan = none;
  stripe_customer_id = none;
  first_payment_date = none;
  last_payment_date = none;
  invoice_pending = false;
  last_invoice_id = none;
}

abbrev pub db : List ScheduleBlock → Db
db table = record {
  users = user ∷ [];
  goals = [];
  schedule_blocks = table;
  tasks = [];
  time_entries = [];
}

-- A block of a user in the series "s1".
abbrev pub block : String → String → ℕ → Text → Text → ScheduleBlock
block id user_id day start_time end_time = record {
  id = id;
  title = "Deep Work";
  start_time = start_time;
  end_time = end_time;
  day_of_week = day;
  category = some "DEEP_WORK";
  color = "#FFD700";
  is_recurring = true;
  series_id = "s1";
  is_private = false;
  user_id = user_id;
  goal_id = none;
}

abbrev pub dto : ℕ → Text → Text → CreateScheduleBlockDto
dto day start_time end_time = record {
  id = none;
  title = "Deep Work";
  start_time = start_time;
  end_time = end_time;
  day_of_week = day;
  category = "DEEP_WORK";
  color = none;
  is_recurring = none;
  is_private = none;
  goal_id = none;
  series_id = some "s1";
}

abbrev pub fresh : Fresh
fresh = record { id = "b9"; series_id = "s9" }

abbrev pub morning : ScheduleBlock
morning = block "b1" "u1" 1 nine eleven

pub morning-IsSound : IsSound (morning ∷ [])
unfolding time_to_minutes
morning-IsSound = record {
  ids = (tt, tt);
  ranges = ((540, 660, refl, refl, omega arith), tt);
  disjoint = (tt, tt);
}

abbrev pub reads : List ScheduleBlock → Attempt
reads table = record { table = table; aborted = false }

abbrev pub aborts : Attempt
aborts = record { table = []; aborted = true }
