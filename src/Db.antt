-- ===== src/Db.antt =====
-- The rows of the tables that the services share (prisma/schema.prisma), and their state. A table
-- is the list of its rows. Dates are milliseconds since 1970. The columns `createdAt`, `updatedAt`
-- and those that no modelled operation reads or writes are left out.
use goal_slot_api.Base.{
  ℕ, String, Bool, true, false, Option, none, some, List, str_eq, if◌then◌else◌,
}

abbrev pub Text : Type 0
Text = List ℕ

pub data UserType : Type 0 where
  internal external : UserType

pub data PlanType : Type 0 where
  free basic pro : PlanType

pub data GoalStatus : Type 0 where
  active completed paused : GoalStatus

pub data TaskStatus : Type 0 where
  backlog todo doing done : TaskStatus

pub data TimeEntrySource : Type 0 where
  completion tracker : TimeEntrySource

-- The columns of `User` that decide the limits of a plan, those of billing, and the email.
pub record User : Type 0 where
  pub id : String
  pub email : String
  pub user_type : UserType
  pub plan : PlanType
  pub unlimited_access : Bool
  pub stripe_subscription_id : Option String
  pub subscription_status : Option String
  pub subscription_end_date : Option ℕ
  pub admin_assigned_plan : Option PlanType
  pub stripe_customer_id : Option String
  pub first_payment_date : Option ℕ
  pub last_payment_date : Option ℕ
  pub invoice_pending : Bool
  pub last_invoice_id : Option String

-- `loggedHours` is a sum of minutes divided by 60: the field holds the minutes. `targetHours` is
-- held in hundredths of an hour.
pub record Goal : Type 0 where
  pub id : String
  pub title : String
  pub category : Option String
  pub target_centihours : ℕ
  pub logged_minutes : ℕ
  pub status : GoalStatus
  pub order : ℕ
  pub user_id : String

pub record ScheduleBlock : Type 0 where
  pub id : String
  pub title : String
  pub start_time : Text
  pub end_time : Text
  pub day_of_week : ℕ
  pub category : Option String
  pub color : String
  pub is_recurring : Bool
  pub series_id : String
  pub is_private : Bool
  pub user_id : String
  pub goal_id : Option String

pub record Task : Type 0 where
  pub id : String
  pub title : String
  pub status : TaskStatus
  pub actual_minutes : Option ℕ
  pub order : ℕ
  pub completed_at : Option ℕ
  pub user_id : String
  pub goal_id : Option String
  pub schedule_block_id : Option String

pub record TimeEntry : Type 0 where
  pub id : String
  pub task_name : String
  pub task_title : Option String
  pub duration : ℕ
  pub date : ℕ
  pub started_at : Option ℕ
  pub day_of_week : ℕ
  pub notes : Option String
  pub user_id : String
  pub goal_id : Option String
  pub schedule_block_id : Option String
  pub task_id : Option String
  pub source : TimeEntrySource

pub record Db : Type 0 where
  pub users : List User
  pub goals : List Goal
  pub schedule_blocks : List ScheduleBlock
  pub tasks : List Task
  pub time_entries : List TimeEntry

-- `if (text)` and `!!text`: the empty text counts as absent.
abbrev pub truthy : Option String → Bool
truthy none = false
truthy (some s) = if str_eq s "" then false else true

-- `column = value` for a column that may be null.
abbrev pub column_eq : Option String → String → Bool
column_eq none s = false
column_eq (some t) s = str_eq t s

abbrev pub user_by_id : String → User → Bool
user_by_id id u = str_eq u.id id
