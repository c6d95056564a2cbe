-- ===== src/Coach/Payload.antt =====
-- The actions that the Coach proposes: src/modules/coach-proposals/dto/apply-proposals.dto.ts. A
-- payload is JSON.
use goal_slot_api.Base.{ℕ, Bool, Option, String}

-- `number none` is a number below 0 or with a fraction.
mutual
  pub data Json : Type 0 where
    null : Json
    boolean : Bool → Json
    number : Option ℕ → Json
    string : String → Json
    array : Items → Json
    object : Fields → Json

  pub data Items : Type 0 where
    no_items : Items
    item : Json → Items → Items

  pub data Fields : Type 0 where
    no_fields : Fields
    field : String → Json → Fields → Fields

pub data CoachActionType : Type 0 where
  rename_goal update_goal create_goal delete_goal : CoachActionType
  create_schedule_block update_schedule_block delete_schedule_block : CoachActionType
  create_time_entry update_time_entry delete_time_entry : CoachActionType
  create_task update_task delete_task : CoachActionType
  create_practice start_timer stop_timer append_journal_entry append_note_content : CoachActionType

pub record CoachProposedAction : Type 0 where
  pub type : CoachActionType
  pub id : Option String
  pub payload : Option Fields
  pub expected_title : Option String

-- `ok` and `error` are one outcome: the id of the result, if it has one, or what was thrown.
pub record CoachActionResult (Outcome : Type 0) : Type 0 where
  pub index : ℕ
  pub type : CoachActionType
  pub outcome : Outcome
