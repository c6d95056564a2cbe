-- ===== src/Coach/SoundSchedule.antt =====
-- The table of schedule blocks under a batch of proposals.
use goal_slot_api.Base.{
  ◌≡◌, refl, subst, true, inl, inr, Option, none, some, List, [], ◌∷◌, String, str_eq, All, ok,
  >>=-eq-ok, ok-injective, Bool-cases,
}
use goal_slot_api.Schedule.Rows.{IsSound}
use goal_slot_api.Schedule.Create.{CreateScheduleBlockDto}
use goal_slot_api.Schedule.Create.Sound.{IsValidDto}
use goal_slot_api.Schedule.Update.{UpdateScope, single, Changes}
use goal_slot_api.Schedule.Update.Row.{IsValidChanges}
use goal_slot_api.Coach.Payload.{
  Json, Fields, no_fields, field, CoachActionType, update_schedule_block, CoachProposedAction,
}
use goal_slot_api.Coach.Refs.{Results, resolve_refs, resolve_fields}
use goal_slot_api.Coach.Safety.{Settings, is_destructive}
use goal_slot_api.Coach.Dispatch.{PayloadDtos, World, Services, field_of}
use goal_slot_api.Coach.Apply.{resolve_payload, apply}
use goal_slot_api.Coach.Operations.{OperationsKeep}
use goal_slot_api.Coach.Keeps.{apply-keeps}
use goal_slot_api.Coach.Frame.{
  entry_create-keeps, entry_update-keeps, entry_delete-keeps, task_create-keeps, task_update-keeps,
  task_delete-keeps,
}
use goal_slot_api.Coach.BlockRows.{
  BlocksSound, framed, goal_create-blocks, goal_update-blocks, created_block-IsSound,
  updated_block-IsSound, deleted_block-IsSound, deleted_goal-IsSound,
}

-- What the dtos of schedule.dto.ts accept: times in their pattern, and an update that names no
-- scope, which has that of a single block.
pub record AcceptsBlocks (dtos : PayloadDtos) : Type 0 where
  pub create_times :
      (p : Fields) (dto : CreateScheduleBlockDto)
      → dtos.create_block_dto p ≡ ok dto
      → IsValidDto dto
  pub update_times :
      (p : Fields) (scope : UpdateScope) (c : Changes)
      → dtos.update_block_dto p ≡ ok (scope, c)
      → IsValidChanges c
  pub default_scope :
      (p : Fields) (scope : UpdateScope) (c : Changes)
      → field_of "updateScope" p ≡ none
      → dtos.update_block_dto p ≡ ok (scope, c)
      → scope ≡ single

abbrev scope_field : Option Fields → Option Json
scope_field none = none
scope_field (some payload) = field_of "updateScope" payload

-- An update of a block that names no scope.
abbrev pub IsSingle : CoachProposedAction → Type 0
IsSingle a = a.type ≡ update_schedule_block → scope_field a.payload ≡ none

-- The references of a payload are in its values.
resolve_fields-absent :
    (key : String) (results : Results) (fs fs' : Fields)
    → field_of key fs ≡ none
    → resolve_fields results fs ≡ ok fs'
    → field_of key fs' ≡ none
unfolding field_of resolve_fields
resolve_fields-absent key results no_fields fs' h e =
    subst (λ fs. field_of key fs ≡ none) (ok-injective e) refl
resolve_fields-absent key results (field k v fs) fs' h e =
    let (v', first, later) = >>=-eq-ok (resolve_refs results v) _ e in
    let (rest, resolved, last) = >>=-eq-ok (resolve_fields results fs) _ later in
    elim (Bool-cases (str_eq k key)) [
      | inl hit ↦ let h' : some v ≡ none = rw hit at h in cc
      | inr miss ↦
          let absent = resolve_fields-absent key results fs rest (rw miss at h) resolved in
          subst (λ fs. field_of key fs ≡ none) (ok-injective last) (rw miss absent)
    ]

resolve_payload-absent :
    (results : Results) (payload : Option Fields) (p : Fields)
    → scope_field payload ≡ none
    → resolve_payload results payload ≡ ok p
    → field_of "updateScope" p ≡ none
unfolding resolve_payload field_of
resolve_payload-absent results none p h e =
    subst (λ fs. field_of "updateScope" fs ≡ none) (ok-injective e) refl
resolve_payload-absent results (some payload) p h e =
    resolve_fields-absent "updateScope" results payload p h e

-- Whatever a batch of proposals answers, it leaves a sound table of schedule blocks sound (different
-- keys, ranges in order, no two rows of a user on a day overlap), where its updates of blocks name
-- no scope (such an update is one of a single block), the dtos accept only times of their pattern,
-- and the services of the other actions keep the table sound.
pub apply-IsSound :
    {Rest : Type 0} (s : Services Rest) (user_id : String) (settings : Settings)
    (actions : List CoachProposedAction) (confirmed : Option (List String)) (w : World Rest)
    → AcceptsBlocks s.dtos
    → All IsSingle actions
    → ((type : CoachActionType) (p : Fields) (w : World Rest)
        → IsSound w.db.schedule_blocks
        → IsSound (s.others type user_id p w).1.db.schedule_blocks)
    → IsSound w.db.schedule_blocks
    → IsSound (apply s user_id settings actions confirmed w).1.db.schedule_blocks
apply-IsSound {Rest} s user_id settings actions confirmed w accepts each others h =
    apply-keeps s user_id ops settings actions confirmed w (λ safe. everything actions each) h
  where
    ops :
        OperationsKeep BlocksSound IsValidDto
          (λ scope c. IsValidChanges c × (scope ≡ single))
          (λ type id. Unit {0})
          (λ p. field_of "updateScope" p ≡ none)
          s
          user_id
    ops = record {
      goal_create =
          λ fresh_id dto db db' h e. rw (goal_create-blocks s.now fresh_id user_id dto db db' e) h;
      goal_update = λ id dto db db' h e. rw (goal_update-blocks user_id id dto db db' e) h;
      goal_delete = λ id db db' allowed h e. deleted_goal-IsSound user_id id db db' h e;
      entry_create = λ fresh_id. entry_create-keeps framed s.zone s.now fresh_id user_id;
      entry_update = λ id. entry_update-keeps framed s.zone user_id id;
      entry_delete = λ id db db' allowed h e. entry_delete-keeps framed user_id id db db' h e;
      task_create = λ fresh_id. task_create-keeps framed fresh_id user_id;
      task_update = λ id. task_update-keeps framed user_id id;
      task_delete = λ id db db' allowed h e. task_delete-keeps framed user_id id db db' h e;
      block_create =
          λ dto db id db' v h e. created_block-IsSound s.now s.made_up user_id dto db id db' v h e;
      block_update = λ id expected_title scope c db id' db' v h e.
          updated_block-IsSound s.lower user_id id expected_title scope c db id' db' v.0 v.1 h e;
      block_delete = λ id db db' allowed h e. deleted_block-IsSound user_id id db db' h e;
      valid = accepts.create_times;
      valid_in_series = λ series_id d dto v. v;
      valid_update = λ p scope c fine e.
          (accepts.update_times p scope c e, accepts.default_scope p scope c fine e);
      others = others;
    }

    everything :
        (actions : List CoachProposedAction)
        → All IsSingle actions
        → All
            (λ (a : CoachProposedAction).
              ((id : String) → a.id ≡ some id → is_destructive a.type ≡ true → Unit {0})
              × ((results : Results) (p : Fields)
                  → a.type ≡ update_schedule_block
                  → resolve_payload results a.payload ≡ ok p
                  → field_of "updateScope" p ≡ none))
            actions
    everything [] each = tt
    everything (a ∷ rest) each = (
      (
        λ id named destructive. tt,
        λ results p type e. resolve_payload-absent results a.payload p (each.0 type) e,
      ),
      everything rest each.1,
    )
