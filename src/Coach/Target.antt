-- ===== src/Coach/Target.antt =====
-- The block that an UPDATE_SCHEDULE_BLOCK writes, and what identifies it.
use goal_slot_api.Base.{◌≡◌, refl, ◌∙◌, Option, String, not_found, Result, ok, err, >>-eq-ok}
use goal_slot_api.Db.{Text, Db}
use goal_slot_api.Schedule.Update.{UpdateScope, Changes}
use goal_slot_api.Coach.Titles.{
  Resolution, resolved, ambiguous, no_match, resolve_stale_schedule_block,
}
use goal_slot_api.Coach.Blocks.{
  assert_title, schedule_update, recover, update_resolved, update_schedule_block,
}

module _ (lower : Text → Text) (user_id : String) (id : String) (expected_title : Option String)
    (scope : UpdateScope) (c : Changes) (db : Db) where
  -- The block of the action, or the one that a stale id is resolved to.
  pub data IsTarget : String → Type 0 where
    named : IsTarget id
    recovered :
        (target : String)
        → resolve_stale_schedule_block lower user_id c expected_title db.schedule_blocks
          ≡ resolved target
        → IsTarget target

  -- What a successful update says of the block that it wrote.
  abbrev pub Written : Option String × Db → Type 0
  Written r =
      (target : String) × IsTarget target
      × (assert_title lower user_id target expected_title db ≡ ok tt)
      × (schedule_update user_id target scope c db ≡ ok r)

  resolved-Written :
      (resolution : Resolution) (r : Option String × Db)
      → resolve_stale_schedule_block lower user_id c expected_title db.schedule_blocks ≡ resolution
      → update_resolved lower user_id expected_title scope c db resolution ≡ ok r
      → Written r
  resolved-Written (resolved target) r found h =
      let (checked, written) =
        >>-eq-ok (assert_title lower user_id target expected_title db)
          (schedule_update user_id target scope c db) h in
      (target, recovered target found, checked, written)
  resolved-Written ambiguous r found h = cc
  resolved-Written no_match r found h = cc

  first-Written :
      (first : Result (Option String × Db)) (r : Option String × Db)
      → assert_title lower user_id id expected_title db ≡ ok tt
      → schedule_update user_id id scope c db ≡ first
      → recover lower user_id expected_title scope c db first ≡ ok r
      → Written r
  first-Written (ok r') r checked first h = (id, named, checked, first ∙ h)
  first-Written (err (not_found m)) r checked first h =
      resolved-Written
        (resolve_stale_schedule_block lower user_id c expected_title db.schedule_blocks) r refl h
  first-Written (err _) r checked first h = cc

  pub update_schedule_block-Written :
      (r : Option String × Db)
      → update_schedule_block lower user_id id expected_title scope c db ≡ ok r
      → Written r
  unfolding update_schedule_block
  update_schedule_block-Written r h =
      let first = schedule_update user_id id scope c db in
      let (checked, rest) =
        >>-eq-ok (assert_title lower user_id id expected_title db)
          (recover lower user_id expected_title scope c db first) h in
      first-Written first r checked refl rest
