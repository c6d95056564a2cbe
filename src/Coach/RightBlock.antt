-- ===== src/Coach/RightBlock.antt =====
-- The blocks that an update with an expected title leaves alone.
use mathlib.Core.Bool.{false≢true}
use goal_slot_api.Base.{
  ◌≡◌, sym, ap, ◌∙◌, inl, inr, true, false, not, Option, some, String, arith, eq_iff, find,
  find-some, Memᴰ, Memᴰ-update_where, ok, >>=-eq-ok, ok-injective, throw_if,
}
use goal_slot_api.Db.{Text, ScheduleBlock, Db, truthy}
use goal_slot_api.Schedule.Rows.{IsSound}
use goal_slot_api.Schedule.Update
use goal_slot_api.Schedule.Update.{
  UpdateScope, single, series, Changes, apply_changes, by_id, owned_by,
}
use goal_slot_api.Schedule.Update.Sound.{found-cases}
use goal_slot_api.Schedule.Update.Tenancy.{single_written, other_id}
use goal_slot_api.Coach.Titles.{titles_match, assert_expected_title}
use goal_slot_api.Coach.Blocks.{assert_title, schedule_update, update_schedule_block}
use goal_slot_api.Coach.Target.{update_schedule_block-Written}

-- The title that is checked, of a block that is there.
checked-title :
    (lower : Text → Text) (user_id id title : String) (db : Db) (block : ScheduleBlock)
    → truthy (some title) ≡ true
    → find (owned_by user_id id) db.schedule_blocks ≡ some block
    → assert_title lower user_id id (some title) db ≡ ok tt
    → titles_match lower block.title title ≡ true
unfolding assert_title assert_expected_title
checked-title lower user_id id title db block given f h =
    let h' : throw_if (not (titles_match lower block.title title)) _ ≡ ok tt = rw (given, f) at h in
    ground arith

single≢series : ¬ (single ≡ series)
single≢series e = cc

not_matching :
    (lower : Text → Text) (title : String) (b block : ScheduleBlock)
    → titles_match lower b.title title ≡ false
    → titles_match lower block.title title ≡ true
    → ¬ (b ≡ block)
not_matching lower title b block other same e =
    absurd (
      false≢true
        (sym other ∙ ap (λ (x : ScheduleBlock). titles_match lower x.title title) e ∙ same))

-- An UPDATE_SCHEDULE_BLOCK with an expected title that is not empty and the scope of a single
-- block, on a sound table, leaves every block of another title as it is where it succeeds, also
-- where the id is stale and the block is found by other means. Titles are compared trimmed, in
-- lower case, with single blanks.
pub update_schedule_block-title :
    (lower : Text → Text) (user_id id title : String) (c : Changes) (db : Db)
    (r : Option String × Db) (b : ScheduleBlock)
    → truthy (some title) ≡ true
    → IsSound db.schedule_blocks
    → Memᴰ b db.schedule_blocks
    → titles_match lower b.title title ≡ false
    → update_schedule_block lower user_id id (some title) single c db ≡ ok r
    → Memᴰ b r.1.schedule_blocks
unfolding schedule_update Update.update
update_schedule_block-title lower user_id id title c db r b given sound m other h =
    let (target, _, checked, made) =
      update_schedule_block-Written lower user_id id (some title) single c db r h in
    let table = db.schedule_blocks in
    let (written, updated, same) = >>=-eq-ok (Update.update db user_id target single c) _ made in
    let (block, f, cases) =
      found-cases db user_id target single c (find (owned_by user_id target) table) written
        updated in
    let (mb, q) = find-some (owned_by user_id target) table f in
    let named : block.id ≡ target = ground (arith, eq_iff block.id target) in
    let rows : written.1 ≡ r.1.schedule_blocks =
      ap (λ r. r.1.schedule_blocks) (ok-injective same) in
    elim cases [
      | inl (all, _) ↦ absurd (single≢series all)
      | inr alone ↦
          let e = single_written user_id target c block table written alone in
          let differs =
            not_matching lower title b block other
              (checked-title lower user_id target title db block given f checked) in
          let missed = other_id table target block b sound mb m named differs in
          rw (← rows, e) (rw missed at (Memᴰ-update_where (by_id target) (apply_changes c) table m))
    ]
