-- ===== src/Schedule/Update/Tenancy.antt =====
-- `update`, `delete` and `clearAll` of schedule.service.ts write no row of another user.
use goal_slot_api.Base.{
  ◌≡◌, ◌≢◌, sym, ap, ◌∙◌, false, inl, inr, none, List, String, arith, eq_iff, find, update_where,
  delete_where, Memᴰ, find-some, Memᴰ-update_where, Memᴰ-delete_where, Bool-cases, Option-cases, ok,
}
use goal_slot_api.Db.{ScheduleBlock, Db}
use goal_slot_api.Schedule.Rows.{IsSound}
use goal_slot_api.Schedule.Update.{
  UpdateScope, Changes, apply_changes, in_series, by_id, owned_by, Updated, update_single, update,
  delete,
}
use goal_slot_api.Schedule.Update.Rewrite.{same_id}
use goal_slot_api.Schedule.Update.Sound.{found-cases, series-cases}

-- The key of a user's row names no row of another user.
not_by_id :
    (table : List ScheduleBlock) (user_id : String) (block y : ScheduleBlock)
    → IsSound table
    → Memᴰ block table
    → Memᴰ y table
    → block.user_id ≡ user_id
    → y.user_id ≢ user_id
    → by_id block.id y ≡ false
not_by_id table user_id block y sound mb my owner ne = elim (Bool-cases (by_id block.id y)) [
  | inl same ↦
      let e = same_id table sound.ids mb my (sym ((eq_iff y.id block.id).0 same)) in
      absurd (ne (ap (λ (b : ScheduleBlock). b.user_id) (sym e) ∙ owner))
  | inr other ↦ other
]

pub single_written :
    (user_id block_id : String) (c : Changes) (block : ScheduleBlock) (table : List ScheduleBlock)
    (r : Updated)
    → update_single user_id block_id c block table ≡ ok r
    → r.1 ≡ update_where (by_id block_id) (apply_changes c) table
unfolding update_single
single_written user_id block_id c block table r h = ground arith

-- A successful `update` on a sound table leaves every row of another user as it is.
pub update_other_users :
    (db : Db) (user_id block_id : String) (scope : UpdateScope) (c : Changes) (r : Updated)
    (y : ScheduleBlock)
    → IsSound db.schedule_blocks
    → Memᴰ y db.schedule_blocks
    → y.user_id ≢ user_id
    → update db user_id block_id scope c ≡ ok r
    → Memᴰ y r.1
unfolding update
update_other_users db user_id block_id scope c r y sound my ne h =
    let table = db.schedule_blocks in
    let (block, f, made) =
      found-cases db user_id block_id scope c (find (owned_by user_id block_id) table) r h in
    let (m, q) = find-some (owned_by user_id block_id) table f in
    let id : block.id ≡ block_id = ground (arith, eq_iff block.id block_id) in
    let owner : block.user_id ≡ user_id = ground (arith, eq_iff block.user_id user_id) in
    elim made [
      | inl (all, written) ↦ elim (series-cases user_id c table block_id block r written) [
        | inl same ↦ rw same my
        | inr (rewritten, _) ↦
            let other : in_series user_id block.series_id y ≡ false =
              ground (arith, eq_iff y.user_id user_id) in
            rw rewritten (
              rw other at (
                Memᴰ-update_where (in_series user_id block.series_id)
                  (apply_changes (record c { day_of_week = none })) table my))
      ]
      | inr written ↦
          let other = not_by_id table user_id block y sound m my owner ne in
          let rewritten : r.1 ≡ update_where (by_id block.id) (apply_changes c) table =
            single_written user_id block.id c block table r (rw (← id) at written) in
          rw rewritten (rw other at (Memᴰ-update_where (by_id block.id) (apply_changes c) table my))
    ]

pub other_id :
    (table : List ScheduleBlock) (block_id : String) (block y : ScheduleBlock)
    → IsSound table
    → Memᴰ block table
    → Memᴰ y table
    → block.id ≡ block_id
    → y ≢ block
    → by_id block_id y ≡ false
other_id table block_id block y sound m my id ne = elim (Bool-cases (by_id block_id y)) [
  | inl same ↦
      absurd (ne (sym (same_id table sound.ids m my (id ∙ sym ((eq_iff y.id block_id).0 same)))))
  | inr other ↦ other
]

-- A successful `delete` on a sound table removes the row, which the user owns, and no other row.
delete-only :
    (user_id block_id : String) (table rest : List ScheduleBlock)
    → IsSound table
    → delete user_id block_id table ≡ ok rest
    → (block : ScheduleBlock) × Memᴰ block table
      × (block.id ≡ block_id)
      × (block.user_id ≡ user_id)
      × (rest ≡ delete_where (by_id block_id) table)
      × ((y : ScheduleBlock) → Memᴰ y table → y ≢ block → Memᴰ y rest)
unfolding delete
delete-only user_id block_id table rest sound h =
    elim (Option-cases (find (owned_by user_id block_id) table)) [
      | inl missing ↦ absurd (ground arith)
      | inr (block, f) ↦
          let (m, q) = find-some (owned_by user_id block_id) table f in
          let id : block.id ≡ block_id = ground (arith, eq_iff block.id block_id) in
          let e : rest ≡ delete_where (by_id block_id) table = ground arith in
          (
            block,
            m,
            id,
            ground (arith, eq_iff block.user_id user_id),
            e,
            λ y my ne. rw e (
                Memᴰ-delete_where (by_id block_id) table my
                  (other_id table block_id block y sound m my id ne)),
          )
    ]
