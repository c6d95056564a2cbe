-- ===== src/Schedule/Update/SeriesOverlap.antt =====
-- Where a change of a series makes two of its blocks overlap.
use goal_slot_api.Base.{
  ◌≡◌, ◌≢◌, true, false, none, some, List, String, arith, eq_iff, find, update_where, Memᴰ,
  Memᴰ-update_where, ok,
}
use goal_slot_api.Db.{Text, ScheduleBlock, Db, truthy}
use goal_slot_api.Schedule.Conflict.{times_overlap}
use goal_slot_api.Schedule.Rows.{IsRange, IsSound}
use goal_slot_api.Schedule.Update.{
  series, Changes, apply_changes, in_series, owned_by, Updated, update_series, update_found, update,
}
use goal_slot_api.Schedule.Update.Rewrite.{IsSound-Compatible}

overlap_self : (s e : Text) → IsRange s e → times_overlap s e s e ≡ true
unfolding times_overlap
overlap_self s e range = ground arith

retimed :
    (user_id block_id : String) (c : Changes) (block : ScheduleBlock) (table : List ScheduleBlock)
    (r : Updated) {s : Text}
    → c.start_time ≡ some s
    → update_series user_id block_id c block table ≡ ok r
    → r.1
      ≡ update_where
          (in_series user_id block.series_id)
          (apply_changes (record c { day_of_week = none }))
          table
unfolding update_series
retimed user_id block_id c block table r e h = ground arith

series_of_update :
    (db : Db) (user_id block_id : String) (c : Changes) (block : ScheduleBlock) (r : Updated)
    → truthy (some block.series_id) ≡ true
    → find (owned_by user_id block_id) db.schedule_blocks ≡ some block
    → update db user_id block_id series c ≡ ok r
    → update_series user_id block_id c block db.schedule_blocks ≡ ok r
unfolding update
series_of_update db user_id block_id c block r has found h =
    let h' : update_found db user_id block_id series c (some block) ≡ ok r = rw found at h in
    ground arith

-- When `update` moves a series to one new range of times (minutes in order) and succeeds, and the
-- series has two blocks on one day, then the rows that it leaves overlap: the table is not sound.
pub update_series_overlap :
    (db : Db) (user_id block_id : String) (c : Changes) (block x y : ScheduleBlock) (s e : Text)
    (r : Updated)
    → c.start_time ≡ some s
    → c.end_time ≡ some e
    → IsRange s e
    → find (owned_by user_id block_id) db.schedule_blocks ≡ some block
    → truthy (some block.series_id) ≡ true
    → Memᴰ x db.schedule_blocks
    → Memᴰ y db.schedule_blocks
    → in_series user_id block.series_id x ≡ true
    → in_series user_id block.series_id y ≡ true
    → x.id ≢ y.id
    → x.day_of_week ≡ y.day_of_week
    → update db user_id block_id series c ≡ ok r
    → ¬ IsSound r.1
unfolding apply_changes
update_series_overlap db user_id block_id c block x y s e r cs ce range found has mx my px py ne d h
      sound =
    let c' = record c { day_of_week = none } in
    let p = in_series user_id block.series_id in
    let table = db.schedule_blocks in
    let written : r.1 ≡ update_where p (apply_changes c') table =
      retimed user_id block_id c block table r cs
        (series_of_update db user_id block_id c block r has found h) in
    let after : IsSound (update_where p (apply_changes c') table) = rw written at sound in
    let fx : Memᴰ (apply_changes c' x) (update_where p (apply_changes c') table) =
      rw px at (Memᴰ-update_where p (apply_changes c') table mx) in
    let fy : Memᴰ (apply_changes c' y) (update_where p (apply_changes c') table) =
      rw py at (Memᴰ-update_where p (apply_changes c') table my) in
    let u : x.user_id ≡ y.user_id =
      ground (arith, eq_iff x.user_id user_id, eq_iff y.user_id user_id) in
    let apart : times_overlap s e s e ≡ false =
      rw (cs, ce) at (IsSound-Compatible after fx fy ne u d) in
    ground (arith, overlap_self s e range)
