-- ===== src/Schedule/Update/Sound.antt =====
-- What a successful `update` leaves in the table, and where a change of a series leaves overlaps.
use goal_slot_api.Base.{
  ◌≡◌, ◌≢◌, refl, sym, subst, true, false, ◌⊎◌, inl, inr, Option, none, some, List, [], ◌∷◌, String,
  arith, eq_iff, find, filter, update_where, or_else, All, All-at, All-map, Pairs, Pairs-at, Memᴰ,
  find-some, All-Memᴰ, All-of-filter, Bool-cases, ok,
}
use goal_slot_api.Db.{ScheduleBlock, Db}
use goal_slot_api.Schedule.Conflict.{assert_valid_range, check_time_conflict}
use goal_slot_api.Schedule.Rows.{HasRange, HasOtherId, IsSound}
use goal_slot_api.Schedule.Update.{
  UpdateScope, series, Changes, apply_changes, touches_time, in_series, check_series, by_id,
  owned_by, Updated, update_series, update_single, update_found, update,
}
use goal_slot_api.Schedule.Update.Rewrite.{IsSound-Compatible, same_id, Fits, update_where-IsSound}
use goal_slot_api.Schedule.Update.Row.{
  IsValidChanges, apply_changes-HasRange, apply_changes-Compatible,
}

-- Two rows of one series of a user stand on different days.
abbrev pub OnOtherDay : ScheduleBlock → ScheduleBlock → Type 0
OnOtherDay a b = a.user_id ≡ b.user_id → a.series_id ≡ b.series_id → a.day_of_week ≢ b.day_of_week

id-apply_changes : (c : Changes) (b : ScheduleBlock) → (apply_changes c b).id ≡ b.id
unfolding apply_changes
id-apply_changes c b = refl

-- What the loop over a series checks of a member.
abbrev Checked : String → Changes → List ScheduleBlock → ScheduleBlock → Type 0
Checked user_id c table b =
    (assert_valid_range (or_else c.start_time b.start_time) (or_else c.end_time b.end_time) ≡ ok tt)
    × (check_time_conflict user_id b.day_of_week (or_else c.start_time b.start_time)
          (or_else c.end_time b.end_time) (some b.id) table
        ≡ false)

check_series-All :
    (user_id : String) (c : Changes) (table members : List ScheduleBlock)
    → check_series user_id c table members ≡ ok tt
    → All (Checked user_id c table) members
unfolding check_series
check_series-All user_id c table [] h = tt
check_series-All user_id c table (b ∷ bs) h =
    ((ground arith, ground arith), check_series-All user_id c table bs (ground arith))

pub series-cases :
    (user_id : String) (c : Changes) (table : List ScheduleBlock) (block_id : String)
    (block : ScheduleBlock) (r : Updated)
    → update_series user_id block_id c block table ≡ ok r
    → (r.1 ≡ table)
      ⊎ ((r.1
            ≡ update_where
                (in_series user_id block.series_id)
                (apply_changes (record c { day_of_week = none }))
                table)
          × (touches_time c ≡ true
              → check_series user_id
                  (record c { day_of_week = none })
                  table
                  (filter (in_series user_id block.series_id) table)
                ≡ ok tt))
unfolding update_series
series-cases user_id c table block_id block r h = ground arith

OnOtherDay-sym : (a b : ScheduleBlock) → OnOtherDay a b → OnOtherDay b a
OnOtherDay-sym a b h u s d = h (sym u) (sym s) (sym d)

module _ (user_id : String) (c : Changes) (table : List ScheduleBlock) (valid : IsValidChanges c)
    (sound : IsSound table) where
  module _ (block : ScheduleBlock) (m : Memᴰ block table) (owner : block.user_id ≡ user_id) where
    single-Fits :
        (r : Updated)
        → update_single user_id block.id c block table ≡ ok r
        → Fits (by_id block.id) (apply_changes c) table block
    unfolding update_single
    single-Fits r h px = (
      apply_changes-HasRange c valid block (All-at HasRange table sound.ranges m)
          (λ touched. ground arith),
      λ y my ne.
          let other : by_id block.id y ≡ false = ground (arith, eq_iff y.id block.id) in
          rw other (
            apply_changes-Compatible c valid block user_id table owner (λ moved. ground arith) y my
              ne (IsSound-Compatible sound m my (λ e. ne (sym e)))),
    )

    update_single-IsSound :
        (r : Updated) → update_single user_id block.id c block table ≡ ok r → IsSound r.1
    unfolding update_single
    update_single-IsSound r h =
        let written : r.1 ≡ update_where (by_id block.id) (apply_changes c) table = ground arith in
        rw written (
          update_where-IsSound (by_id block.id) (apply_changes c) table (λ x. id-apply_changes c x)
            (All-map
              (λ x mx px.
                let e : block ≡ x =
                  same_id table sound.ids m mx (sym ((eq_iff x.id block.id).0 px)) in
                subst (Fits (by_id block.id) (apply_changes c) table) e (single-Fits r h) px)
              table (All-Memᴰ table))
            sound)

  module _ (series_id : String) (days : Pairs OnOtherDay table) where
    -- A member of the series whose new times were checked fits.
    member-Fits :
        (x : ScheduleBlock)
        → Memᴰ x table
        → (in_series user_id series_id x ≡ true → touches_time c ≡ true → Checked user_id c table x)
        → Fits
            (in_series user_id series_id)
            (apply_changes (record c { day_of_week = none }))
            table
            x
    unfolding apply_changes
    member-Fits x m checked px =
        let c' = record c { day_of_week = none } in
        let owner : x.user_id ≡ user_id = ground (arith, eq_iff x.user_id user_id) in
        (
          apply_changes-HasRange c' valid x (All-at HasRange table sound.ranges m)
              (λ touched. (checked px touched).0),
          λ y my ne. elim (Bool-cases (in_series user_id series_id y)) [
            | inl py ↦ rw py (λ u d. absurd (
                Pairs-at OnOtherDay HasOtherId OnOtherDay-sym (λ z h. h refl) table days m my
                  (λ e. ne (sym e)) u
                  (ground (arith, eq_iff x.series_id series_id, eq_iff y.series_id series_id)) d))
            | inr qy ↦ rw qy (
                apply_changes-Compatible c' valid x user_id table owner
                  (λ moved. (checked px (ground arith)).1) y my ne
                  (IsSound-Compatible sound m my (λ e. ne (sym e))))
          ],
        )

  update_series-IsSound :
      (block_id : String) (block : ScheduleBlock) (r : Updated)
      → Pairs OnOtherDay table
      → update_series user_id block_id c block table ≡ ok r
      → IsSound r.1
  update_series-IsSound block_id block r days h =
      elim (series-cases user_id c table block_id block r h) [
        | inl same ↦ rw same sound
        | inr (written, checked) ↦ rw written (
            update_where-IsSound (in_series user_id block.series_id)
              (apply_changes (record c { day_of_week = none })) table
              (id-apply_changes (record c { day_of_week = none }))
              (All-map
                (λ x m. member-Fits block.series_id days x m λ px touched.
                  All-at _ table
                    (All-of-filter (in_series user_id block.series_id) _ table (
                      check_series-All user_id (record c { day_of_week = none }) table
                        (filter (in_series user_id block.series_id) table) (checked touched)))
                    m px)
                table (All-Memᴰ table))
              sound)
      ]

pub found-cases :
    (db : Db) (user_id block_id : String) (scope : UpdateScope) (c : Changes)
    (found : Option ScheduleBlock) (r : Updated)
    → update_found db user_id block_id scope c found ≡ ok r
    → (block : ScheduleBlock) × (found ≡ some block)
      × (((scope ≡ series) × (update_series user_id block_id c block db.schedule_blocks ≡ ok r))
          ⊎ (update_single user_id block_id c block db.schedule_blocks ≡ ok r))
found-cases db user_id block_id scope c none r h = cc
found-cases db user_id block_id scope c (some block) r h = (block, refl, ground arith)

-- A successful `update` with times that the dto accepts keeps the table sound (different keys,
-- ranges in order, no two rows of a user on a day overlap), for the scope of a single block always,
-- and for the scope of a series if no series of a user has two blocks on one day.
pub update-IsSound :
    (db : Db) (user_id block_id : String) (scope : UpdateScope) (c : Changes) (r : Updated)
    → IsValidChanges c
    → IsSound db.schedule_blocks
    → (scope ≡ series → Pairs OnOtherDay db.schedule_blocks)
    → update db user_id block_id scope c ≡ ok r
    → IsSound r.1
unfolding update
update-IsSound db user_id block_id scope c r valid sound days h =
    let table = db.schedule_blocks in
    let (block, f, made) =
      found-cases db user_id block_id scope c (find (owned_by user_id block_id) table) r h in
    let (m, q) = find-some (owned_by user_id block_id) table f in
    let id : block.id ≡ block_id = ground (arith, eq_iff block.id block_id) in
    let owner : block.user_id ≡ user_id = ground (arith, eq_iff block.user_id user_id) in
    elim made [
      | inl (all, written) ↦
          update_series-IsSound user_id c table valid sound block_id block r (days all) written
      | inr written ↦
          update_single-IsSound user_id c table valid sound block m owner r (rw (← id) at written)
    ]
