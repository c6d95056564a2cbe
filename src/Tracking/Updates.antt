-- ===== src/Tracking/Updates.antt =====
-- The update of a time entry keeps the hours of all goals.
use goal_slot_api.Base.{
  ◌≡◌, ◌≢◌, refl, sym, ◌∙◌, Bool, true, false, not, ◌&&◌, ◌||◌, inl, inr, Option, none, some,
  String, str_eq, >>-eq-ok, arith, eq_iff, find, find-some, update_where, updated, is_some, or_else,
  All-at, All-map, All-map₂, Pairs-map, Pairs-update_where, All-update_where, same_key, Memᴰ,
  All-Memᴰ, Bool-cases, Option-cases, ok,
}
use goal_slot_api.Db.{Goal, TimeEntry, Db, truthy}
use goal_slot_api.Tracking.Entries.{
  Zone, UpdateTimeEntryDto, owns_goal, validate_relations, task_title, entry_by_id, owned_entry,
  apply_update, new_goal_id, progress_after_update, update_found, update,
}
use goal_slot_api.Tracking.Sums.{share, logged_minutes_of-update_where}
use goal_slot_api.Tracking.Synced.{AgreesBut, HasOwnGoal, IsSynced}
use goal_slot_api.Tracking.Keeps.{of_entry, entry_share}
use goal_slot_api.Tracking.Recompute.{IsSyncedBut, settled, either, recomputed_both}

module _ (zone : Zone) (title : Option String) (dto : UpdateTimeEntryDto) (entry_id : String) where
  abbrev written : Db → Db
  written db = record db {
    time_entries =
        update_where (entry_by_id entry_id) (apply_update zone title dto) db.time_entries;
  }

  updated_id :
      (e : TimeEntry) → (updated (entry_by_id entry_id) (apply_update zone title dto) e).id ≡ e.id
  unfolding apply_update
  updated_id e = elim (Bool-cases (str_eq e.id entry_id)) [
    | inl hit ↦ rw hit refl
    | inr miss ↦ rw miss refl
  ]

  -- The write of one entry, if the shares that it moves are of stale goals.
  written-IsSyncedBut :
      (stale : String → Bool) (db : Db) (entry : TimeEntry)
      → IsSynced db
      → Memᴰ entry db.time_entries
      → entry.id ≡ entry_id
      → HasOwnGoal db (apply_update zone title dto entry)
      → ((g : Goal)
          → str_eq g.id "" ≡ false
          → stale g.id ≡ false
          → share g.id (apply_update zone title dto entry) ≡ share g.id entry)
      → IsSyncedBut stale (written db)
  written-IsSyncedBut stale db entry v m id own shares =
      let p = entry_by_id entry_id in
      let f = apply_update zone title dto in
      let the_entry : (x : TimeEntry)
          → Memᴰ x db.time_entries
          → str_eq x.id entry_id ≡ true
          → entry ≡ x =
        λ x mx hit.
          same_key (λ (t : TimeEntry). t.id) db.time_entries v.ids m mx
            (id ∙ sym ((eq_iff x.id entry_id).0 hit)) in
      record {
        ids =
            Pairs-update_where p f (λ (a b : TimeEntry). a.id ≢ b.id) db.time_entries
              (Pairs-map {K = λ x. (updated p f x).id ≡ x.id}
                (λ x y kx ky ne e. ne (sym kx ∙ e ∙ ky)) db.time_entries
                (All-map (λ x mx. updated_id x) db.time_entries (All-Memᴰ db.time_entries)) v.ids);
        named = v.named;
        owned = All-update_where p f (HasOwnGoal db) db.time_entries (
            All-map₂
              (λ x mx o. elim (Bool-cases (str_eq x.id entry_id)) [
                | inl hit ↦ rw hit (rw (← the_entry x mx hit) own)
                | inr miss ↦ rw miss o
              ])
              db.time_entries (All-Memᴰ db.time_entries) v.owned);
        synced =
            All-map₂ {Q = AgreesBut (λ i. false) db.time_entries}
              (λ g named agrees fresh.
                agrees refl
                ∙ sym (
                    logged_minutes_of-update_where g.id p f db.time_entries (
                      All-map (λ x mx hit. rw (← the_entry x mx hit) (shares g named fresh))
                        db.time_entries (All-Memᴰ db.time_entries))))
              db.goals v.named v.synced;
      }

  stored_share :
      (entry : TimeEntry) (g : Goal)
      → str_eq g.id "" ≡ false
      → either entry.goal_id (new_goal_id dto.goal_id entry.goal_id) g.id ≡ false
      → share g.id (apply_update zone title dto entry) ≡ share g.id entry
  unfolding apply_update
  stored_share entry g named fresh =
      let before : share g.id entry ≡ 0 = entry_share g entry named (ground arith) in
      let after : share g.id (apply_update zone title dto entry) ≡ 0 =
        entry_share g (apply_update zone title dto entry) named
          (stored dto.goal_id entry.goal_id g.id fresh) in
      after ∙ sym before
    where
      stored :
          (field : Option (Option String)) (old : Option String) (i : String)
          → either old (new_goal_id field old) i ≡ false
          → of_entry (or_else field old) i ≡ false
      stored none old i h = ground arith
      stored (some none) old i h = refl
      stored (some (some k)) old i h = ground arith

  same_share :
      (entry : TimeEntry) (g : Goal)
      → (is_some dto.duration || is_some dto.goal_id) ≡ false
      → share g.id (apply_update zone title dto entry) ≡ share g.id entry
  unfolding apply_update
  same_share entry g none_touched = elim (Option-cases dto.duration) [
    | inl without ↦ elim (Option-cases dto.goal_id) [
      | inl kept ↦ rw (without, kept) refl
      | inr (k, has) ↦ ground arith
    ]
    | inr (d, has) ↦ ground arith
  ]

-- The goal of a field of the request, where the checks of `update` pass.
field_owned :
    (db : Db) (dto : UpdateTimeEntryDto) (user_id : String)
    → validate_relations db user_id
        (or_else dto.goal_id none)
        (or_else dto.schedule_block_id none)
        (or_else dto.task_id none)
      ≡ ok tt
    → (truthy (or_else dto.goal_id none) && not (owns_goal db user_id (or_else dto.goal_id none)))
      ≡ false
unfolding validate_relations
field_owned db dto user_id h = ground arith

stored_owned :
    (db : Db) (field : Option (Option String)) (old : Option String) (user_id : String)
    → (truthy (or_else field none) && not (owns_goal db user_id (or_else field none))) ≡ false
    → (truthy old && not (owns_goal db user_id old)) ≡ false
    → ((truthy (or_else field old) && not (owns_goal db user_id (or_else field old))) ≡ false)
      × ((truthy (new_goal_id field old) && not (owns_goal db user_id (new_goal_id field old)))
          ≡ false)
stored_owned db none old user_id h own = (own, own)
stored_owned db (some none) old user_id h own = (refl, own)
stored_owned db (some (some k)) old user_id h own = (h, h)

-- A successful `update` of a time entry keeps the hours of every goal the sum of its entries, also
-- where it moves the entry to another goal or takes its goal away.
pub update-IsSynced :
    (zone : Zone) (user_id entry_id : String) (dto : UpdateTimeEntryDto) (db db' : Db)
    → IsSynced db
    → update zone user_id entry_id dto db ≡ ok db'
    → IsSynced db'
unfolding update progress_after_update apply_update
update-IsSynced zone user_id entry_id dto db db' v h =
    let (checked, h1) =
      >>-eq-ok
        (validate_relations db user_id (or_else dto.goal_id none)
          (or_else dto.schedule_block_id none) (or_else dto.task_id none))
        _ h in
    elim (Option-cases (find (owned_entry user_id entry_id) db.time_entries)) [
      | inl missing ↦
          let h' : update_found zone user_id entry_id dto db none ≡ ok db' = rw missing at h1 in
          absurd (ground arith)
      | inr (entry, f) ↦
          let h' : update_found zone user_id entry_id dto db (some entry) ≡ ok db' = rw f at h1 in
          let (m, q) = find-some (owned_entry user_id entry_id) db.time_entries f in
          let id : entry.id ≡ entry_id = ground (arith, eq_iff entry.id entry_id) in
          let user : entry.user_id ≡ user_id = ground (arith, eq_iff entry.user_id user_id) in
          let title = task_title db entry.user_id (or_else dto.task_id none) dto.task_title in
          let mid = written zone title dto entry_id db in
          let e : progress_after_update dto entry.goal_id entry.user_id mid ≡ db' = rw user cc in
          let own : HasOwnGoal db entry = All-at (HasOwnGoal db) db.time_entries v.owned m in
          let field = field_owned db dto user_id checked in
          let own_field : (truthy (or_else dto.goal_id none)
                && not (owns_goal db entry.user_id (or_else dto.goal_id none)))
              ≡ false =
            rw user field in
          let (own_stored, own_new) =
            stored_owned db dto.goal_id entry.goal_id entry.user_id own_field own in
          rw (← e) (elim (Bool-cases (is_some dto.duration || is_some dto.goal_id)) [
            | inl touched ↦ rw touched (
                recomputed_both entry.goal_id (new_goal_id dto.goal_id entry.goal_id) entry mid own
                  own_new
                  (written-IsSyncedBut zone title dto entry_id
                    (either entry.goal_id (new_goal_id dto.goal_id entry.goal_id)) db entry v m id
                    own_stored (stored_share zone title dto entry_id entry)))
            | inr untouched ↦ rw untouched (
                settled (λ i. false) mid (λ i. refl)
                  (written-IsSyncedBut zone title dto entry_id (λ i. false) db entry v m id
                    own_stored (λ g _ _. same_share zone title dto entry_id entry g untouched)))
          ])
    ]
