-- ===== src/Tracking/Keeps.antt =====
-- Every write of a time entry keeps the hours of all goals.
use goal_slot_api.Base.{
  ℕ, ◌≡◌, ◌≢◌, refl, sym, ◌∙◌, Bool, false, not, ◌&&◌, inl, inr, Option, none, some, [], ◌∷◌, ◌++◌,
  String, str_eq, >>=-eq-ok, ◌>>=◌, arith, eq_iff, find, find-some, any, any-false, delete_where,
  updated, All, All-at, All-map, All-append, All-map₂, Pairs, Pairs-snoc, Pairs-delete_where,
  All-delete_where, same_key, Memᴰ, All-Memᴰ, Bool-cases, Option-cases, All-update_where, ok,
}
use goal_slot_api.Db.{GoalStatus, Goal, TimeEntry, Db, truthy, column_eq}
use goal_slot_api.Tracking.Progress.{
  logged_minutes_of, with_progress, next_status, owned_goal, update_progress,
}
use goal_slot_api.Tracking.Entries.{
  Zone, CreateTimeEntryDto, owns_goal, validate_relations, progress_if, insert_entry, new_entry,
  task_title, create, entry_by_id, owned_entry, delete_found, delete,
}
use goal_slot_api.Tracking.Sums.{share, logged_minutes_of-snoc, logged_minutes_of-delete_where}
use goal_slot_api.Tracking.Synced.{
  AgreesBut, SyncedBut, HasOwnGoal, IsSynced, but_optional, owns_goal-update_progress,
  progress_if-SyncedBut,
}

-- The goal of an entry, as the one goal that may be stale.
abbrev pub of_entry : Option String → String → Bool
of_entry key id = truthy key && column_eq key id

-- What a recomputation keeps: the entries, the keys of goals and their users.
pub progress_if-entries :
    (key : Option String) (user_id : String) (db : Db)
    → (progress_if key user_id db).time_entries ≡ db.time_entries
unfolding update_progress
progress_if-entries none user_id db = refl
progress_if-entries (some g) user_id db = ground arith

pub progress_if-named :
    (key : Option String) (user_id : String) (db : Db)
    → All (λ (g : Goal). str_eq g.id "" ≡ false) db.goals
    → All (λ (g : Goal). str_eq g.id "" ≡ false) (progress_if key user_id db).goals
unfolding update_progress with_progress
progress_if-named none user_id db h = h
progress_if-named (some k) user_id db h = elim (Bool-cases (truthy (some k))) [
  | inl has ↦ elim (Option-cases (find (owned_goal k user_id) db.goals)) [
    | inl missing ↦ rw (has, missing) h
    | inr (goal, f) ↦
        rw (has, f)
          (All-update_where (λ (g : Goal). str_eq g.id k)
            (with_progress (logged_minutes_of k db.time_entries)
              (next_status (logged_minutes_of k db.time_entries) goal))
            (λ (g : Goal). str_eq g.id "" ≡ false) db.goals
            (All-map
              (λ g e.
                keeps_name g k (logged_minutes_of k db.time_entries)
                  (next_status (logged_minutes_of k db.time_entries) goal) e)
              db.goals h))
  ]
  | inr empty ↦ rw empty h
]
  where
    keeps_name :
        (g : Goal) (k : String) (m : ℕ) (s : GoalStatus)
        → str_eq g.id "" ≡ false
        → str_eq (updated (λ (x : Goal). str_eq x.id k) (with_progress m s) g).id "" ≡ false
    keeps_name g k m s e = elim (Bool-cases (str_eq g.id k)) [ inl p ↦ rw p e | inr q ↦ rw q e ]

pub progress_if-owned :
    (key : Option String) (user_id : String) (db : Db) (e : TimeEntry)
    → HasOwnGoal db e
    → HasOwnGoal (progress_if key user_id db) e
progress_if-owned none user_id db e h = h
progress_if-owned (some k) user_id db e h = elim (Bool-cases (truthy (some k))) [
  | inl has ↦ rw (has, owns_goal-update_progress k user_id db e.user_id e.goal_id) h
  | inr empty ↦ rw empty h
]

pub SyncedBut-weaken :
    (s s' : String → Bool) (db : Db)
    → ((id : String) → s' id ≡ false → s id ≡ false)
    → SyncedBut s db
    → SyncedBut s' db
SyncedBut-weaken s s' db f h =
    All-map {P = AgreesBut s db.time_entries} {Q = AgreesBut s' db.time_entries}
      (λ g a q. a (f g.id q)) db.goals h

pub of_entry-settled :
    (key : Option String) (id : String) → but_optional (of_entry key) key id ≡ false
of_entry-settled none id = refl
of_entry-settled (some k) id = ground (arith, eq_iff k id, eq_iff id k)

-- After a write that leaves at most the goal of `key` stale, its recomputation leaves none.
pub progress_if-IsSynced :
    (key : Option String) (user_id : String) (db : Db)
    → Pairs (λ (a b : TimeEntry). a.id ≢ b.id) db.time_entries
    → All (λ (g : Goal). str_eq g.id "" ≡ false) db.goals
    → All (HasOwnGoal db) db.time_entries
    → (truthy key && not (owns_goal db user_id key)) ≡ false
    → SyncedBut (of_entry key) db
    → IsSynced (progress_if key user_id db)
progress_if-IsSynced key user_id db ids named owned own synced = record {
  ids = rw (progress_if-entries key user_id db) ids;
  named = progress_if-named key user_id db named;
  owned =
      rw (progress_if-entries key user_id db)
        (All-map (progress_if-owned key user_id db) db.time_entries owned);
  synced =
      SyncedBut-weaken (but_optional (of_entry key) key) (λ id. false) (progress_if key user_id db)
        (λ id _. of_entry-settled key id)
        (progress_if-SyncedBut (of_entry key) key user_id db own synced);
}

pub entry_share :
    (g : Goal) (e : TimeEntry)
    → str_eq g.id "" ≡ false
    → of_entry e.goal_id g.id ≡ false
    → share g.id e ≡ 0
entry_share g e named other = elim (Option-cases e.goal_id) [
  | inl without ↦ rw without
  | inr (k, has) ↦ ground (arith, eq_iff k g.id, eq_iff k "", eq_iff g.id "")
]

-- A new entry of a user, for a goal of the user or none, leaves at most that goal stale.
pub insert_entry-IsSynced :
    (entry : TimeEntry) (db db' : Db)
    → IsSynced db
    → HasOwnGoal db entry
    → insert_entry entry db ≡ ok db'
    → IsSynced (progress_if entry.goal_id entry.user_id db')
unfolding insert_entry
insert_entry-IsSynced entry db db' v own h =
    let new : any (λ (e : TimeEntry). str_eq e.id entry.id) db.time_entries ≡ false =
      ground arith in
    let e : db' ≡ record db { time_entries = db.time_entries ++ entry ∷ [] } = ground arith in
    rw e (
      progress_if-IsSynced entry.goal_id entry.user_id
        (record db { time_entries = db.time_entries ++ entry ∷ [] })
        (Pairs-snoc (λ (a b : TimeEntry). a.id ≢ b.id) db.time_entries entry v.ids
          (All-map (λ x ne p. ground (arith, eq_iff x.id entry.id)) db.time_entries
            (any-false _ db.time_entries new)))
        v.named (All-append (HasOwnGoal db) db.time_entries (entry ∷ []) v.owned (own, tt)) own
        (All-map₂ grown db.goals v.named v.synced))
  where
    grown :
        (g : Goal)
        → str_eq g.id "" ≡ false
        → AgreesBut (λ id. false) db.time_entries g
        → AgreesBut (of_entry entry.goal_id) (db.time_entries ++ entry ∷ []) g
    grown g named agrees other = omega (
      arith,
      agrees refl,
      logged_minutes_of-snoc g.id db.time_entries entry,
      entry_share g entry named other,
    )

-- A successful `create` of a time entry keeps the hours of every goal the sum of its entries.
pub create-IsSynced :
    (zone : Zone) (now : ℕ) (fresh_id user_id : String) (dto : CreateTimeEntryDto) (db db' : Db)
    → IsSynced db
    → create zone now fresh_id user_id dto db ≡ ok db'
    → IsSynced db'
unfolding create new_entry validate_relations
create-IsSynced zone now fresh_id user_id dto db db' v h =
    let entry =
      new_entry zone fresh_id (task_title db user_id dto.task_id dto.task_title) user_id dto in
    let own : HasOwnGoal db entry = ground arith in
    let h' : (insert_entry entry db >>= λ x. ok (progress_if dto.goal_id user_id x)) ≡ ok db' =
      ground arith in
    let (mid, inserted, e) = >>=-eq-ok (insert_entry entry db) _ h' in
    let e' : progress_if dto.goal_id user_id mid ≡ db' = cc in
    rw (← e') (insert_entry-IsSynced entry db mid v own inserted)

pub removed :
    (entry_id : String) (entry : TimeEntry) (db : Db)
    → IsSynced db
    → Memᴰ entry db.time_entries
    → entry.id ≡ entry_id
    → (g : Goal) → str_eq g.id "" ≡ false
    → AgreesBut (λ id. false) db.time_entries g
    → AgreesBut (of_entry entry.goal_id) (delete_where (entry_by_id entry_id) db.time_entries) g
removed entry_id entry db v m id g named agrees other =
    agrees refl
    ∙ sym (
        logged_minutes_of-delete_where g.id (entry_by_id entry_id) db.time_entries (
          All-map
            (λ x mx hit.
              let e : entry ≡ x =
                same_key (λ (t : TimeEntry). t.id) db.time_entries v.ids m mx
                  (id ∙ sym ((eq_iff x.id entry_id).0 hit)) in
              rw (← e) (entry_share g entry named other))
            db.time_entries (All-Memᴰ db.time_entries)))

-- A successful `delete` of a time entry keeps the hours of every goal the sum of its entries.
pub delete-IsSynced :
    (user_id entry_id : String) (db db' : Db)
    → IsSynced db
    → delete user_id entry_id db ≡ ok db'
    → IsSynced db'
unfolding delete
delete-IsSynced user_id entry_id db db' v h =
    elim (Option-cases (find (owned_entry user_id entry_id) db.time_entries)) [
      | inl missing ↦
          let h' : delete_found user_id entry_id db none ≡ ok db' = rw missing at h in
          absurd (ground arith)
      | inr (entry, f) ↦
          let h' : delete_found user_id entry_id db (some entry) ≡ ok db' = rw f at h in
          let (m, q) = find-some (owned_entry user_id entry_id) db.time_entries f in
          let id : entry.id ≡ entry_id = ground (arith, eq_iff entry.id entry_id) in
          let user : entry.user_id ≡ user_id = ground (arith, eq_iff entry.user_id user_id) in
          let rest = record db {
            time_entries = delete_where (entry_by_id entry_id) db.time_entries;
          } in
          let e : progress_if entry.goal_id user_id rest ≡ db' = cc in
          let own : HasOwnGoal db entry = All-at (HasOwnGoal db) db.time_entries v.owned m in
          rw (← e) (
            progress_if-IsSynced entry.goal_id user_id rest
              (Pairs-delete_where (entry_by_id entry_id) (λ (a b : TimeEntry). a.id ≢ b.id)
                db.time_entries v.ids)
              v.named
              (All-delete_where (entry_by_id entry_id) (HasOwnGoal db) db.time_entries v.owned)
              (rw user at own)
              (All-map₂ (removed entry_id entry db v m id) db.goals v.named v.synced))
    ]
