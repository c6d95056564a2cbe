-- ===== src/Tracking/Restore.antt =====
-- `restore` of tasks.service.ts and the hours of goals.
use goal_slot_api.Base.{
  ◌≡◌, ◌≢◌, refl, sym, ap, ◌∙◌, Bool, false, ◌&&◌, inl, inr, Option, none, some, List, [], ◌∷◌,
  String, str_eq, arith, eq_iff, find, any-update_where, update_where, updated, All-map, All-map₂,
  All-update_where, All-delete_where, Pairs-delete_where, Memᴰ, Bool-cases, Option-cases,
  if◌then◌else◌, ok,
}
use goal_slot_api.Db.{Goal, Task, TimeEntry, Db, truthy}
use goal_slot_api.Tracking.Progress.{logged_minutes_of, with_progress}
use goal_slot_api.Tracking.Entries.{owns_goal, entry_by_id}
use goal_slot_api.Tracking.Synced.{AgreesBut, HasOwnGoal, IsSynced, but, but_optional}
use goal_slot_api.Tracking.Keeps.{of_entry, removed, of_entry-settled}
use goal_slot_api.Tracking.Recompute.{IsSyncedBut, settled}
use goal_slot_api.Tracking.Tasks.{
  owned_task_by_id, task_by_id, completes, find_last, without_entry, resum, mark_todo,
  restore_found, restore,
}

find_last-some :
    (p : TimeEntry → Bool) (es : List TimeEntry) (e : TimeEntry)
    → find_last p es ≡ some e
    → Memᴰ e es
unfolding find_last
find_last-some p [] e h = absurd (ground arith)
find_last-some p (x ∷ es) e h = elim (Option-cases (find_last p es)) [
  | inl nothing ↦
      let h' : (if p x then some x else none) ≡ some e = rw nothing at h in
      let same : x ≡ e = ground arith in Memᴰ.head (sym same)
  | inr (y, f) ↦ let h' : some y ≡ some e = rw f at h in Memᴰ.tail (find_last-some p es e (f ∙ h'))
]

-- What the recomputation of `restore` makes of a goal.
abbrev resummed : String → List TimeEntry → Goal → Goal
resummed goal_id entries =
    updated (λ (x : Goal). str_eq x.id goal_id)
      (λ x. with_progress (logged_minutes_of goal_id entries) x.status x)

resummed-agrees :
    (stale : String → Bool) (goal_id : String) (entries : List TimeEntry) (g : Goal)
    → AgreesBut stale entries g
    → AgreesBut (but stale goal_id) entries (resummed goal_id entries g)
unfolding with_progress
resummed-agrees stale goal_id entries g h = elim (Bool-cases (str_eq g.id goal_id)) [
  | inl hit ↦
      rw hit (λ s. ap (λ id. logged_minutes_of id entries) (sym ((eq_iff g.id goal_id).0 hit)))
  | inr miss ↦ rw miss (λ s. h (ground arith))
]

resummed-named :
    (goal_id : String) (entries : List TimeEntry) (g : Goal)
    → str_eq g.id "" ≡ false
    → str_eq (resummed goal_id entries g).id "" ≡ false
unfolding with_progress
resummed-named goal_id entries g h = elim (Bool-cases (str_eq g.id goal_id)) [
  | inl hit ↦ rw hit h
  | inr miss ↦ rw miss h
]

abbrev resummed_db : String → Db → Db
resummed_db goal_id db = record db {
  goals =
      update_where (λ (x : Goal). str_eq x.id goal_id)
        (λ (x : Goal). with_progress (logged_minutes_of goal_id db.time_entries) x.status x)
        db.goals;
}

resummed-owns :
    (g : String) (db : Db) (u : String) (key : Option String)
    → owns_goal (resummed_db g db) u key ≡ owns_goal db u key
unfolding with_progress
resummed-owns g db u none = refl
resummed-owns g db u (some k) =
    any-update_where (λ (x : Goal). str_eq x.id g)
      (λ (x : Goal). str_eq x.id k && str_eq x.user_id u)
      (λ x. with_progress (logged_minutes_of g db.time_entries) x.status x) db.goals (λ x. refl)

resummed-IsSyncedBut :
    (stale : String → Bool) (g : String) (db : Db)
    → IsSyncedBut stale db
    → IsSyncedBut (but stale g) (resummed_db g db)
resummed-IsSyncedBut stale g db v =
    let p : Goal → Bool = λ x. str_eq x.id g in
    let f : Goal → Goal = λ x. with_progress (logged_minutes_of g db.time_entries) x.status x in
    record {
      ids = v.ids;
      named =
          All-update_where p f (λ (x : Goal). str_eq x.id "" ≡ false) db.goals
            (All-map (resummed-named g db.time_entries) db.goals v.named);
      owned =
          All-map {P = HasOwnGoal db} {Q = HasOwnGoal (resummed_db g db)}
            (λ e o. rw (resummed-owns g db e.user_id e.goal_id) o) db.time_entries v.owned;
      synced =
          All-update_where p f (AgreesBut (but stale g) db.time_entries) db.goals
            (All-map (resummed-agrees stale g db.time_entries) db.goals v.synced);
    }

resum-IsSyncedBut :
    (stale : String → Bool) (key : Option String) (db : Db)
    → IsSyncedBut stale db
    → IsSyncedBut (but_optional stale key) (resum key db)
resum-IsSyncedBut stale none db v = v
resum-IsSyncedBut stale (some g) db v = elim (Bool-cases (truthy (some g))) [
  | inl has ↦ rw has (resummed-IsSyncedBut stale g db v)
  | inr empty ↦ rw empty v
]

-- The deletion of one entry leaves at most its goal stale.
without_entry-IsSyncedBut :
    (entry : TimeEntry) (db : Db)
    → IsSynced db
    → Memᴰ entry db.time_entries
    → IsSyncedBut
        (of_entry entry.goal_id)
        (record db { time_entries = without_entry (some entry) db.time_entries })
without_entry-IsSyncedBut entry db v m = record {
  ids =
      Pairs-delete_where (entry_by_id entry.id) (λ (a b : TimeEntry). a.id ≢ b.id) db.time_entries
        v.ids;
  named = v.named;
  owned = All-delete_where (entry_by_id entry.id) (HasOwnGoal db) db.time_entries v.owned;
  synced = All-map₂ (removed entry.id entry db v m refl) db.goals v.named v.synced;
}

untouched : (key : Option String) (id : String) → but_optional (λ i. false) key id ≡ false
untouched none id = refl
untouched (some k) id = ground arith

-- A successful `restore` keeps the hours of every goal the sum of its entries, if the completion
-- entry of the task, where it has one, still has the goal of the task.
pub restore-IsSynced :
    (user_id task_id : String) (db db' : Db)
    → IsSynced db
    → ((task : Task) (entry : TimeEntry)
        → find (owned_task_by_id user_id task_id) db.tasks ≡ some task
        → find_last (completes task.id) db.time_entries ≡ some entry
        → entry.goal_id ≡ task.goal_id)
    → restore user_id task_id db ≡ ok db'
    → IsSynced db'
unfolding restore
restore-IsSynced user_id task_id db db' v unmoved h =
    elim (Option-cases (find (owned_task_by_id user_id task_id) db.tasks)) [
      | inl missing ↦
          let h' : restore_found db none ≡ ok db' = rw missing at h in absurd (ground arith)
      | inr (task, f) ↦
          let h' : restore_found db (some task) ≡ ok db' = rw f at h in
          restored_db task (λ entry g. unmoved task entry f g) h'
    ]
  where
    restored_db :
        (task : Task)
        → ((entry : TimeEntry)
            → find_last (completes task.id) db.time_entries ≡ some entry
            → entry.goal_id ≡ task.goal_id)
        → restore_found db (some task) ≡ ok db'
        → IsSynced db'
    restored_db task same r =
        let todo_db = record db { tasks = update_where (task_by_id task.id) mark_todo db.tasks } in
        let v' : IsSynced todo_db = record {
          ids = v.ids;
          named = v.named;
          owned = v.owned;
          synced = v.synced;
        } in
        let rest = record todo_db {
          time_entries =
              without_entry (find_last (completes task.id) db.time_entries) db.time_entries;
        } in
        let e : resum task.goal_id rest ≡ db' = cc in
        rw (← e) (elim (Option-cases (find_last (completes task.id) db.time_entries)) [
          | inl without ↦ rw without (
              settled (but_optional (λ i. false) task.goal_id) (resum task.goal_id todo_db)
                (untouched task.goal_id)
                (resum-IsSyncedBut (λ i. false) task.goal_id todo_db
                  (record { ids = v.ids; named = v.named; owned = v.owned; synced = v.synced })))
          | inr (entry, g) ↦
              let goal : entry.goal_id ≡ task.goal_id = same entry g in
              let m = find_last-some (completes task.id) db.time_entries entry g in
              rw g (
                settled (but_optional (of_entry task.goal_id) task.goal_id)
                  (resum task.goal_id
                    (record todo_db { time_entries = without_entry (some entry) db.time_entries }))
                  (of_entry-settled task.goal_id)
                  (resum-IsSyncedBut (of_entry task.goal_id) task.goal_id
                    (record todo_db { time_entries = without_entry (some entry) db.time_entries })
                    (rw (← goal) (without_entry-IsSyncedBut entry todo_db v' m))))
        ])
