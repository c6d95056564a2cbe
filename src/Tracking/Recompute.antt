-- ===== src/Tracking/Recompute.antt =====
-- The recomputations at the end of an update of a time entry.
use goal_slot_api.Base.{
  ◌≡◌, ◌≢◌, refl, Bool, true, false, not, ◌&&◌, ◌||◌, inl, inr, Option, none, some, String, str_eq,
  arith, eq_iff, All, All-map, Pairs, Bool-cases, if◌then◌else◌,
}
use goal_slot_api.Db.{Goal, TimeEntry, Db, truthy}
use goal_slot_api.Tracking.Entries.{owns_goal, progress_if, same_goal}
use goal_slot_api.Tracking.Synced.{
  SyncedBut, HasOwnGoal, IsSynced, but_optional, progress_if-SyncedBut,
}
use goal_slot_api.Tracking.Keeps.{
  of_entry, progress_if-entries, progress_if-named, progress_if-owned, SyncedBut-weaken,
}

-- `IsSynced` but for the goals that `stale` names.
pub record IsSyncedBut (stale : String → Bool) (db : Db) : Type 0 where
  pub ids : Pairs (λ (a b : TimeEntry). a.id ≢ b.id) db.time_entries
  pub named : All (λ (g : Goal). str_eq g.id "" ≡ false) db.goals
  pub owned : All (HasOwnGoal db) db.time_entries
  pub synced : SyncedBut stale db

recomputed :
    (stale : String → Bool) (key : Option String) (user_id : String) (db : Db)
    → (truthy key && not (owns_goal db user_id key)) ≡ false
    → IsSyncedBut stale db
    → IsSyncedBut (but_optional stale key) (progress_if key user_id db)
recomputed stale key user_id db own v = record {
  ids = rw (progress_if-entries key user_id db) v.ids;
  named = progress_if-named key user_id db v.named;
  owned =
      rw (progress_if-entries key user_id db)
        (All-map (progress_if-owned key user_id db) db.time_entries v.owned);
  synced = progress_if-SyncedBut stale key user_id db own v.synced;
}

pub settled :
    (stale : String → Bool) (db : Db)
    → ((id : String) → stale id ≡ false)
    → IsSyncedBut stale db
    → IsSynced db
settled stale db none_left v = record {
  ids = v.ids;
  named = v.named;
  owned = v.owned;
  synced = SyncedBut-weaken stale (λ id. false) db (λ id _. none_left id) v.synced;
}

-- The goals that the update of an entry may leave stale.
abbrev pub either : Option String → Option String → String → Bool
either old new id = of_entry old id || of_entry new id

either-settled :
    (old new : Option String) (id : String)
    → but_optional (but_optional (either old new) old) new id ≡ false
either-settled none none id = refl
either-settled none (some b) id = ground (arith, eq_iff b id, eq_iff id b)
either-settled (some a) none id = ground (arith, eq_iff a id, eq_iff id a)
either-settled (some a) (some b) id =
    ground (arith, eq_iff a id, eq_iff id a, eq_iff b id, eq_iff id b)

same-settled :
    (old new : Option String) (id : String)
    → same_goal old new ≡ true
    → but_optional (either old new) new id ≡ false
same-settled none none id h = refl
same-settled none (some b) id h = absurd (ground arith)
same-settled (some a) none id h = absurd (ground arith)
same-settled (some a) (some b) id h =
    ground (arith, eq_iff a b, eq_iff a id, eq_iff id a, eq_iff b id, eq_iff id b)

-- The two recomputations after an update, or the one where the goal stays.
pub recomputed_both :
    (old new : Option String) (entry : TimeEntry) (db : Db)
    → HasOwnGoal db (record entry { goal_id = old })
    → HasOwnGoal db (record entry { goal_id = new })
    → IsSyncedBut (either old new) db
    → IsSynced (
        progress_if new entry.user_id
          (if same_goal old new then db else progress_if old entry.user_id db))
recomputed_both old new entry db own_old own_new v = elim (Bool-cases (same_goal old new)) [
  | inl same ↦ rw same (
      settled (but_optional (either old new) new) (progress_if new entry.user_id db)
        (λ id. same-settled old new id same)
        (recomputed (either old new) new entry.user_id db own_new v))
  | inr moved ↦
      let first = progress_if old entry.user_id db in
      rw moved (
        settled (but_optional (but_optional (either old new) old) new)
          (progress_if new entry.user_id first) (either-settled old new)
          (recomputed (but_optional (either old new) old) new entry.user_id first
            (progress_if-owned old entry.user_id db (record entry { goal_id = new }) own_new)
            (recomputed (either old new) old entry.user_id db own_old v)))
]
