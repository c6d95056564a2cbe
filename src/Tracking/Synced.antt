-- ===== src/Tracking/Synced.antt =====
-- The hours of a goal agree with its time entries: the invariant, and what `updateProgress` of
-- goals.service.ts restores of it.
use goal_slot_api.Base.{
  ◌≡◌, ◌≢◌, refl, sym, ap, Bool, true, false, not, ◌&&◌, inl, inr, Option, none, some, List, String,
  str_eq, arith, eq_iff, find, find-any, any-update_where, updated, All, All-map, All-update_where,
  Pairs, Bool-cases, Option-cases, if◌then◌else◌,
}
use goal_slot_api.Db.{GoalStatus, Goal, TimeEntry, Db, truthy}
use goal_slot_api.Tracking.Progress.{
  logged_minutes_of, with_progress, next_status, owned_goal, update_progress,
}
use goal_slot_api.Tracking.Entries.{owns_goal, progress_if}

-- The stored minutes of a goal are the sum of its entries, unless `stale` names the goal.
abbrev pub AgreesBut : (String → Bool) → List TimeEntry → Goal → Type 0
AgreesBut stale entries g = stale g.id ≡ false → g.logged_minutes ≡ logged_minutes_of g.id entries

abbrev pub SyncedBut : (String → Bool) → Db → Type 0
SyncedBut stale db = All (AgreesBut stale db.time_entries) db.goals

-- The goal of an entry, if any, belongs to the user of the entry.
abbrev pub HasOwnGoal : Db → TimeEntry → Type 0
HasOwnGoal db e = (truthy e.goal_id && not (owns_goal db e.user_id e.goal_id)) ≡ false

-- Keys differ and are not empty, entries count for goals of their own user, and the stored minutes
-- of every goal are the sum of its entries.
pub record IsSynced (db : Db) : Type 0 where
  pub ids : Pairs (λ (a b : TimeEntry). a.id ≢ b.id) db.time_entries
  pub named : All (λ (g : Goal). str_eq g.id "" ≡ false) db.goals
  pub owned : All (HasOwnGoal db) db.time_entries
  pub synced : SyncedBut (λ id. false) db

abbrev pub but : (String → Bool) → String → String → Bool
but stale goal_id id = stale id && not (str_eq id goal_id)

abbrev pub but_optional : (String → Bool) → Option String → String → Bool
but_optional stale none = stale
but_optional stale (some g) = if truthy (some g) then but stale g else stale

refreshed :
    (stale : String → Bool) (goal_id : String) (entries : List TimeEntry) (status : GoalStatus)
    (g : Goal)
    → AgreesBut stale entries g
    → AgreesBut (but stale goal_id) entries (
        updated
          (λ (x : Goal). str_eq x.id goal_id)
          (with_progress (logged_minutes_of goal_id entries) status)
          g)
unfolding with_progress
refreshed stale goal_id entries status g h = elim (Bool-cases (str_eq g.id goal_id)) [
  | inl hit ↦
      rw hit (λ s. ap (λ id. logged_minutes_of id entries) (sym ((eq_iff g.id goal_id).0 hit)))
  | inr miss ↦ rw miss (λ s. h (ground arith))
]

-- A recomputation of a goal of the user leaves one stale goal less.
pub update_progress-SyncedBut :
    (stale : String → Bool) (goal_id user_id : String) (db : Db)
    → owns_goal db user_id (some goal_id) ≡ true
    → SyncedBut stale db
    → SyncedBut (but stale goal_id) (update_progress goal_id user_id db)
unfolding update_progress
update_progress-SyncedBut stale goal_id user_id db owns h =
    let (goal, f) = find-any (owned_goal goal_id user_id) db.goals owns in
    let minutes = logged_minutes_of goal_id db.time_entries in
    rw f (
      All-update_where (λ (g : Goal). str_eq g.id goal_id)
        (with_progress minutes (next_status minutes goal))
        (AgreesBut (but stale goal_id) db.time_entries) db.goals
        (All-map (refreshed stale goal_id db.time_entries (next_status minutes goal)) db.goals h))

-- The goals that belong to a user stay so.
pub owns_goal-update_progress :
    (goal_id user_id : String) (db : Db) (u : String) (key : Option String)
    → owns_goal (update_progress goal_id user_id db) u key ≡ owns_goal db u key
unfolding update_progress with_progress
owns_goal-update_progress goal_id user_id db u none = refl
owns_goal-update_progress goal_id user_id db u (some key) =
    elim (Option-cases (find (owned_goal goal_id user_id) db.goals)) [
      | inl missing ↦ rw missing
      | inr (goal, f) ↦ rw f (
          any-update_where (λ (g : Goal). str_eq g.id goal_id)
            (λ (g : Goal). str_eq g.id key && str_eq g.user_id u)
            (with_progress (logged_minutes_of goal_id db.time_entries)
              (next_status (logged_minutes_of goal_id db.time_entries) goal))
            db.goals (λ x. refl))
    ]

-- The same for the recomputation of a goal that may be absent: it makes the goal agree, if the goal
-- is the user's.
pub progress_if-SyncedBut :
    (stale : String → Bool) (key : Option String) (user_id : String) (db : Db)
    → (truthy key && not (owns_goal db user_id key)) ≡ false
    → SyncedBut stale db
    → SyncedBut (but_optional stale key) (progress_if key user_id db)
progress_if-SyncedBut stale none user_id db owns h = h
progress_if-SyncedBut stale (some g) user_id db owns h = elim (Bool-cases (truthy (some g))) [
  | inl has ↦ rw has (update_progress-SyncedBut stale g user_id db (ground arith) h)
  | inr empty ↦ rw empty h
]
