-- ===== src/Schedule/Update/Row.antt =====
-- One row of `update`: what the range check and the conflict check say of the row that it writes.
use goal_slot_api.Base.{
  ℕ, ◌≡◌, ◌≢◌, refl, sym, ◌∙◌, true, false, ◌||◌, inl, inr, Option, none, some, List, [], ◌∷◌,
  String, arith, eq_iff, or_else, is_some, All-at, Memᴰ, Bool-cases, ok,
}
use goal_slot_api.Db.{Text, ScheduleBlock}
use goal_slot_api.Schedule.Clock.{matches_time}
use goal_slot_api.Schedule.Conflict.{assert_valid_range, check_time_conflict}
use goal_slot_api.Schedule.Rows.{HasRange, Compatible, no_conflict-IsFree}
use goal_slot_api.Schedule.Create.Sound.{
  HasMinute, matches_time-HasMinute, assert_valid_range-IsRange,
}
use goal_slot_api.Schedule.Update.{Changes, apply_changes, truthy_text, touches_time}

abbrev pub IsValidTime : Option Text → Type 0
IsValidTime none = Unit
IsValidTime (some t) = matches_time t ≡ true

-- The dto's validation of the times that a request changes.
abbrev pub IsValidChanges : Changes → Type 0
IsValidChanges c = IsValidTime c.start_time × IsValidTime c.end_time

untouched : (o : Option Text) → IsValidTime o → truthy_text o ≡ false → o ≡ none
unfolding matches_time
untouched none v h = refl
untouched (some []) v h = cc
untouched (some (c ∷ cs)) v h = cc

changed-HasMinute :
    (o : Option Text) (t : Text) → IsValidTime o → HasMinute t → HasMinute (or_else o t)
changed-HasMinute none t v h = h
changed-HasMinute (some s) t v h = matches_time-HasMinute s v

module _ (c : Changes) (valid : IsValidChanges c) (x : ScheduleBlock) where
  -- The written row has its range in order.
  pub apply_changes-HasRange :
      HasRange x
      → (touches_time c ≡ true
          → assert_valid_range (or_else c.start_time x.start_time) (or_else c.end_time x.end_time)
            ≡ ok tt)
      → HasRange (apply_changes c x)
  unfolding apply_changes
  apply_changes-HasRange (s, e, p, q, l) checked = elim (Bool-cases (touches_time c)) [
    | inl touched ↦
        assert_valid_range-IsRange (or_else c.start_time x.start_time)
          (or_else c.end_time x.end_time)
          (changed-HasMinute c.start_time x.start_time valid.0 (s, p))
          (changed-HasMinute c.end_time x.end_time valid.1 (e, q)) (checked touched)
    | inr same ↦
        rw
          (
            untouched c.start_time valid.0 (ground arith),
            untouched c.end_time valid.1 (ground arith),
          )
          (s, e, p, q, l)
  ]

  -- The written row is compatible with each other row with which the old one was.
  pub apply_changes-Compatible :
      (user_id : String) (table : List ScheduleBlock)
      → x.user_id ≡ user_id
      → ((touches_time c || is_some c.day_of_week) ≡ true
          → check_time_conflict user_id
              (or_else c.day_of_week x.day_of_week)
              (or_else c.start_time x.start_time)
              (or_else c.end_time x.end_time)
              (some x.id)
              table
            ≡ false)
      → (y : ScheduleBlock) → Memᴰ y table
      → y.id ≢ x.id
      → Compatible x y
      → Compatible (apply_changes c x) y
  unfolding apply_changes
  apply_changes-Compatible user_id table owner checked y m ne old =
      elim (Bool-cases (touches_time c || is_some c.day_of_week)) [
        | inl moved ↦ λ u d.
            All-at _ table
              (no_conflict-IsFree user_id (or_else c.day_of_week x.day_of_week)
                (or_else c.start_time x.start_time) (or_else c.end_time x.end_time) (some x.id)
                table (checked moved))
              m (sym owner ∙ u) d (ground (arith, eq_iff y.id x.id))
        | inr same ↦
            rw
              (
                untouched c.start_time valid.0 (ground arith),
                untouched c.end_time valid.1 (ground arith),
                undated c.day_of_week (ground arith),
              )
              old
      ]
    where
      undated : (o : Option ℕ) → is_some o ≡ false → o ≡ none
      undated none h = refl
      undated (some d) h = cc
