-- ===== src/Tracking/Sums.antt =====
-- How writes of time entries move the minutes of a goal.
use goal_slot_api.Base.{
  ℕ, ◌+◌, ◌≡◌, refl, Bool, true, inl, inr, List, [], ◌∷◌, ◌++◌, String, arith, update_where,
  delete_where, All, Bool-cases, if◌then◌else◌,
}
use goal_slot_api.Db.{TimeEntry, column_eq}
use goal_slot_api.Tracking.Progress.{logged_minutes_of}

-- What one entry adds to a goal.
abbrev pub share : String → TimeEntry → ℕ
share goal_id e = if column_eq e.goal_id goal_id then e.duration else 0

pub logged_minutes_of-cons :
    (g : String) (e : TimeEntry) (es : List TimeEntry)
    → logged_minutes_of g (e ∷ es) ≡ share g e + logged_minutes_of g es
unfolding logged_minutes_of
logged_minutes_of-cons g e es = ground arith

pub logged_minutes_of-snoc :
    (g : String) (es : List TimeEntry) (e : TimeEntry)
    → logged_minutes_of g (es ++ e ∷ []) ≡ logged_minutes_of g es + share g e
unfolding logged_minutes_of
logged_minutes_of-snoc g [] e = ground arith
logged_minutes_of-snoc g (x ∷ es) e = ground (arith, logged_minutes_of-snoc g es e)

module _ (g : String) (p : TimeEntry → Bool) where
  -- A write that moves no share of the goal leaves its minutes.
  pub logged_minutes_of-update_where :
      (f : TimeEntry → TimeEntry) (es : List TimeEntry)
      → All (λ e. p e ≡ true → share g (f e) ≡ share g e) es
      → logged_minutes_of g (update_where p f es) ≡ logged_minutes_of g es
  logged_minutes_of-update_where f [] h = refl
  logged_minutes_of-update_where f (e ∷ es) h = elim (Bool-cases (p e)) [
    | inl hit ↦ rw hit (
        omega (
          arith,
          logged_minutes_of-cons g e es,
          logged_minutes_of-cons g (f e) (update_where p f es),
          h.0 hit,
          logged_minutes_of-update_where f es h.1,
        ))
    | inr miss ↦ rw miss (
        omega (
          arith,
          logged_minutes_of-cons g e es,
          logged_minutes_of-cons g e (update_where p f es),
          logged_minutes_of-update_where f es h.1,
        ))
  ]

  -- A deletion of entries that add nothing to the goal leaves its minutes.
  pub logged_minutes_of-delete_where :
      (es : List TimeEntry)
      → All (λ e. p e ≡ true → share g e ≡ 0) es
      → logged_minutes_of g (delete_where p es) ≡ logged_minutes_of g es
  logged_minutes_of-delete_where [] h = refl
  logged_minutes_of-delete_where (e ∷ es) h = elim (Bool-cases (p e)) [
    | inl hit ↦ rw hit (
        omega
          (arith, logged_minutes_of-cons g e es, h.0 hit, logged_minutes_of-delete_where es h.1))
    | inr miss ↦ rw miss (
        omega (
          arith,
          logged_minutes_of-cons g e es,
          logged_minutes_of-cons g e (delete_where p es),
          logged_minutes_of-delete_where es h.1,
        ))
  ]
