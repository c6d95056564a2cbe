-- ===== src/Schedule/Update/Rewrite.antt =====
-- A write of some rows of a sound table that keeps it sound.
use goal_slot_api.Base.{
  ◌≡◌, ◌≢◌, refl, sym, ◌∙◌, Bool, true, inl, inr, List, All, All-map₂, Pairs, Pairs-map, Pairs-zip,
  Pairs-at, same_key, Memᴰ, All-Memᴰ, update_where, updated, All-update_where, Pairs-update_where,
  Bool-cases,
}
use goal_slot_api.Db.{ScheduleBlock}
use goal_slot_api.Schedule.Rows.{HasRange, Compatible, HasOtherId, IsSound, times_overlap_comm}

pub Compatible-sym : (a b : ScheduleBlock) → Compatible a b → Compatible b a
Compatible-sym a b h u d =
    times_overlap_comm b.start_time b.end_time a.start_time a.end_time ∙ h (sym u) (sym d)

-- Two rows of a sound table with different keys are compatible.
pub IsSound-Compatible :
    {table : List ScheduleBlock} {a b : ScheduleBlock}
    → IsSound table
    → Memᴰ a table
    → Memᴰ b table
    → a.id ≢ b.id
    → Compatible a b
IsSound-Compatible {table} sound ma mb ne =
    Pairs-at Compatible HasOtherId Compatible-sym (λ x h. h refl) table sound.disjoint ma mb ne

-- A key names one row of a sound table.
pub same_id :
    (table : List ScheduleBlock) {a b : ScheduleBlock}
    → Pairs HasOtherId table
    → Memᴰ a table
    → Memᴰ b table
    → a.id ≡ b.id
    → a ≡ b
same_id table ids ma mb e = same_key (λ (b : ScheduleBlock). b.id) table ids ma mb e

module _ (p : ScheduleBlock → Bool) (f : ScheduleBlock → ScheduleBlock)
    (table : List ScheduleBlock) where
  -- What a written row must satisfy: its range is in order, and it is compatible with each other
  -- row as that is after the write.
  abbrev pub Fits : ScheduleBlock → Type 0
  Fits x =
      p x ≡ true
      → HasRange (f x)
        × ((y : ScheduleBlock) → Memᴰ y table → y.id ≢ x.id → Compatible (f x) (updated p f y))

  abbrev Known : ScheduleBlock → Type 0
  Known x = Memᴰ x table × Fits x

  abbrev Both : ScheduleBlock → ScheduleBlock → Type 0
  Both x y = HasOtherId x y × Compatible x y

  written-Compatible :
      (x y : ScheduleBlock)
      → Known x
      → Known y
      → Both x y
      → Compatible (updated p f x) (updated p f y)
  written-Compatible x y (mx, fx) (my, fy) (ne, c) = elim (Bool-cases (p x)) [
    | inl px ↦ rw px ((fx px).1 y my (λ e. ne (sym e)))
    | inr qx ↦ elim (Bool-cases (p y)) [
      | inl py ↦ rw (py, qx) (Compatible-sym (f y) x (rw qx at ((fy py).1 x mx ne)))
      | inr qy ↦ rw (qx, qy) c
    ]
  ]

  written-HasRange : (x : ScheduleBlock) → HasRange x → Fits x → HasRange (updated p f x)
  written-HasRange x range fits = elim (Bool-cases (p x)) [
    | inl px ↦ rw px (fits px).0
    | inr qx ↦ rw qx range
  ]

  -- A write that keeps the keys, each of whose rows fits, keeps a table sound.
  pub update_where-IsSound :
      ((x : ScheduleBlock) → (f x).id ≡ x.id)
      → All Fits table
      → IsSound table
      → IsSound (update_where p f table)
  update_where-IsSound keeps fits sound = record {
    ids =
        Pairs-update_where p f HasOtherId table
          (Pairs-map (λ x y _ _ ne. updated-HasOtherId x y ne) table (All-Memᴰ table) sound.ids);
    ranges =
        All-update_where p f HasRange table (All-map₂ written-HasRange table sound.ranges fits);
    disjoint = Pairs-update_where p f Compatible table (
        Pairs-map written-Compatible table (All-map₂ (λ x m k. (m, k)) table (All-Memᴰ table) fits)
          (Pairs-zip HasOtherId Compatible table sound.ids sound.disjoint));
  }
    where
      same : (x : ScheduleBlock) → (updated p f x).id ≡ x.id
      same x = elim (Bool-cases (p x)) [ inl px ↦ rw px (keeps x) | inr qx ↦ rw qx refl ]

      updated-HasOtherId :
          (x y : ScheduleBlock) → HasOtherId x y → HasOtherId (updated p f x) (updated p f y)
      updated-HasOtherId x y ne e = ne (sym (same x) ∙ e ∙ same y)
