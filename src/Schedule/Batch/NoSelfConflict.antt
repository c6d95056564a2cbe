-- ===== src/Schedule/Batch/NoSelfConflict.antt =====
-- The grouping by day of `assertNoSelfConflict`, and the overlaps within a request.
use goal_slot_api.Base.{
  ℕ, ◌≡◌, refl, false, [], ◌∷◌, ◌++◌, arith, any, ==_iff, ◌==◌, if◌then◌else◌, All, All-map,
  All-snoc, Pairs, any-snoc, Bool-cases, inl, inr, ok,
}
use goal_slot_api.Schedule.Create.{CreateScheduleBlockDto}
use goal_slot_api.Schedule.Batch.{
  Dtos, Groups, add_to_day, group_by_day, dtos_overlap, group_overlaps, check_groups,
  assert_no_self_conflict,
}

-- The blocks that stand under a day.
abbrev group_of : ℕ → Groups → Dtos
group_of d [] = []
group_of d ((day, group) ∷ rest) = if day == d then group else group_of d rest

group_of-add_to_day :
    (b : CreateScheduleBlockDto) (groups : Groups) (d : ℕ)
    → group_of d (add_to_day b groups)
      ≡ (if b.day_of_week == d then group_of d groups ++ b ∷ [] else group_of d groups)
unfolding add_to_day
group_of-add_to_day b [] d = ground arith
group_of-add_to_day b ((day, group) ∷ rest) d = ground (arith, group_of-add_to_day b rest d)

-- No block of a list overlaps `b`.
abbrev Clear : CreateScheduleBlockDto → Dtos → Type 0
Clear b = All (λ a. dtos_overlap a b ≡ false)

group_overlaps-snoc :
    (group : Dtos) (b : CreateScheduleBlockDto)
    → group_overlaps (group ++ b ∷ []) ≡ false
    → (group_overlaps group ≡ false) × Clear b group
unfolding group_overlaps
group_overlaps-snoc [] b h = (refl, tt)
group_overlaps-snoc (a ∷ group) b h =
    let here : any (dtos_overlap a) (group ++ b ∷ []) ≡ false = ground arith in
    let later : group_overlaps (group ++ b ∷ []) ≡ false = ground arith in
    let (apart, clear) = group_overlaps-snoc group b later in
    (
      ground (arith, any-snoc (dtos_overlap a) group b),
      (ground (arith, any-snoc (dtos_overlap a) group b), clear),
    )

check_groups-add_to_day :
    (b : CreateScheduleBlockDto) (groups : Groups)
    → check_groups (add_to_day b groups) ≡ ok tt
    → (check_groups groups ≡ ok tt) × Clear b (group_of b.day_of_week groups)
unfolding check_groups add_to_day
check_groups-add_to_day b [] h = (refl, tt)
check_groups-add_to_day b ((day, group) ∷ rest) h = elim (Bool-cases (day == b.day_of_week)) [
  | inl same ↦
      let h' : check_groups ((day, group ++ b ∷ []) ∷ rest) ≡ ok tt = rw same at h in
      let grown : group_overlaps (group ++ b ∷ []) ≡ false = ground arith in
      let (apart, clear) = group_overlaps-snoc group b grown in rw same (ground arith, clear)
  | inr other ↦
      let h' : check_groups ((day, group) ∷ add_to_day b rest) ≡ ok tt = rw other at h in
      let grown : check_groups (add_to_day b rest) ≡ ok tt = ground arith in
      let (checked, clear) = check_groups-add_to_day b rest grown in rw other (ground arith, clear)
]

-- Two blocks on one day do not overlap.
abbrev pub Apart : CreateScheduleBlockDto → CreateScheduleBlockDto → Type 0
Apart a b = a.day_of_week ≡ b.day_of_week → dtos_overlap a b ≡ false

-- A block is clear of a day's group that has grown by `b`: of what stood there, and of `b`.
Clear-grown :
    (b c : CreateScheduleBlockDto) (groups : Groups)
    → Clear c (group_of c.day_of_week (add_to_day b groups))
    → Clear c (group_of c.day_of_week groups) × Apart b c
Clear-grown b c groups k =
    let k' : Clear c (
        if b.day_of_week == c.day_of_week
        then group_of c.day_of_week groups ++ b ∷ []
        else group_of c.day_of_week groups) =
      rw (group_of-add_to_day b groups c.day_of_week) at k in
    elim (Bool-cases (b.day_of_week == c.day_of_week)) [
      | inl same ↦
          let (old, new) =
            All-snoc (λ a. dtos_overlap a c ≡ false) (group_of c.day_of_week groups) b
              (rw same at k') in
          (old, λ d. new)
      | inr other ↦ (rw other at k', λ d. ground (arith, ==_iff b.day_of_week c.day_of_week))
    ]

group_by_day-Apart :
    (blocks : Dtos) (groups : Groups)
    → check_groups (group_by_day groups blocks) ≡ ok tt
    → (check_groups groups ≡ ok tt)
      × All (λ b. Clear b (group_of b.day_of_week groups)) blocks
      × Pairs Apart blocks
unfolding group_by_day
group_by_day-Apart [] groups h = (h, tt, tt)
group_by_day-Apart (b ∷ blocks) groups h =
    let (grown, clear, apart) = group_by_day-Apart blocks (add_to_day b groups) h in
    let (checked, here) = check_groups-add_to_day b groups grown in
    (
      checked,
      (here, All-map (λ c k. (Clear-grown b c groups k).0) blocks clear),
      (All-map (λ c k. (Clear-grown b c groups k).1) blocks clear, apart),
    )

-- The check of a request passes only if no two of its blocks on one day overlap.
pub assert_no_self_conflict-Apart :
    (blocks : Dtos) → assert_no_self_conflict blocks ≡ ok tt → Pairs Apart blocks
unfolding assert_no_self_conflict
assert_no_self_conflict-Apart blocks h = (group_by_day-Apart blocks [] h).2
