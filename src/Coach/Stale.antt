-- ===== src/Coach/Stale.antt =====
-- What a stale id is resolved to.
use mathlib.Core.Bool.{false≢true}
use goal_slot_api.Base.{
  ◌≡◌, refl, sym, ap, ◌∙◌, inl, inr, Bool, true, false, List, [], ◌∷◌, String, Option, arith,
  filter, Memᴰ, eq_iff, Bool-cases, length, ◌≤◌,
}
use goal_slot_api.Db.{Text, ScheduleBlock}
use goal_slot_api.Schedule.Update.{Changes, of_user}
use goal_slot_api.Coach.Titles.{
  Resolution, resolved, ambiguous, no_match, decided, first_tier, tiers,
  resolve_stale_schedule_block,
}

abbrev pub Tier : Type 0
Tier = ScheduleBlock → Bool

-- The tier that decides, after the tiers that match nothing.
pub data Decides (blocks : List ScheduleBlock) : List Tier → Resolution → Type 0 where
  nothing : Decides blocks [] no_match
  one :
      (tier : Tier) (rest : List Tier) (b : ScheduleBlock)
      → filter tier blocks ≡ b ∷ []
      → Decides blocks (tier ∷ rest) (resolved b.id)
  several :
      (tier : Tier) (rest : List Tier)
      → 2 ≤ length (filter tier blocks)
      → Decides blocks (tier ∷ rest) ambiguous
  weaker :
      (tier : Tier) (rest : List Tier) (r : Resolution)
      → filter tier blocks ≡ []
      → Decides blocks rest r
      → Decides blocks (tier ∷ rest) r

decided-Decides :
    (tier : Tier) (rest : List Tier) (blocks matches : List ScheduleBlock)
    → filter tier blocks ≡ matches
    → Decides blocks rest (first_tier rest blocks)
    → Decides blocks (tier ∷ rest) (decided matches (first_tier rest blocks))
decided-Decides tier rest blocks [] e h = weaker tier rest (first_tier rest blocks) e h
decided-Decides tier rest blocks (b ∷ []) e h = one tier rest b e
decided-Decides tier rest blocks (b ∷ b' ∷ more) e h = several tier rest (rw e (omega arith))

first_tier-Decides :
    (ts : List Tier) (blocks : List ScheduleBlock) → Decides blocks ts (first_tier ts blocks)
unfolding first_tier
first_tier-Decides [] blocks = nothing
first_tier-Decides (tier ∷ rest) blocks =
    decided-Decides tier rest blocks (filter tier blocks) refl (first_tier-Decides rest blocks)

module _ (p : Tier) where
  in_filter :
      (xs : List ScheduleBlock) {y : ScheduleBlock}
      → Memᴰ y (filter p xs)
      → Memᴰ y xs × (p y ≡ true)
  in_filter [] m = elim m [ ]
  in_filter (x ∷ xs) m = elim (Bool-cases (p x)) [
    | inl hit ↦ at_head hit (λ m'. in_filter xs m') (rw hit at m)
    | inr miss ↦ let (m', q) = in_filter xs (rw miss at m) in (Memᴰ.tail m', q)
  ]
    where
      at_head :
          {y : ScheduleBlock}
          → p x ≡ true
          → (Memᴰ y (filter p xs) → Memᴰ y xs × (p y ≡ true))
          → Memᴰ y (x ∷ filter p xs)
          → Memᴰ y (x ∷ xs) × (p y ≡ true)
      at_head hit later (Memᴰ.head e) = (Memᴰ.head e, ap p e ∙ hit)
      at_head hit later (Memᴰ.tail m) = (Memᴰ.tail (later m).0, (later m).1)

  filter-head :
      (xs : List ScheduleBlock) {b : ScheduleBlock} {bs : List ScheduleBlock}
      → filter p xs ≡ b ∷ bs
      → Memᴰ b xs × (p b ≡ true)
  filter-head [] h = cc
  filter-head (y ∷ ys) {b} {bs} h = elim (Bool-cases (p y)) [
    | inl hit ↦
        let e : y ∷ filter p ys ≡ b ∷ bs = rw hit at h in
        let same : y ≡ b = cc in (Memᴰ.head (sym same), rw same at hit)
    | inr miss ↦ let (m, q) = filter-head ys (rw miss at h) in (Memᴰ.tail m, q)
  ]

  filter-none :
      (xs : List ScheduleBlock) {y : ScheduleBlock} → filter p xs ≡ [] → Memᴰ y xs → p y ≡ false
  filter-none [] h m = elim m [ ]
  filter-none (x ∷ xs) h m = elim (Bool-cases (p x)) [
    | inl hit ↦ let e : x ∷ filter p xs ≡ [] = rw hit at h in cc
    | inr miss ↦ at_tail miss (λ m'. filter-none xs (rw miss at h) m') m
  ]
    where
      at_tail :
          {y : ScheduleBlock}
          → p x ≡ false
          → (Memᴰ y xs → p y ≡ false)
          → Memᴰ y (x ∷ xs)
          → p y ≡ false
      at_tail miss later (Memᴰ.head e) = ap p e ∙ miss
      at_tail miss later (Memᴰ.tail m) = later m

  filter-only :
      (xs : List ScheduleBlock) {b y : ScheduleBlock}
      → filter p xs ≡ b ∷ []
      → Memᴰ y xs
      → p y ≡ true
      → y ≡ b
  filter-only [] h m q = elim m [ ]
  filter-only (x ∷ xs) {b} {y} h (Memᴰ.head e) q =
      let hit : p x ≡ true = ap p (sym e) ∙ q in
      let e' : x ∷ filter p xs ≡ b ∷ [] = rw hit at h in cc
  filter-only (x ∷ xs) {b} {y} h (Memᴰ.tail m) q = elim (Bool-cases (p x)) [
    | inl hit ↦
        let e : x ∷ filter p xs ≡ b ∷ [] = rw hit at h in
        let none_left : filter p xs ≡ [] = cc in
        absurd (false≢true (sym (filter-none xs none_left m) ∙ q))
    | inr miss ↦ filter-only xs (rw miss at h) m q
  ]

  Memᴰ-filter :
      (xs : List ScheduleBlock) {y : ScheduleBlock} → Memᴰ y xs → p y ≡ true → Memᴰ y (filter p xs)
  Memᴰ-filter [] m q = elim m [ ]
  Memᴰ-filter (x ∷ xs) (Memᴰ.head e) q =
      let hit : p x ≡ true = ap p (sym e) ∙ q in rw hit (Memᴰ.head e)
  Memᴰ-filter (x ∷ xs) (Memᴰ.tail m) q = elim (Bool-cases (p x)) [
    | inl hit ↦ rw hit (Memᴰ.tail (Memᴰ-filter xs m q))
    | inr miss ↦ rw miss (Memᴰ-filter xs m q)
  ]

-- A block that a tier finds alone.
abbrev pub IsOnly : List Tier → List ScheduleBlock → String → Type 0
IsOnly ts blocks id =
    (tier : Tier) × (b : ScheduleBlock) × Memᴰ tier ts × (filter tier blocks ≡ b ∷ []) × (b.id ≡ id)

first_tier-IsOnly :
    (blocks : List ScheduleBlock) (ts : List Tier) (r : Resolution) (id : String)
    → Decides blocks ts r
    → r ≡ resolved id
    → IsOnly ts blocks id
first_tier-IsOnly blocks ts r id nothing e = cc
first_tier-IsOnly blocks ts r id (one tier rest b h) e = (tier, b, Memᴰ.head refl, h, cc)
first_tier-IsOnly blocks ts r id (several tier rest h) e = cc
first_tier-IsOnly blocks ts r id (weaker tier rest r' h d) e =
    let (t, b, m, alone, named) = first_tier-IsOnly blocks rest r' id d e in
    (t, b, Memᴰ.tail m, alone, named)

-- A stale id is resolved only to a block of the user that one of the tiers matches, and that is the
-- only block of the user that this tier matches.
pub resolve_stale_schedule_block_unique :
    (lower : Text → Text) (user_id : String) (c : Changes) (expected_title : Option String)
    (table : List ScheduleBlock) (id : String)
    → resolve_stale_schedule_block lower user_id c expected_title table ≡ resolved id
    → (tier : Tier) × (b : ScheduleBlock) × Memᴰ tier (tiers lower c expected_title)
      × Memᴰ b table
      × (b.id ≡ id)
      × (b.user_id ≡ user_id)
      × (tier b ≡ true)
      × ((y : ScheduleBlock) → Memᴰ y table → y.user_id ≡ user_id → tier y ≡ true → y ≡ b)
unfolding resolve_stale_schedule_block
resolve_stale_schedule_block_unique lower user_id c expected_title table id h =
    let ts = tiers lower c expected_title in
    let blocks = filter (of_user user_id) table in
    let (tier, b, m, alone, named) =
      first_tier-IsOnly blocks ts (first_tier ts blocks) id (first_tier-Decides ts blocks) h in
    let (mb, hit) = filter-head tier blocks alone in
    let (mt, his) = in_filter (of_user user_id) table mb in
    (
      tier,
      b,
      m,
      mt,
      named,
      (eq_iff b.user_id user_id).0 his,
      hit,
      λ y my owner q.
          filter-only tier blocks alone
            (Memᴰ-filter (of_user user_id) table my ((eq_iff y.user_id user_id).1 owner)) q,
    )
