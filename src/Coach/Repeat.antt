-- ===== src/Coach/Repeat.antt =====
-- A CREATE_SCHEDULE_BLOCK that is applied again.
use goal_slot_api.Base.{
  ◌≡◌, refl, sym, ap, ◌∙◌, inl, inr, Bool, true, false, Option, none, some, List, [], ◌∷◌, ◌++◌,
  String, arith, find, eq_refl, Memᴰ, Bool-cases, Option-cases, Result, ok, err, ok-injective, ℕ,
}
use goal_slot_api.Db.{Text, ScheduleBlock, Db}
use goal_slot_api.Notes.Text.{text_eq}
use goal_slot_api.Schedule.Create.{
  CreateScheduleBlockDto, Fresh, Attempt, new_block, insert_block, create_in_transaction, create,
  create_with_conflict_guard,
}
use goal_slot_api.Schedule.Create.Guard.{guard-ok}
use goal_slot_api.Coach.Blocks.{
  create_block_idempotent, schedule_create, created_block, is_identical,
}

text_eq_refl : (t : Text) → text_eq t t ≡ true
text_eq_refl [] = refl
text_eq_refl (c ∷ cs) = ground (arith, text_eq_refl cs)

new_block-identical :
    (fresh : Fresh) (user_id : String) (dto : CreateScheduleBlockDto)
    → is_identical user_id dto (new_block fresh user_id dto) ≡ true
unfolding new_block
new_block-identical fresh user_id dto =
    rw (eq_refl user_id, eq_refl dto.title, text_eq_refl dto.start_time, text_eq_refl dto.end_time)
      (ground arith)

-- The first row of a kind, where a row of the kind is put at the end.
find-snoc :
    {A : Type 0} (p : A → Bool) (xs : List A) (y : A)
    → find p xs ≡ none
    → p y ≡ true
    → find p (xs ++ y ∷ []) ≡ some y
find-snoc p [] y h q = rw q
find-snoc p (x ∷ xs) y h q = elim (Bool-cases (p x)) [
  | inl hit ↦ let h' : some x ≡ none = rw hit at h in cc
  | inr miss ↦ rw miss (find-snoc p xs y (rw miss at h) q)
]

transaction-made :
    (fresh : Fresh) (user_id : String) (dto : CreateScheduleBlockDto) (table : List ScheduleBlock)
    (r : ScheduleBlock × List ScheduleBlock)
    → create_in_transaction fresh user_id dto table ≡ ok r
    → r ≡ (new_block fresh user_id dto, table ++ new_block fresh user_id dto ∷ [])
unfolding create_in_transaction insert_block
transaction-made fresh user_id dto table r h = ground arith

only_attempt : {a b : Attempt} → Memᴰ a (b ∷ []) → a ≡ b
only_attempt (Memᴰ.head e) = e
only_attempt (Memᴰ.tail m) = elim m [ ]

module _ (now : ℕ) (fresh : Fresh) (user_id : String) (dto : CreateScheduleBlockDto) (db : Db) where
  abbrev block : ScheduleBlock
  block = new_block fresh user_id dto

  abbrev quiet : List Attempt
  quiet = record { table = db.schedule_blocks; aborted = false } ∷ []

  create-made :
      (r : ScheduleBlock × List ScheduleBlock)
      → create db now fresh user_id dto quiet ≡ some (ok r)
      → r ≡ (block, db.schedule_blocks ++ block ∷ [])
  unfolding create create_with_conflict_guard
  create-made r h =
      let (a, m, _, made) =
        guard-ok (create_in_transaction fresh user_id dto) 0 quiet r (ground arith) in
      let table : a.table ≡ db.schedule_blocks = ap (λ (a : Attempt). a.table) (only_attempt m) in
      rw (← table) (transaction-made fresh user_id dto a.table r made)

  created_block-made :
      (made : Option (Result (ScheduleBlock × List ScheduleBlock))) (r : Option String × Db)
      → create db now fresh user_id dto quiet ≡ made
      → created_block db made ≡ ok r
      → r ≡ (some block.id, record db { schedule_blocks = db.schedule_blocks ++ block ∷ [] })
  created_block-made none r e h = cc
  created_block-made (some (err thrown)) r e h = cc
  created_block-made (some (ok (b, table))) r e h =
      let both = create-made (b, table) e in
      sym (ok-injective h)
      ∙ ap
          (λ (x : ScheduleBlock × List ScheduleBlock).
            (some x.0.id, record db { schedule_blocks = x.1 }))
          both

  -- What a create that succeeds makes of the tables.
  schedule_create-made :
      (r : Option String × Db)
      → schedule_create now fresh user_id dto db ≡ ok r
      → r ≡ (some block.id, record db { schedule_blocks = db.schedule_blocks ++ block ∷ [] })
  unfolding schedule_create
  schedule_create-made r h = created_block-made (create db now fresh user_id dto quiet) r refl h

-- A block that a proposal created, or found, is found when the same block is proposed again: the
-- second time answers the same id and changes nothing, at any later reading of the clock and
-- whatever keys the database would make up.
pub create_block_idempotent-twice :
    (now later : ℕ) (made_up made_up' : Db → Fresh) (user_id : String)
    (dto : CreateScheduleBlockDto) (db : Db) (id : Option String) (db' : Db)
    → create_block_idempotent now made_up user_id dto db ≡ ok (id, db')
    → create_block_idempotent later made_up' user_id dto db' ≡ ok (id, db')
unfolding create_block_idempotent
create_block_idempotent-twice now later made_up made_up' user_id dto db id db' h =
    elim (Option-cases (find (is_identical user_id dto) db.schedule_blocks)) [
      | inr (b, f) ↦
          let first : (some b.id, db) ≡ (id, db') = ok-injective (rw f at h) in
          let same : db ≡ db' = ap (λ r. r.1) first in
          rw (← same, f) (ap ok (first ∙ sym (ap (λ (x : Db). (id, x)) same)))
      | inl new ↦
          let fresh = made_up db in
          let created : schedule_create now fresh user_id dto db ≡ ok (id, db') = rw new at h in
          let made = schedule_create-made now fresh user_id dto db (id, db') created in
          let table : db'.schedule_blocks ≡ db.schedule_blocks ++ new_block fresh user_id dto ∷ [] =
            ap (λ r. r.1.schedule_blocks) made in
          let found =
            ap (find (is_identical user_id dto)) table
            ∙ find-snoc (is_identical user_id dto) db.schedule_blocks (new_block fresh user_id dto)
                new (new_block-identical fresh user_id dto) in
          rw found (ap (λ (i : Option String). ok (i, db')) (sym (ap (λ r. r.0) made)))
    ]
