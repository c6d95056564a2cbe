-- ===== src/Notes/Move.antt =====
-- A move of a note to another parent keeps the forest.
use goal_slot_api.Base.{
  ℕ, suc, ◌+◌, ◌<◌, ◌≡◌, ◌≢◌, refl, sym, ap, subst, ◌∙◌, true, false, inl, inr, Option, none, some,
  List, [], ◌∷◌, String, str_eq, arith, eq_iff, eq_refl, any, update_where, updated, or_else,
  All-map, All-map₂, All-at, All-Memᴰ, All-update_where, Memᴰ, Bool-cases, Option-cases,
  if◌then◌else◌, Result, ok, err, ◌>>◌, >>-eq-ok, throw_if, forbidden,
}
use goal_slot_api.Db.{truthy}
use goal_slot_api.Notes.Store.{
  Note, note_by_id, find_one, check_parent, dangling, contains, child_of, get_descendant_ids,
  UpdateNoteDto, apply_note_update, write_note, update_checked, update_note,
}
use goal_slot_api.Notes.Lookups.{find_one-ok, given_parent, unnamed, found_parent}
use goal_slot_api.Notes.Forest.{Below, IsForest, Visited, visits}

-- The ranks after a move of `id` and all below it under a note of rank `deep`.
abbrev moved_rank : (String → ℕ) → ℕ → List String → String → ℕ
moved_rank rank deep ids i = if contains ids i then rank i + suc deep else rank i

module _ (height : ℕ) (notes : List Note) (forest : IsForest height notes) (id : String)
    (dto : UpdateNoteDto) where
  moved-Below :
      (p : String) (ds : List String)
      → dto.parent_id ≡ some (some p)
      → contains (id ∷ ds) p ≡ false
      → Visited forest.rank (forest.rank id) notes (id ∷ []) ds
      → (n : Note) → Memᴰ n notes
      → Below forest.rank n
      → Below
          (moved_rank forest.rank (forest.rank p) (id ∷ ds))
          (updated (note_by_id id) (apply_note_update dto) n)
  unfolding apply_note_update
  moved-Below p ds to outside v n m b = elim (Bool-cases (str_eq n.id id)) [
    | inl hit ↦ rw (hit, to) (rw (outside, (eq_iff n.id id).0 hit) (ground (arith, eq_refl id)))
    | inr miss ↦ rw miss (elim (Option-cases n.parent_id) [
      | inl root ↦ rw root tt
      | inr (q, has) ↦
          let b' : forest.rank q < forest.rank n.id = rw has at b in
          rw has (elim (Bool-cases (contains (id ∷ ds) q)) [
            | inl inside ↦
                let child : child_of (id ∷ ds) n ≡ true = rw has inside in
                let below = v.closed n m child in ground arith
            | inr away ↦ ground arith
          ])
    ])
  ]

  moved_bounded :
      (p : String) (ids : List String) (n : Note)
      → forest.rank p < height
      → forest.rank n.id < height
      → moved_rank forest.rank
          (forest.rank p)
          ids
          (updated (note_by_id id) (apply_note_update dto) n).id
        < height + height
  unfolding apply_note_update
  moved_bounded p ids n b c = elim (Bool-cases (str_eq n.id id)) [
    | inl hit ↦ rw hit (ground arith)
    | inr miss ↦ rw miss (ground arith)
  ]

  still_named :
      (n : Note)
      → str_eq n.id "" ≡ false
      → str_eq (updated (note_by_id id) (apply_note_update dto) n).id "" ≡ false
  unfolding apply_note_update
  still_named n h = elim (Bool-cases (str_eq n.id id)) [ inl hit ↦ rw hit h | inr miss ↦ rw miss h ]

  abbrev written : List Note
  written = update_where (note_by_id id) (apply_note_update dto) notes

  moved-IsForest :
      (p : String) (ds : List String)
      → dto.parent_id ≡ some (some p)
      → contains (id ∷ ds) p ≡ false
      → forest.rank p < height
      → Visited forest.rank (forest.rank id) notes (id ∷ []) ds
      → IsForest (height + height) written
  moved-IsForest p ds to outside b v =
      let rank' = moved_rank forest.rank (forest.rank p) (id ∷ ds) in
      let f = apply_note_update dto in
      record {
        rank = rank';
        bounded =
            All-update_where (note_by_id id) f (λ (n : Note). rank' n.id < height + height) notes
              (All-map (λ n c. moved_bounded p (id ∷ ds) n b c) notes forest.bounded);
        below =
            All-update_where (note_by_id id) f (Below rank') notes
              (All-map₂ (moved-Below p ds to outside v) notes (All-Memᴰ notes) forest.below);
        named =
            All-update_where (note_by_id id) f (λ (n : Note). str_eq n.id "" ≡ false) notes
              (All-map still_named notes forest.named);
      }

  -- A write that names no new parent.
  stayed-Below :
      or_else dto.parent_id none ≡ none
      → (n : Note) → Below forest.rank n
      → Below forest.rank (updated (note_by_id id) (apply_note_update dto) n)
  unfolding apply_note_update
  stayed-Below stays n b = elim (Bool-cases (str_eq n.id id)) [
    | inl hit ↦ rw hit (elim (Option-cases dto.parent_id) [
      | inl left_out ↦ rw left_out b
      | inr (field, given) ↦ elim (Option-cases field) [
        | inl null ↦ rw (given, null) tt
        | inr (p, to) ↦
            let no : some p ≡ none =
              sym (ap (λ (o : Option (Option String)). or_else o none) (given ∙ ap some to))
              ∙ stays in
            absurd (ground arith)
      ]
    ])
    | inr miss ↦ rw miss b
  ]

  stayed-IsForest : or_else dto.parent_id none ≡ none → IsForest (height + height) written
  unfolding apply_note_update
  stayed-IsForest stays =
      let f = apply_note_update dto in
      record {
        rank = forest.rank;
        bounded =
            All-update_where (note_by_id id) f (λ (n : Note). forest.rank n.id < height + height)
              notes (All-map stayed_bounded notes forest.bounded);
        below =
            All-update_where (note_by_id id) f (Below forest.rank) notes
              (All-map (stayed-Below stays) notes forest.below);
        named =
            All-update_where (note_by_id id) f (λ (n : Note). str_eq n.id "" ≡ false) notes
              (All-map still_named notes forest.named);
      }
    where
      stayed_bounded :
          (n : Note)
          → forest.rank n.id < height
          → forest.rank (updated (note_by_id id) (apply_note_update dto) n).id < height + height
      stayed_bounded n c = elim (Bool-cases (str_eq n.id id)) [
        | inl hit ↦ rw hit (ground arith)
        | inr miss ↦ rw miss (ground arith)
      ]

  write_note-ok :
      (notes' : List Note)
      → write_note id dto notes ≡ ok notes'
      → (written ≡ notes') × (dangling (or_else dto.parent_id none) notes ≡ false)
  unfolding write_note
  write_note-ok notes' h = (ground arith, ground arith)

  not_itself :
      dto.parent_id ≢ some (some id)
      → (p : String) → dto.parent_id ≡ some (some p)
      → str_eq id p ≡ false
  not_itself other p to = elim (Bool-cases (str_eq id p)) [
    | inl same ↦
        absurd (other (to ∙ ap (λ (q : String). some (some q)) (sym ((eq_iff id p).0 same))))
    | inr differs ↦ differs
  ]

  -- The check and the write, once the note and its new parent are found.
  checked-IsForest :
      (fuel : ℕ) (field : Option String)
      → or_else dto.parent_id none ≡ field
      → dto.parent_id ≢ some (some id)
      → forest.rank id < height
      → height < fuel
      → ((p : String) → field ≡ some p → truthy (some p) ≡ true → forest.rank p < height)
      → (answer : Result (List Note)) × (update_checked fuel id dto notes field ≡ some answer)
        × ((notes' : List Note) → answer ≡ ok notes' → IsForest (height + height) notes')
  unfolding update_checked get_descendant_ids
  checked-IsForest fuel none e other b le known = (
    write_note id dto notes,
    refl,
    λ notes' h. rw (← (write_note-ok notes' h).0) (stayed-IsForest e),
  )
  checked-IsForest fuel (some p) e other b le known = elim (Bool-cases (truthy (some p))) [
    | inl named ↦
        let (ds, found, v) =
          visits fuel height notes forest (forest.rank id) id [] b (ground arith, tt)
            (omega arith) in
        (
          throw_if (contains ds p) (forbidden "Cannot move a note to its own descendant")
              >> write_note id dto notes,
          rw (named, found) refl,
          λ notes' h.
              let (allowed, w) =
                >>-eq-ok
                  (throw_if (contains ds p) (forbidden "Cannot move a note to its own descendant"))
                  _ h in
              let below : contains ds p ≡ false = ground arith in
              let to : dto.parent_id ≡ some (some p) = given_parent dto.parent_id p e in
              let outside : contains (id ∷ ds) p ≡ false = rw (below, not_itself other p to) refl in
              rw (← (write_note-ok notes' w).0)
                (moved-IsForest p ds to outside (known p refl named) v),
        )
    | inr empty ↦ (
      write_note id dto notes,
      rw empty refl,
      λ notes' h.
          let absent : any (note_by_id p) notes ≡ false = unnamed p empty notes forest.named in
          let here : dangling (some p) notes ≡ false =
            subst (λ field. dangling field notes ≡ false) e (write_note-ok notes' h).1 in
          absurd (ground arith),
    )
  ]

-- In a forest an update of a note always answers, with fuel for one level more than the forest is
-- high; and what it writes is a forest again, unless the request makes the note its own parent.
pub update_note-IsForest :
    (height fuel : ℕ) (notes : List Note) (id user_id : String) (dto : UpdateNoteDto)
    → IsForest height notes
    → height < fuel
    → dto.parent_id ≢ some (some id)
    → (answer : Result (List Note)) × (update_note fuel id user_id dto notes ≡ some answer)
      × ((notes' : List Note) → answer ≡ ok notes' → IsForest (height + height) notes')
unfolding update_note
update_note-IsForest height fuel notes id user_id dto forest le other =
    answered (find_one id user_id notes) refl
  where
    parent_checked :
        (n : Note)
        → find_one id user_id notes ≡ ok n
        → (second : Result (Unit {0}))
        → check_parent (or_else dto.parent_id none) user_id notes ≡ second
        → (answer : Result (List Note)) × (update_note fuel id user_id dto notes ≡ some answer)
          × ((notes' : List Note) → answer ≡ ok notes' → IsForest (height + height) notes')
    parent_checked n h (err e) h' = (err e, rw (h, h') refl, λ notes' k. absurd (ground arith))
    parent_checked n h (ok u) h' =
        let (m, is_id, owner) = find_one-ok id user_id notes n h in
        let b : forest.rank id < height =
          subst (λ i. forest.rank i < height) is_id
            (All-at (λ (x : Note). forest.rank x.id < height) notes forest.bounded m) in
        let (answer, e, keeps) =
          checked-IsForest height notes forest id dto fuel (or_else dto.parent_id none) refl other b
            le
            (λ p k named.
              found_parent height notes forest user_id (or_else dto.parent_id none) p h' k named) in
        (answer, rw (h, h') e, keeps)

    answered :
        (first : Result Note)
        → find_one id user_id notes ≡ first
        → (answer : Result (List Note)) × (update_note fuel id user_id dto notes ≡ some answer)
          × ((notes' : List Note) → answer ≡ ok notes' → IsForest (height + height) notes')
    answered (err e) h = (err e, rw h refl, λ notes' k. absurd (ground arith))
    answered (ok n) h =
        parent_checked n h (check_parent (or_else dto.parent_id none) user_id notes) refl
