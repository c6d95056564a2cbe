-- ===== src/Notes/Cycle.antt =====
-- A note that is moved to itself: the walk below it, and the later moves of the note.
use goal_slot_api.Base.{
  ℕ, zero, suc, ◌<◌, ◌≡◌, refl, sym, ap, subst, ◌∙◌, Bool, true, false, inl, inr, Option, none,
  some, List, [], ◌∷◌, String, str_eq, arith, eq_iff, eq_refl, filter, any, update_where, updated,
  Memᴰ, Memᴰ-update_where, All-at, Bool-cases, ok, ◌>>=◌, ◌>>◌, or_else, throw_if,
  foreign_key_violation,
}
use goal_slot_api.Notes.Store.{
  Note, note_by_id, found_for, find_one, check_parent, dangling, contains, child_of, ids_of,
  descendants_from, get_descendant_ids, UpdateNoteDto, apply_note_update, write_note,
  update_checked, update_found_note, update_note,
}
use goal_slot_api.Notes.Forest.{IsForest, visits, contains-ids_of, rank_of_contained}
use goal_slot_api.Notes.Lookups.{find_one-ok}

walks_forever :
    (fuel : ℕ) (notes : List Note) (m : Note) (id : String) (frontier : List String)
    → Memᴰ m notes
    → m.id ≡ id
    → m.parent_id ≡ some id
    → contains frontier id ≡ true
    → descendants_from fuel notes frontier ≡ none
unfolding descendants_from
walks_forever zero notes m id frontier mem same parent c = refl
walks_forever (suc fuel) notes m id frontier mem same parent c =
    level (ids_of (filter (child_of frontier) notes)) refl
      (subst (λ i. contains (ids_of (filter (child_of frontier) notes)) i ≡ true) same
        (contains-ids_of (child_of frontier) notes m mem (rw parent c)))
      (λ next h. walks_forever fuel notes m id next mem same parent h)
  where
    level :
        (next : List String)
        → ids_of (filter (child_of frontier) notes) ≡ next
        → contains next id ≡ true
        → ((deeper : List String)
            → contains deeper id ≡ true
            → descendants_from fuel notes deeper ≡ none)
        → descendants_from (suc fuel) notes frontier ≡ none
    level [] e h go = absurd (ground arith)
    level (x ∷ xs) e h go = rw (e, descendants_from, go (x ∷ xs) h) refl

any_of_mem :
    (p : Note → Bool) (ns : List Note) (n : Note) → Memᴰ n ns → p n ≡ true → any p ns ≡ true
any_of_mem p [] n m h = elim m [ ]
any_of_mem p (x ∷ xs) n (Memᴰ.head e) h = rw (← e, h) refl
any_of_mem p (x ∷ xs) n (Memᴰ.tail m) h = let rest = any_of_mem p xs n m h in ground arith

updated_id :
    (id : String) (dto : UpdateNoteDto) (n : Note)
    → n.id ≡ id
    → (updated (note_by_id id) (apply_note_update dto) n).id ≡ id
unfolding apply_note_update
updated_id id dto n e = ground (arith, eq_iff n.id id)

updated_parent :
    (id : String) (dto : UpdateNoteDto) (n : Note)
    → n.id ≡ id
    → dto.parent_id ≡ some (some id)
    → (updated (note_by_id id) (apply_note_update dto) n).parent_id ≡ some id
unfolding apply_note_update
updated_parent id dto n e to = ground (arith, eq_iff n.id id)

checked_to_itself :
    (fuel : ℕ) (notes : List Note) (id user_id : String) (dto : UpdateNoteDto) (n : Note)
    (ds : List String)
    → find_one id user_id notes ≡ ok n
    → str_eq id "" ≡ false
    → get_descendant_ids fuel notes id ≡ some ds
    → contains ds id ≡ false
    → write_note id dto notes ≡ ok (update_where (note_by_id id) (apply_note_update dto) notes)
    → (field : Option String) → some id ≡ field
    → update_found_note fuel id dto notes
          (find_one id user_id notes >>= λ _. check_parent field user_id notes)
        ≡ update_checked fuel id dto notes (or_else dto.parent_id none)
      × (update_checked fuel id dto notes field
          ≡ some (ok (update_where (note_by_id id) (apply_note_update dto) notes)))
unfolding update_checked check_parent
checked_to_itself fuel notes id user_id dto n ds found filled walked above written field e =
    rw (← e) (rw (found, filled) refl, rw (filled, walked, above, written) refl)

-- The table after the write of an update.
abbrev rewritten : String → UpdateNoteDto → List Note → List Note
rewritten id dto notes = update_where (note_by_id id) (apply_note_update dto) notes

-- A note that a request may see is seen after a write, which changes no owner.
find_one-rewritten :
    (id p user_id : String) (dto : UpdateNoteDto) (notes : List Note) (q : Note)
    → find_one p user_id notes ≡ ok q
    → find_one p user_id (rewritten id dto notes)
      ≡ ok (updated (note_by_id id) (apply_note_update dto) q)
unfolding find_one apply_note_update
find_one-rewritten id p user_id dto [] q h = cc
find_one-rewritten id p user_id dto (x ∷ xs) q h = elim (Bool-cases (note_by_id p x)) [
  | inl hit ↦
      let h' : found_for user_id (some x) ≡ ok q = rw hit at h in
      let same : x ≡ q = ground arith in
      let owner : str_eq x.user_id user_id ≡ true = ground arith in
      rw (← same) (elim (Bool-cases (note_by_id id x)) [
        | inl written ↦ rw (written, hit, owner) refl
        | inr kept ↦ rw (kept, hit, owner) refl
      ])
  | inr miss ↦
      let later = find_one-rewritten id p user_id dto xs q (rw miss at h) in
      elim (Bool-cases (note_by_id id x)) [
        | inl written ↦ rw (written, miss) later
        | inr kept ↦ rw (kept, miss) later
      ]
]

move_from_itself :
    (more : ℕ) (notes : List Note) (id user_id p : String) (dto : UpdateNoteDto) (n q : Note)
    → ((more : ℕ) → get_descendant_ids more notes id ≡ none)
    → find_one id user_id notes ≡ ok n
    → find_one p user_id notes ≡ ok q
    → str_eq p "" ≡ false
    → (field : Option String) → some p ≡ field
    → update_found_note more id dto notes
          (find_one id user_id notes >>= λ _. check_parent field user_id notes)
        ≡ update_checked more id dto notes (or_else dto.parent_id none)
      × (update_checked more id dto notes field ≡ none)
unfolding update_checked check_parent
move_from_itself more notes id user_id p dto n q forever found parent named field e =
    rw (← e) (rw (found, named, parent) refl, rw (named, forever more) refl)

move_to_root :
    (more : ℕ) (notes : List Note) (id user_id : String) (dto : UpdateNoteDto) (n : Note)
    → find_one id user_id notes ≡ ok n
    → (field : Option String) → none ≡ field
    → update_found_note more id dto notes
          (find_one id user_id notes >>= λ _. check_parent field user_id notes)
        ≡ update_checked more id dto notes (or_else dto.parent_id none)
      × (update_checked more id dto notes field ≡ some (write_note id dto notes))
      × ((throw_if (dangling field notes) foreign_key_violation >> ok (rewritten id dto notes))
          ≡ ok (rewritten id dto notes))
unfolding update_checked check_parent
move_to_root more notes id user_id dto n found field e = rw (← e) (rw found refl, refl, refl)

written_to_itself :
    (height fuel : ℕ) (notes : List Note) (id user_id : String) (dto : UpdateNoteDto) (n : Note)
    → IsForest height notes
    → height < fuel
    → find_one id user_id notes ≡ ok n
    → dto.parent_id ≡ some (some id)
    → (update_note fuel id user_id dto notes ≡ some (ok (rewritten id dto notes)))
      × ((more : ℕ) → get_descendant_ids more (rewritten id dto notes) id ≡ none)
unfolding update_note get_descendant_ids write_note
written_to_itself height fuel notes id user_id dto n forest le found to =
    let (m, is_id, owner) = find_one-ok id user_id notes n found in
    let b : forest.rank id < height =
      subst (λ i. forest.rank i < height) is_id
        (All-at (λ (x : Note). forest.rank x.id < height) notes forest.bounded m) in
    let filled : str_eq id "" ≡ false =
      subst (λ i. str_eq i "" ≡ false) is_id
        (All-at (λ (x : Note). str_eq x.id "" ≡ false) notes forest.named m) in
    let (ds, walked, v) =
      visits fuel height notes forest (forest.rank id) id [] b (ground arith, tt) (omega arith) in
    let f = apply_note_update dto in
    let not_below : contains ds id ≡ false = elim (Bool-cases (contains ds id)) [
      | inl below ↦
          absurd (
            omega (arith, rank_of_contained forest.rank (suc (forest.rank id)) ds id v.lower below))
      | inr above ↦ above
    ] in
    let here : any (note_by_id id) notes ≡ true =
      any_of_mem (note_by_id id) notes n m (rw is_id (eq_refl id)) in
    let written : write_note id dto notes ≡ ok (update_where (note_by_id id) f notes) =
      subst
        (λ field.
          (throw_if (dangling field notes) foreign_key_violation
            >> ok (update_where (note_by_id id) f notes))
          ≡ ok (update_where (note_by_id id) f notes))
        (ap (λ (o : Option (Option String)). or_else o none) (sym to)) (rw here refl) in
    let (first, second) =
      checked_to_itself fuel notes id user_id dto n ds found filled walked not_below written
        (or_else dto.parent_id none)
        (ap (λ (o : Option (Option String)). or_else o none) (sym to)) in
    (
      first ∙ second,
      λ more.
          walks_forever more (update_where (note_by_id id) f notes) (updated (note_by_id id) f n) id
            (id ∷ []) (Memᴰ-update_where (note_by_id id) f notes m) (updated_id id dto n is_id)
            (updated_parent id dto n is_id to) (rw (eq_refl id) refl),
    )

-- In a forest a request of its owner that makes a note its own parent succeeds, and in the table
-- that it leaves the walk over the descendants of that note ends with no amount of fuel: a later
-- move of the note below a note of the owner never answers, while a move to the root still does.
pub update_note_to_itself :
    (height fuel : ℕ) (notes : List Note) (id user_id p : String)
    (dto below to_root : UpdateNoteDto) (n q : Note)
    → IsForest height notes
    → height < fuel
    → find_one id user_id notes ≡ ok n
    → dto.parent_id ≡ some (some id)
    → find_one p user_id notes ≡ ok q
    → below.parent_id ≡ some (some p)
    → to_root.parent_id ≡ some none
    → (notes' : List Note) × (update_note fuel id user_id dto notes ≡ some (ok notes'))
      × ((more : ℕ)
          → (get_descendant_ids more notes' id ≡ none)
            × (update_note more id user_id below notes' ≡ none)
            × ((notes'' : List Note) × (update_note more id user_id to_root notes'
                  ≡ some (ok notes''))))
unfolding update_note write_note
update_note_to_itself height fuel notes id user_id p dto below to_root n q forest le found to parent
      to_p leaves =
    let notes' = rewritten id dto notes in
    let (done, forever) = written_to_itself height fuel notes id user_id dto n forest le found to in
    let (m, is_p, owner) = find_one-ok p user_id notes q parent in
    let named : str_eq p "" ≡ false =
      subst (λ i. str_eq i "" ≡ false) is_p
        (All-at (λ (x : Note). str_eq x.id "" ≡ false) notes forest.named m) in
    let found' = find_one-rewritten id id user_id dto notes n found in
    let parent' = find_one-rewritten id p user_id dto notes q parent in
    (
      notes',
      done,
      λ more.
          let (first, second) =
            move_from_itself more notes' id user_id p below _ _ forever found' parent' named
              (or_else below.parent_id none)
              (ap (λ (o : Option (Option String)). or_else o none) (sym to_p)) in
          let (root, writes, kept) =
            move_to_root more notes' id user_id to_root _ found' (or_else to_root.parent_id none)
              (ap (λ (o : Option (Option String)). or_else o none) (sym leaves)) in
          (
            forever more,
            first ∙ second,
            (rewritten id to_root notes', root ∙ writes ∙ ap some kept),
          ),
    )
