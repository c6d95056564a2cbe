-- ===== src/Notes/Store.antt =====
-- The writes of src/modules/notes/notes.service.ts on the table of notes. `order` is taken to be no
-- negative number. The statements of one call run with no other request between them.
use goal_slot_api.Base.{
  ℕ, zero, suc, ◌+◌, max, Bool, true, false, not, ◌&&◌, Option, none, some, List, [], ◌∷◌, ◌++◌,
  String, str_eq, find, filter, any, length, update_where, delete_where, or_else, if◌then◌else◌,
  not_found, forbidden, unique_violation, foreign_key_violation, Result, ok, err, ◌>>=◌, ◌>>◌,
  throw_if, is_some,
}
use goal_slot_api.Db.{Text, truthy}

pub record Note : Type 0 where
  pub id : String
  pub title : Text
  pub content : Text
  pub icon : Option String
  pub color : Option String
  pub parent_id : Option String
  pub order : ℕ
  pub is_expanded : Bool
  pub is_favorite : Bool
  pub public_share_token : Option String
  pub user_id : String

abbrev pub note_by_id : String → Note → Bool
note_by_id id n = str_eq n.id id

abbrev pub found_for : String → Option Note → Result Note
found_for user_id none = err (not_found "Note not found")
found_for user_id (some n) =
    if str_eq n.user_id user_id then ok n else err (forbidden "You do not have access to this note")

unfoldable pub find_one : String → String → List Note → Result Note
find_one id user_id notes = found_for user_id (find (note_by_id id) notes)

-- The parent that a request names, where it names one: `if (dto.parentId) await findOne(...)`.
unfoldable pub check_parent : Option String → String → List Note → Result (Unit {0})
check_parent none user_id notes = ok tt
check_parent (some p) user_id notes =
    if truthy (some p) then (find_one p user_id notes >>= λ n. ok tt) else ok tt

-- A key that the table does not hold.
abbrev pub dangling : Option String → List Note → Bool
dangling none notes = false
dangling (some p) notes = not (any (note_by_id p) notes)

abbrev same_key_column : Option String → Option String → Bool
same_key_column none none = true
same_key_column (some a) (some b) = str_eq a b
same_key_column _ _ = false

-- `_max.order ?? -1`, plus one.
unfoldable pub next_order : String → Option String → List Note → ℕ
next_order user_id parent [] = 0
next_order user_id parent (n ∷ ns) =
    let rest = next_order user_id parent ns in
    if str_eq n.user_id user_id && same_key_column n.parent_id parent
    then max (n.order + 1) rest
    else rest

pub record CreateNoteDto : Type 0 where
  pub id : Option String
  pub title : Text
  pub content : Option Text
  pub icon : Option String
  pub color : Option String
  pub parent_id : Option String

-- "[]"
abbrev empty_blocks : Text
empty_blocks = 91 ∷ 93 ∷ []

-- `dto.content || '[]'`
abbrev content_or_blocks : Option Text → Text
content_or_blocks none = empty_blocks
content_or_blocks (some []) = empty_blocks
content_or_blocks (some (c ∷ cs)) = c ∷ cs

-- `dto.parentId || null`
abbrev nonempty : Option String → Option String
nonempty key = if truthy key then key else none

unfoldable pub new_note : String → String → CreateNoteDto → List Note → Note
new_note fresh_id user_id dto notes = record {
  id = or_else dto.id fresh_id;
  title = dto.title;
  content = content_or_blocks dto.content;
  icon = dto.icon;
  color = dto.color;
  parent_id = nonempty dto.parent_id;
  order = next_order user_id (nonempty dto.parent_id) notes;
  is_expanded = true;
  is_favorite = false;
  public_share_token = none;
  user_id = user_id;
}

unfoldable pub create_note : String → String → CreateNoteDto → List Note → Result (List Note)
create_note fresh_id user_id dto notes = do
  check_parent dto.parent_id user_id notes
  throw_if (any (note_by_id (or_else dto.id fresh_id)) notes) unique_violation
  ok (notes ++ new_note fresh_id user_id dto notes ∷ [])

abbrev pub contains : List String → String → Bool
contains ids id = any (λ i. str_eq i id) ids

abbrev pub child_of : List String → Note → Bool
child_of ids n = elim n.parent_id [ none ↦ false | some p ↦ contains ids p ]

abbrev pub ids_of : List Note → List String
ids_of [] = []
ids_of (n ∷ ns) = n.id ∷ ids_of ns

-- The loop of `getDescendantIds`: `none` means that the fuel ran out.
unfoldable pub descendants_from : ℕ → List Note → List String → Option (List String)
descendants_from zero notes frontier = none
descendants_from (suc fuel) notes frontier = elim (ids_of (filter (child_of frontier) notes)) [
  | [] ↦ some []
  | c ∷ cs ↦ elim (descendants_from fuel notes (c ∷ cs)) [
    | none ↦ none
    | some rest ↦ some (c ∷ cs ++ rest)
  ]
]

unfoldable pub get_descendant_ids : ℕ → List Note → String → Option (List String)
get_descendant_ids fuel notes id = descendants_from fuel notes (id ∷ [])

-- `UpdateNoteDto`: `none` is a field left out; for the parent `some none` is null.
pub record UpdateNoteDto : Type 0 where
  pub title : Option Text
  pub content : Option Text
  pub icon : Option String
  pub color : Option String
  pub parent_id : Option (Option String)
  pub order : Option ℕ
  pub is_expanded : Option Bool
  pub is_favorite : Option Bool

unfoldable pub apply_note_update : UpdateNoteDto → Note → Note
apply_note_update dto n = record n {
  title = or_else dto.title n.title;
  content = or_else dto.content n.content;
  icon = if is_some dto.icon then dto.icon else n.icon;
  color = if is_some dto.color then dto.color else n.color;
  parent_id = or_else dto.parent_id n.parent_id;
  order = or_else dto.order n.order;
  is_expanded = or_else dto.is_expanded n.is_expanded;
  is_favorite = or_else dto.is_favorite n.is_favorite;
}

-- The write of `update`, with the foreign key of the parent.
unfoldable pub write_note : String → UpdateNoteDto → List Note → Result (List Note)
write_note id dto notes = do
  throw_if (dangling (or_else dto.parent_id none) notes) foreign_key_violation
  ok (update_where (note_by_id id) (apply_note_update dto) notes)

abbrev move_checked :
    String → UpdateNoteDto → List Note → String → Option (List String) → Option (Result (List Note))
move_checked id dto notes p none = none
move_checked id dto notes p (some descendants) = some (
    throw_if (contains descendants p) (forbidden "Cannot move a note to its own descendant")
    >> write_note id dto notes)

-- What follows the two `findOne`s.
unfoldable pub update_checked :
    ℕ → String → UpdateNoteDto → List Note → Option String → Option (Result (List Note))
update_checked fuel id dto notes none = some (write_note id dto notes)
update_checked fuel id dto notes (some p) =
    if truthy (some p)
    then move_checked id dto notes p (get_descendant_ids fuel notes id)
    else some (write_note id dto notes)

abbrev pub update_found_note :
    ℕ → String → UpdateNoteDto → List Note → Result (Unit {0}) → Option (Result (List Note))
update_found_note fuel id dto notes (err e) = some (err e)
update_found_note fuel id dto notes (ok u) =
    update_checked fuel id dto notes (or_else dto.parent_id none)

-- `fuel` bounds the levels that `getDescendantIds` visits.
unfoldable pub update_note :
    ℕ → String → String → UpdateNoteDto → List Note → Option (Result (List Note))
update_note fuel id user_id dto notes =
    update_found_note fuel id dto notes
      (find_one id user_id notes >>= λ n. check_parent (or_else dto.parent_id none) user_id notes)

-- The rows that the deletion of `ids` takes with it (`onDelete: Cascade` of the parent), after as
-- many rounds as there are rows.
unfoldable pub cascade : ℕ → List Note → List String → List String
cascade zero notes ids = ids
cascade (suc rounds) notes ids =
    let rest = cascade rounds notes (ids ++ ids_of (filter (child_of ids) notes)) in rest

unfoldable pub delete_note : String → String → List Note → Result (List Note)
delete_note id user_id notes = find_one id user_id notes >>= λ n.
    ok (delete_where (λ m. contains (cascade (length notes) notes (id ∷ [])) m.id) notes)

pub record ReorderNotesDto : Type 0 where
  pub note_id : String
  pub parent_id : Option String
  pub order : ℕ

abbrev pub Items : Type 0
Items = List ReorderNotesDto

-- The checks of all parents that the items name.
unfoldable pub check_parents : String → Items → List Note → Result (Unit {0})
check_parents user_id [] notes = ok tt
check_parents user_id (item ∷ items) notes =
    let rest = check_parents user_id items notes in
    check_parent item.parent_id user_id notes >> rest

abbrev owned_note : String → String → Note → Bool
owned_note user_id id n = str_eq n.id id && str_eq n.user_id user_id

unfoldable pub place : ReorderNotesDto → Note → Note
place item n = record n { parent_id = item.parent_id; order = item.order }

-- The updates of `reorder`, in one transaction.
unfoldable pub place_all : String → Items → List Note → Result (List Note)
place_all user_id [] notes = ok notes
place_all user_id (item ∷ items) notes =
    let rest =
      place_all user_id items (update_where (owned_note user_id item.note_id) (place item) notes) in
    throw_if (any (owned_note user_id item.note_id) notes && dangling item.parent_id notes)
      foreign_key_violation
    >> rest

unfoldable pub reorder_notes : String → Items → List Note → Result (List Note)
reorder_notes user_id items notes =
    check_parents user_id items notes >> place_all user_id items notes
