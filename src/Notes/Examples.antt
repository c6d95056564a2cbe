-- ===== src/Notes/Examples.antt =====
-- A table of two notes, and a text with markup.
use goal_slot_api.Base.{
  ℕ, ◌≡◌, refl, true, false, Option, none, some, List, [], ◌∷◌, String, str_eq, arith, All, Result,
  ok, err, forbidden, if◌then◌else◌,
}
use goal_slot_api.Notes.Store.{
  Note, UpdateNoteDto, find_one, check_parent, update_checked, get_descendant_ids, descendants_from,
  update_note,
}
use goal_slot_api.Notes.Forest.{IsForest}
use goal_slot_api.Notes.Move.{update_note-IsForest}
use goal_slot_api.Notes.Cycle.{update_note_to_itself}
use goal_slot_api.Notes.Text.{units}
use goal_slot_api.Notes.Escape.{escape_note_html, decode_note_entities}
use goal_slot_api.Notes.Escape.RoundTrip.{is_markup, decode-escape}
use goal_slot_api.Db.{Text}

abbrev note : String → Option String → Note
note id parent = record {
  id = id;
  title = [];
  content = [];
  icon = none;
  color = none;
  parent_id = parent;
  order = 0;
  is_expanded = true;
  is_favorite = false;
  public_share_token = none;
  user_id = "u1";
}

abbrev two_notes : List Note
two_notes = note "a" none ∷ note "b" (some "a") ∷ []

abbrev move_to : Option String → UpdateNoteDto
move_to parent = record {
  title = none;
  content = none;
  icon = none;
  color = none;
  parent_id = some parent;
  order = none;
  is_expanded = none;
  is_favorite = none;
}

abbrev rank : String → ℕ
rank id = if str_eq id "b" then 1 else 0

two_notes-IsForest : IsForest 2 two_notes
two_notes-IsForest = record {
  rank = rank;
  bounded = (omega arith, (omega arith, tt));
  below = (tt, (omega arith, tt));
  named = (refl, (refl, tt));
}

-- The parent cannot move below its child.
refused :
    update_note 3 "a" "u1" (move_to (some "b")) two_notes
    ≡ some (err (forbidden "Cannot move a note to its own descendant"))
unfolding update_note find_one check_parent update_checked get_descendant_ids descendants_from
refused = refl

update_note-IsForest_example :
    (answer : Result (List Note)) × (update_note 3 "b" "u1" (move_to none) two_notes ≡ some answer)
    × ((notes' : List Note) → answer ≡ ok notes' → IsForest 4 notes')
update_note-IsForest_example =
    update_note-IsForest 2 3 two_notes "b" "u1" (move_to none) two_notes-IsForest (omega arith)
      (λ e. cc)

found : find_one "b" "u1" two_notes ≡ ok (note "b" (some "a"))
unfolding find_one
found = refl

found_a : find_one "a" "u1" two_notes ≡ ok (note "a" none)
unfolding find_one
found_a = refl

update_note_to_itself_example :
    (notes' : List Note) × (update_note 3 "b" "u1" (move_to (some "b")) two_notes
      ≡ some (ok notes'))
    × ((more : ℕ)
        → (get_descendant_ids more notes' "b" ≡ none)
          × (update_note more "b" "u1" (move_to (some "a")) notes' ≡ none)
          × ((notes'' : List Note) × (update_note more "b" "u1" (move_to none) notes'
                ≡ some (ok notes''))))
update_note_to_itself_example =
    update_note_to_itself 2 3 two_notes "b" "u1" "a" (move_to (some "b")) (move_to (some "a"))
      (move_to none) (note "b" (some "a")) (note "a" none) two_notes-IsForest (omega arith) found
      refl found_a refl refl

abbrev markup : Text
markup = units "<b title='&amp;'>"

decode-escape_example :
    decode_note_entities (escape_note_html markup) ≡ markup
    × All (λ d. is_markup d ≡ false) (escape_note_html markup)
decode-escape_example = decode-escape markup
