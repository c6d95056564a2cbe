-- ===== src/Notes/Escape.antt =====
-- The escaping of src/modules/notes/note-content.ts and its inverse.
pub mod RoundTrip
use goal_slot_api.Base.{
  ℕ, zero, suc, ◌+◌, ◌≡◌, ◌≢◌, refl, sym, ap, ◌∙◌, Bool, true, false, ◌&&◌, ◌||◌, inl, inr, Option,
  none, some, List, [], ◌∷◌, ◌++◌, arith, ◌==◌, if◌then◌else◌, All, All-append, Bool-cases, ==_iff,
}
use goal_slot_api.Db.{Text}
use goal_slot_api.Notes.Text.{units, text_eq, starts_with, trim, replace_all}

unfoldable pub normalize_note_content : Text → Text
normalize_note_content content =
    if text_eq (trim content) [] || text_eq (trim content) (units "[]") then [] else content

-- The five replacements in the order of the source.
unfoldable pub escape_note_html : Text → Text
escape_note_html text = replace_all b'\'' (units "&#39;") (
    replace_all b'"' (units "&quot;") (
      replace_all b'>' (units "&gt;")
        (replace_all b'<' (units "&lt;") (replace_all b'&' (units "&amp;") text))))

unfoldable pub append_note_paragraph : Text → Text → Text
append_note_paragraph existing addition =
    normalize_note_content existing ++ (units "<p>" ++ (escape_note_html addition ++ units "</p>"))

-- The entity at the head of a text: its character, and how many units follow its `&`.
unfoldable pub entity_at : Text → Option (ℕ × ℕ)
entity_at t =
    if starts_with t (units "&amp;")
    then some (b'&', 4)
    else if starts_with t (units "&lt;")
    then some (b'<', 3)
    else if starts_with t (units "&gt;")
    then some (b'>', 3)
    else if starts_with t (units "&quot;")
    then some (b'"', 5)
    else if starts_with t (units "&#39;")
    then some (b'\'', 4)
    else if starts_with t (units "&nbsp;")
    then some (b' ', 5)
    else none

-- One scan: `skip` units belong to an entity that is already decoded.
unfoldable pub decode_from : ℕ → Text → Text
decode_from skip [] = []
decode_from (suc skip) (c ∷ cs) = decode_from skip cs
decode_from zero (c ∷ cs) = elim (entity_at (c ∷ cs)) [
  | none ↦ c ∷ decode_from zero cs
  | some (e, n) ↦ e ∷ decode_from n cs
]

unfoldable pub decode_note_entities : Text → Text
decode_note_entities t = decode_from 0 t
