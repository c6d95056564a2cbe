-- ===== src/Notes/Markup.antt =====
-- The lexical part of sanitizeSummaryHtml of src/modules/notes/note-content.ts: the escaping of a
-- text run, the end of a tag, and the attributes of a tag.
use goal_slot_api.Base.{
  ℕ, zero, suc, ◌+◌, Bool, true, false, not, ◌&&◌, ◌||◌, Option, none, some, List, [], ◌∷◌, ◌++◌,
  ◌==◌, leb, if◌then◌else◌, length, or_else,
}
use goal_slot_api.Db.{Text}
use goal_slot_api.Timer.Session.{is_space}
use goal_slot_api.Notes.Text.{
  units, text_eq, starts_with, drop, plus, trim, replace_all, is_digit, is_letter, to_lower, span,
}

abbrev is_hex : ℕ → Bool
is_hex c = is_digit c || (leb b'a' c && leb c b'f') || (leb b'A' c && leb c b'F')

abbrev is_alphanumeric : ℕ → Bool
is_alphanumeric c = is_letter c || is_digit c

-- A run of at least `least` and at most `most` units that pass the test, and then a `;`.
abbrev run_then_semicolon : (ℕ → Bool) → ℕ → ℕ → Text → Bool
run_then_semicolon test least most t =
    let (run, rest) = span test t in
    leb least (length run) && leb (length run) most && starts_with rest (units ";")

-- `[a-zA-Z][a-zA-Z0-9]{1,31};`
abbrev named_entity : Text → Bool
named_entity [] = false
named_entity (c ∷ cs) = is_letter c && run_then_semicolon is_alphanumeric 1 31 cs

-- What may follow an `&` that is left alone.
unfoldable pub begins_entity : Text → Bool
begins_entity t =
    (starts_with t (units "#") && run_then_semicolon is_digit 1 (length t) (drop 1 t))
    || (starts_with t (units "#x") && run_then_semicolon is_hex 1 (length t) (drop 2 t))
    || named_entity t

unfoldable pub escape_ampersands : Text → Text
escape_ampersands [] = []
escape_ampersands (c ∷ cs) =
    (if (c == b'&') && not (begins_entity cs) then units "&amp;" else c ∷ [])
    ++ escape_ampersands cs

unfoldable pub escape_summary_text : Text → Text
escape_summary_text text =
    replace_all b'>' (units "&gt;") (replace_all b'<' (units "&lt;") (escape_ampersands text))

-- The offset of the `>` that is in no quotation; the first argument is the open quotation mark.
unfoldable pub tag_end_from : Option ℕ → Text → Option ℕ
tag_end_from quote [] = none
tag_end_from (some q) (c ∷ cs) =
    let rest = tag_end_from (if c == q then none else some q) cs in plus 1 rest
tag_end_from none (c ∷ cs) =
    let rest = tag_end_from (if (c == b'"') || (c == b'\'') then some c else none) cs in
    if c == b'>' then some 0 else plus 1 rest

unfoldable pub find_tag_end : Text → ℕ → Option ℕ
find_tag_end html start = plus start (tag_end_from none (drop start html))

-- ATTRIBUTE_PATTERN, part by part: a name,
abbrev is_name_start : ℕ → Bool
is_name_start c = is_letter c || (c == b'_') || (c == b':')

abbrev is_name_unit : ℕ → Bool
is_name_unit c = is_name_start c || is_digit c || (c == b'-') || (c == b'.')

abbrev is_unquoted : ℕ → Bool
is_unquoted c = not (
    is_space c
    || (c == b'"')
    || (c == b'\'')
    || (c == b'=')
    || (c == b'<')
    || (c == b'>')
    || (c == 96))

-- a value in the given quotation marks, with the units that it takes,
abbrev quoted : ℕ → Text → Option (Text × ℕ)
quoted q t =
    let (run, rest) = span (λ c. not (c == q)) t in
    if starts_with rest (q ∷ []) then some (run, length run + 2) else none

abbrev unquoted : Text → Option (Text × ℕ)
unquoted t =
    let (run, rest) = span is_unquoted t in if text_eq run [] then none else some (run, length run)

abbrev value_at : Text → Option (Text × ℕ)
value_at [] = none
value_at (c ∷ cs) = if (c == b'"') || (c == b'\'') then quoted c cs else unquoted (c ∷ cs)

abbrev with_skipped : ℕ → Option (Text × ℕ) → Text × ℕ
with_skipped n none = ([], 0)
with_skipped n (some (value, k)) = (value, n + k)

-- and what follows the name: the value, empty where there is none.
abbrev after_equals : ℕ → Text → Text × ℕ
after_equals n [] = ([], 0)
after_equals n (c ∷ cs) =
    let (spaces, rest) = span is_space cs in
    if c == b'=' then with_skipped (n + (1 + length spaces)) (value_at rest) else ([], 0)

unfoldable pub attribute_value : Text → Text × ℕ
attribute_value t = let (spaces, rest) = span is_space t in after_equals (length spaces) rest

module _ (lower : Text → Text) where
  -- The loop of `exec`: `skip` units belong to the match before.
  unfoldable pub attributes_from : ℕ → Text → List (Text × Text)
  attributes_from skip [] = []
  attributes_from (suc skip) (c ∷ cs) = attributes_from skip cs
  attributes_from zero (c ∷ cs) =
      let (more, rest) = span is_name_unit cs in
      let (value, k) = attribute_value rest in
      elim (is_name_start c) [
        | true ↦ (lower (c ∷ more), value) ∷ attributes_from (length more + k) cs
        | false ↦ attributes_from zero cs
      ]

  unfoldable pub parse_attributes : Text → List (Text × Text)
  parse_attributes source = attributes_from 0 source

-- `attrs[name]`: the last value that was set.
unfoldable pub attribute : Text → List (Text × Text) → Option Text
attribute name [] = none
attribute name ((n, v) ∷ attrs) =
    let rest = attribute name attrs in
    elim rest [ some w ↦ some w | none ↦ if text_eq n name then some v else none ]

-- A prefix, whatever the case of its letters: the text is compared in lower case.
abbrev pub starts_with_i : Text → Text → Bool
starts_with_i t [] = true
starts_with_i [] (p ∷ ps) = false
starts_with_i (c ∷ cs) (p ∷ ps) = (to_lower c == p) && starts_with_i cs ps

-- SAFE_LINK_SCHEME
unfoldable pub safe_link_scheme : Text → Bool
safe_link_scheme href =
    starts_with_i href (units "http:")
    || starts_with_i href (units "https:")
    || starts_with_i href (units "mailto:")

unfoldable pub link_attributes : Text → Option Text
link_attributes href =
    if text_eq href [] || not (safe_link_scheme href)
    then none
    else some (
        units " href=\""
        ++ (replace_all b'"' (units "&quot;") (escape_summary_text href) ++ units "\""))

abbrev pub is_value : Option Text → Text → Bool
is_value none expected = false
is_value (some v) expected = text_eq v expected

-- `none` means that the tag is unwrapped.
unfoldable pub summary_attributes_for : Text → List (Text × Text) → Option Text
summary_attributes_for tag attrs =
    if text_eq tag (units "a")
    then link_attributes (trim (or_else (attribute (units "href") attrs) []))
    else if text_eq tag (units "ul")
        && is_value (attribute (units "data-type") attrs) (units "taskList")
    then some (units " data-type=\"taskList\"")
    else if text_eq tag (units "li")
        && is_value (attribute (units "data-type") attrs) (units "taskItem")
    then some (
        units " data-type=\"taskItem\" data-checked=\""
        ++ ((if is_value (attribute (units "data-checked") attrs) (units "true")
              then units "true"
              else units "false")
            ++ units "\""))
    else some []
