-- ===== src/Notes/Summary/Grammar.antt =====
-- The HTML that a summary may hold, as a grammar of its own.
use goal_slot_api.Base.{
  ℕ, ◌≡◌, sym, ap, subst, ◌∙◌, Bool, true, false, List, [], ◌∷◌, ◌++◌, ◌==◌, if◌then◌else◌, All,
}
use goal_slot_api.Db.{Text}
use goal_slot_api.Notes.Text.{units, text_eq, one_of}
use goal_slot_api.Notes.Markup.{safe_link_scheme}
use goal_slot_api.Notes.Summary.{summary_allowed_tags, summary_void_tags, start_tag, end_tag}
use mathlib.Core.List.{append_assoc, append-nil}

abbrev pub Without : ℕ → Text → Type 0
Without c t = All (λ x. (x == c) ≡ false) t

-- The attributes of an element: none; those of a checklist; or the address of a link.
pub data SafeAttributes : Text → Text → Type 0 where
  bare :
      {tag : Text}
      → one_of summary_allowed_tags tag ≡ true
      → one_of summary_void_tags tag ≡ false
      → text_eq tag (units "a") ≡ false
      → SafeAttributes tag []
  task_list : SafeAttributes (units "ul") (units " data-type=\"taskList\"")
  task_item :
      (checked : Bool)
      → SafeAttributes (units "li") (
          units " data-type=\"taskItem\" data-checked=\""
          ++ ((if checked then units "true" else units "false") ++ units "\""))
  link :
      (url : Text)
      → safe_link_scheme url ≡ true
      → Without b'<' url
      → Without b'>' url
      → Without b'"' url
      → SafeAttributes (units "a") (units " href=\"" ++ (url ++ units "\""))

-- Text without markup, line breaks, and elements that are closed around what they hold.
pub data Fragment : Text → Type 0 where
  run : {t : Text} → Without b'<' t → Without b'>' t → Fragment t
  line_break : Fragment (start_tag (units "br") [])
  element :
      {tag attrs inner : Text}
      → SafeAttributes tag attrs
      → Fragment inner
      → Fragment (start_tag tag attrs ++ (inner ++ end_tag tag))
  sequence : {s t : Text} → Fragment s → Fragment t → Fragment (s ++ t)

-- A fragment that is cut short inside the named elements, the innermost one first.
abbrev pub Within : List Text → Text → Type 0
Within [] t = Fragment t
Within (tag ∷ names) t =
    (outer : Text) × (attrs : Text) × (inner : Text) × Within names outer
    × SafeAttributes tag attrs
    × Fragment inner
    × (t ≡ outer ++ (start_tag tag attrs ++ inner))

pub Within-append :
    (names : List Text) (t u : Text) → Within names t → Fragment u → Within names (t ++ u)
Within-append [] t u w f = sequence w f
Within-append (tag ∷ names) t u (outer, attrs, inner, w, safe, f', e) f = (
  outer,
  attrs,
  inner ++ u,
  w,
  safe,
  sequence f' f,
  ap (λ x. x ++ u) e
      ∙ (append_assoc outer (start_tag tag attrs ++ inner) u
          ∙ ap (λ x. outer ++ x) (append_assoc (start_tag tag attrs) inner u)),
)

pub Within-open :
    (names : List Text) (t tag attrs : Text)
    → Within names t
    → SafeAttributes tag attrs
    → Within (tag ∷ names) (t ++ start_tag tag attrs)
Within-open names t tag attrs w safe =
    (t, attrs, [], w, safe, run tt tt, ap (λ x. t ++ x) (sym (append-nil (start_tag tag attrs))))

pub Within-close :
    (names : List Text) (t tag : Text) → Within (tag ∷ names) t → Within names (t ++ end_tag tag)
Within-close names t tag (outer, attrs, inner, w, safe, f, e) =
    let shape : outer ++ (start_tag tag attrs ++ (inner ++ end_tag tag)) ≡ t ++ end_tag tag = sym (
      ap (λ x. x ++ end_tag tag) e
      ∙ (append_assoc outer (start_tag tag attrs ++ inner) (end_tag tag)
          ∙ ap (λ x. outer ++ x) (append_assoc (start_tag tag attrs) inner (end_tag tag)))) in
    subst (Within names) shape
      (Within-append names outer (start_tag tag attrs ++ (inner ++ end_tag tag)) w (element safe f))
