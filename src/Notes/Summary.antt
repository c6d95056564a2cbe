-- ===== src/Notes/Summary.antt =====
-- sanitizeSummaryHtml of src/modules/notes/note-content.ts.
pub mod Grammar
pub mod Escaped
pub mod Rounds
pub mod Pieces
pub mod Sound
pub mod Accepted
pub mod Examples
use goal_slot_api.Base.{
  ℕ, zero, suc, ◌+◌, ◌≡◌, refl, Bool, true, false, not, ◌&&◌, ◌||◌, Option, none, some, List, [],
  ◌∷◌, ◌++◌, String, ◌==◌, ltb, if◌then◌else◌, length,
}
use goal_slot_api.Db.{Text}
use goal_slot_api.Notes.Text.{
  units, text_eq, one_of, starts_with, drop, slice, index_of, trim, plus, offset_of, is_digit,
  is_letter, span,
}
use goal_slot_api.Notes.Markup.{
  escape_summary_text, find_tag_end, parse_attributes, summary_attributes_for,
}

abbrev pub summary_allowed_tags : List String
summary_allowed_tags =
    "h1" ∷ "h2" ∷ "h3" ∷ "p" ∷ "ul" ∷ "ol" ∷ "li" ∷ "blockquote" ∷ "strong" ∷ "em" ∷ "u" ∷ "s"
    ∷ "code" ∷ "a" ∷ "mark" ∷ "br" ∷ []

abbrev pub summary_void_tags : List String
summary_void_tags = "br" ∷ []

abbrev pub summary_unwrap_tags : List String
summary_unwrap_tags =
    "div" ∷ "span" ∷ "section" ∷ "article" ∷ "main" ∷ "header" ∷ "footer" ∷ "figure" ∷ "body"
    ∷ "html" ∷ "small" ∷ "font" ∷ []

abbrev pub summary_drop_tags : List String
summary_drop_tags = "hr" ∷ "img" ∷ "wbr" ∷ []

abbrev pub summary_drop_with_content : List String
summary_drop_with_content = "script" ∷ "style" ∷ "template" ∷ []

-- `SUMMARY_TAG_ALIASES[raw] ?? raw`. The two names that every JavaScript object inherits in lower case
-- (`constructor`, `__proto__`) are names of no tag here, and are refused as such.
unfoldable pub alias : Text → Text
alias raw =
    if text_eq raw (units "b")
    then units "strong"
    else if text_eq raw (units "i")
    then units "em"
    else if one_of ("del" ∷ "strike" ∷ []) raw
    then units "s"
    else if text_eq raw (units "ins")
    then units "u"
    else if one_of ("h4" ∷ "h5" ∷ "h6" ∷ []) raw
    then units "h3"
    else raw

pub record OpenTag : Type 0 where
  pub name : Text
  pub emitted : Bool

-- The variables of the loop; the head of the stack is the element that was pushed last.
pub record Scan : Type 0 where
  pub index : ℕ
  pub stack : List OpenTag
  pub out : List Text

pub data SanitizeSummaryHtmlResult : Type 0 where
  sanitized : Text → SanitizeSummaryHtmlResult
  rejected : Text → SanitizeSummaryHtmlResult

-- How one round of the loop ends: in a return, before the next round, or in the break.
pub data Round : Type 0 where
  refused : Text → Round
  continued : Scan → Round
  ended : Scan → Round

-- The return of the source where a search or a match comes back empty.
abbrev pub or_refuse {ℓ} : {A : Type ℓ} → Text → (A → Round) → Option A → Round
or_refuse reason go none = refused reason
or_refuse reason go (some a) = go a

abbrev pub emit : Text → Scan → Scan
emit t s = record s { out = s.out ++ t ∷ [] }

abbrev pub push : Text → Bool → Scan → Scan
push name emitted s = record s { stack = record { name = name; emitted = emitted } ∷ s.stack }

abbrev pub jump : ℕ → Scan → Scan
jump i s = record s { index = i }

abbrev pub end_tag : Text → Text
end_tag name = units "</" ++ (name ++ units ">")

abbrev pub start_tag : Text → Text → Text
start_tag name attrs = units "<" ++ (name ++ (attrs ++ units ">"))

-- `stack.pop()` and what follows it.
unfoldable pub close_top : Text → Text → List OpenTag → Scan → Round
close_top name raw [] s =
    refused (units "closing </" ++ (raw ++ units "> does not match the open element"))
close_top name raw (top ∷ rest) s =
    if text_eq top.name name
    then continued (
        if top.emitted
        then emit (end_tag name) (record s { stack = rest })
        else record s { stack = rest })
    else refused (units "closing </" ++ (raw ++ units "> does not match the open element"))

-- `/^([a-zA-Z][a-zA-Z0-9-]*)/`
abbrev pub tag_name : Text → Option Text
tag_name [] = none
tag_name (c ∷ cs) =
    let (more, rest) = span (λ d. is_letter d || is_digit d || (d == b'-')) cs in
    if is_letter c then some (c ∷ more) else none

abbrev pub ends_with_slash : Text → Bool
ends_with_slash [] = false
ends_with_slash (c ∷ []) = c == b'/'
ends_with_slash (c ∷ d ∷ ds) = ends_with_slash (d ∷ ds)

-- `inner.slice(0, -1)`
abbrev pub without_last : Text → Text
without_last [] = []
without_last (c ∷ []) = []
without_last (c ∷ d ∷ ds) = c ∷ without_last (d ∷ ds)

-- An allowed element, by what its attributes became.
unfoldable pub open_element : Text → Option Text → Bool → Scan → Scan
open_element name none self_closing s = if self_closing then s else push name false s
open_element name (some attrs) self_closing s =
    if self_closing
    then emit (start_tag name attrs ++ end_tag name) s
    else emit (start_tag name attrs) (push name true s)

abbrev pub after_tag : Text → Option ℕ → ℕ
after_tag source none = length source
after_tag source (some close_end) = close_end + 1

-- The text before the tag at `lt`, where there is some.
abbrev pub emit_text : Text → ℕ → Scan → Scan
emit_text source lt s =
    if ltb s.index lt then emit (escape_summary_text (slice source s.index lt)) s else s

unfoldable pub comment_at : Text → ℕ → Scan → Round
comment_at source lt s =
    or_refuse (units "unterminated comment") (λ k. continued (jump (k + 3) s))
      (index_of source (units "-->") (lt + 4))

unfoldable pub declaration_at : Text → ℕ → Scan → Round
declaration_at source lt s =
    or_refuse (units "unterminated declaration") (λ k. continued (jump (k + 1) s))
      (find_tag_end source (lt + 2))

-- `/<[^>]*>/g` replaced by nothing: `skip` units belong to the match before.
unfoldable pub strip_from : ℕ → Text → Text
strip_from skip [] = []
strip_from (suc skip) (c ∷ cs) = strip_from skip cs
strip_from zero (c ∷ cs) = elim (if c == b'<' then offset_of (units ">") cs else none) [
  | none ↦ c ∷ strip_from zero cs
  | some k ↦ strip_from (suc k) cs
]

abbrev pub join : List Text → Text
join [] = []
join (t ∷ ts) = t ++ join ts

-- What follows the loop.
unfoldable pub finish : Scan → List OpenTag → SanitizeSummaryHtmlResult
finish s (top ∷ rest) =
    rejected (units "<" ++ (top.name ++ units "> is never closed, so the response was cut short"))
finish s [] =
    if text_eq (trim (strip_from 0 (trim (join s.out)))) []
    then rejected (units "the summary has no text in it")
    else sanitized (trim (join s.out))

abbrev pub after_round :
    (Scan → Option SanitizeSummaryHtmlResult) → Round → Option SanitizeSummaryHtmlResult
after_round again (refused reason) = some (rejected reason)
after_round again (ended s) = some (finish s s.stack)
after_round again (continued s) = again s

-- `lower` is `toLowerCase`.
module _ (lower : Text → Text) where
  unfoldable pub closing_tag : Text → Scan → Round
  closing_tag inner s =
      let raw = lower (trim (drop 1 inner)) in
      if one_of summary_drop_tags raw
        || one_of summary_void_tags (alias raw)
        || one_of summary_drop_with_content raw
      then continued s
      else close_top (alias raw) raw s.stack s

  -- A `<script>` and its like, with their contents.
  unfoldable pub skip_content : Text → Text → Scan → Round
  skip_content source raw s =
      or_refuse (units "<" ++ (raw ++ units "> is never closed"))
        (λ k. continued (jump (after_tag source (find_tag_end source (k + 2))) s))
        (index_of (lower source) (units "</" ++ raw) s.index)

  unfoldable pub open_named : Text → Text → Text → Bool → Scan → Round
  open_named source raw body self_closing s =
      if one_of summary_drop_with_content raw
      then skip_content source raw s
      else if one_of summary_drop_tags raw
      then continued s
      else if one_of summary_unwrap_tags raw
      then continued (if self_closing then s else push raw false s)
      else if not (one_of summary_allowed_tags (alias raw))
      then refused (units "<" ++ (raw ++ units "> is not allowed in a summary"))
      else if one_of summary_void_tags (alias raw)
      then continued (emit (start_tag (alias raw) []) s)
      else continued (
          open_element (alias raw)
            (summary_attributes_for (alias raw) (parse_attributes lower body)) self_closing s)

  unfoldable pub opening_tag : Text → Text → Scan → Round
  opening_tag source inner s =
      let self_closing = ends_with_slash inner in
      let body = if self_closing then without_last inner else inner in
      or_refuse (units "malformed tag")
        (λ match. open_named source (lower match) body self_closing s) (tag_name (trim body))

  unfoldable pub tag_within : Text → Text → Scan → Round
  tag_within source inner s =
      if starts_with inner (units "/") then closing_tag inner s else opening_tag source inner s

  unfoldable pub tag_at : Text → ℕ → Scan → Round
  tag_at source lt s =
      or_refuse (units "a tag is never closed, so the response was cut short")
        (λ k. tag_within source (slice source (lt + 1) k) (jump (k + 1) s))
        (find_tag_end source (lt + 1))

  unfoldable pub markup_at : Text → ℕ → Scan → Round
  markup_at source lt s =
      if starts_with (drop lt source) (units "<!--")
      then comment_at source lt s
      else if starts_with (drop lt source) (units "<!")
      then declaration_at source lt s
      else tag_at source lt s

  abbrev pub text_or_markup : Text → Scan → Option ℕ → Round
  text_or_markup source s none = ended (emit (escape_summary_text (drop s.index source)) s)
  text_or_markup source s (some lt) = markup_at source lt (emit_text source lt s)

  -- The body of the loop.
  unfoldable pub scan_round : Text → Scan → Round
  scan_round source s = text_or_markup source s (index_of source (units "<") s.index)

  -- The loop: `none` means that the fuel ran out.
  unfoldable pub sanitize_from : ℕ → Text → Scan → Option SanitizeSummaryHtmlResult
  sanitize_from zero source s = none
  sanitize_from (suc fuel) source s = elim (ltb s.index (length source)) [
    | false ↦ some (finish s s.stack)
    | true ↦ after_round (sanitize_from fuel source) (scan_round source s)
  ]

  unfoldable pub sanitize_summary_html : ℕ → Text → Option SanitizeSummaryHtmlResult
  sanitize_summary_html fuel html =
      sanitize_from fuel html (record { index = 0; stack = []; out = [] })
