-- ===== src/Notes/Summary/Sound.antt =====
-- Each round of sanitizeSummaryHtml keeps the invariant and moves on in the text.
use goal_slot_api.Base.{
  ◌≤◌, ◌<◌, ℕ, ◌+◌, ◌≡◌, refl, ap, Bool, true, false, ◌||◌, inl, inr, Option, none, some, [], ◌++◌,
  arith, if◌then◌else◌, length, Bool-cases, or_else,
}
use goal_slot_api.Db.{Text}
use goal_slot_api.Notes.Text.{
  units, one_of, starts_with, drop, slice, index_of, trim, plus, offset_of,
}
use goal_slot_api.Notes.Markup.{
  escape_summary_text, find_tag_end, tag_end_from, parse_attributes, summary_attributes_for,
}
use goal_slot_api.Notes.Summary.{
  summary_allowed_tags, summary_void_tags, summary_unwrap_tags, summary_drop_tags,
  summary_drop_with_content, alias, Scan, continued, emit, jump, start_tag, close_top, tag_name,
  ends_with_slash, without_last, open_element, after_tag, emit_text, comment_at, declaration_at,
  closing_tag, skip_content, open_named, opening_tag, tag_at, tag_within, markup_at, text_or_markup,
  scan_round,
}
use goal_slot_api.Notes.Summary.Rounds.{if-round, or_refuse-round}
use goal_slot_api.Notes.Summary.Pieces.{
  IsClean, CleanRound, emit-IsClean, text-Fragment, emit_text-IsClean, open_element-IsClean,
  void-Fragment, close_top-IsClean,
}
use goal_slot_api.Notes.Summary.Escaped.{summary_attributes_for-safe}

plus-bound : (i : ℕ) (o : Option ℕ) (k : ℕ) → plus i o ≡ some k → i ≤ k
plus-bound i none k e = absurd (ground arith)
plus-bound i (some j) k e = let sum : i + j ≡ k = ap (λ o. or_else o 0) e in omega arith

find_tag_end-bound : (source : Text) (start k : ℕ) → find_tag_end source start ≡ some k → start ≤ k
unfolding find_tag_end
find_tag_end-bound source start k e = plus-bound start (tag_end_from none (drop start source)) k e

after_tag-bound :
    (source : Text) (i start : ℕ) (o : Option ℕ)
    → ((k : ℕ) → o ≡ some k → start ≤ k)
    → i < length source
    → i ≤ start
    → i < after_tag source o
after_tag-bound source i start none bound within le = within
after_tag-bound source i start (some k) bound within le = let b = bound k refl in omega arith

open_element-index :
    (name : Text) (attrs : Option Text) (self_closing : Bool) (s : Scan)
    → (open_element name attrs self_closing s).index ≡ s.index
unfolding open_element
open_element-index name none true s = refl
open_element-index name none false s = refl
open_element-index name (some attrs) true s = refl
open_element-index name (some attrs) false s = refl

module _ (lower : Text → Text) (i : ℕ) where
  comment_at-IsClean :
      (source : Text) (lt : ℕ) (s : Scan)
      → i ≤ lt
      → IsClean s
      → CleanRound i (comment_at source lt s)
  unfolding comment_at
  comment_at-IsClean source lt s le clean =
      or_refuse-round (CleanRound i) (units "unterminated comment")
        (λ k. continued (jump (k + 3) s)) (index_of source (units "-->") (lt + 4)) tt
        (λ k at_k.
          let b = plus-bound (lt + 4) (offset_of (units "-->") (drop (lt + 4) source)) k at_k in
          (clean, omega arith))

  declaration_at-IsClean :
      (source : Text) (lt : ℕ) (s : Scan)
      → i ≤ lt
      → IsClean s
      → CleanRound i (declaration_at source lt s)
  unfolding declaration_at
  declaration_at-IsClean source lt s le clean =
      or_refuse-round (CleanRound i) (units "unterminated declaration")
        (λ k. continued (jump (k + 1) s)) (find_tag_end source (lt + 2)) tt
        (λ k at_k. let b = find_tag_end-bound source (lt + 2) k at_k in (clean, omega arith))

  skip_content-IsClean :
      (source raw : Text) (s : Scan)
      → i < length source
      → i < s.index
      → IsClean s
      → CleanRound i (skip_content lower source raw s)
  unfolding skip_content
  skip_content-IsClean source raw s within on clean =
      or_refuse-round (CleanRound i) (units "<" ++ (raw ++ units "> is never closed"))
        (λ k. continued (jump (after_tag source (find_tag_end source (k + 2))) s))
        (index_of (lower source) (units "</" ++ raw) s.index) tt
        (λ k at_k.
          let b =
            plus-bound s.index (offset_of (units "</" ++ raw) (drop s.index (lower source))) k
              at_k in
          (
            clean,
            after_tag-bound source i (k + 2) (find_tag_end source (k + 2))
                (find_tag_end-bound source (k + 2)) within (omega arith),
          ))

  closing_tag-IsClean :
      (inner : Text) (s : Scan) → i < s.index → IsClean s → CleanRound i (closing_tag lower inner s)
  unfolding closing_tag
  closing_tag-IsClean inner s on clean =
      let raw = lower (trim (drop 1 inner)) in
      if-round (CleanRound i)
        (one_of summary_drop_tags raw
          || one_of summary_void_tags (alias raw)
          || one_of summary_drop_with_content raw)
        (continued s) (close_top (alias raw) raw s.stack s) (λ h. (clean, on))
        (λ h. close_top-IsClean i (alias raw) raw s.stack s clean on)

  allowed-IsClean :
      (raw body : Text) (self_closing : Bool) (s : Scan)
      → i < s.index
      → IsClean s
      → one_of summary_allowed_tags (alias raw) ≡ true
      → CleanRound i (
          if one_of summary_void_tags (alias raw)
          then continued (emit (start_tag (alias raw) []) s)
          else continued (
              open_element
                (alias raw)
                (summary_attributes_for (alias raw) (parse_attributes lower body))
                self_closing
                s))
  allowed-IsClean raw body self_closing s on clean allowed =
      if-round (CleanRound i) (one_of summary_void_tags (alias raw))
        (continued (emit (start_tag (alias raw) []) s))
        (continued (
          open_element (alias raw)
            (summary_attributes_for (alias raw) (parse_attributes lower body)) self_closing s))
        (λ h. (emit-IsClean s (start_tag (alias raw) []) clean (void-Fragment (alias raw) h), on))
        (λ h. (
          open_element-IsClean (alias raw)
              (summary_attributes_for (alias raw) (parse_attributes lower body)) self_closing s
              (λ given e.
                summary_attributes_for-safe (alias raw) (parse_attributes lower body) given allowed
                  h e)
              clean,
          rw
              (open_element-index (alias raw)
                (summary_attributes_for (alias raw) (parse_attributes lower body)) self_closing s)
              on,
        ))

  open_named-IsClean :
      (source raw body : Text) (self_closing : Bool) (s : Scan)
      → i < length source
      → i < s.index
      → IsClean s
      → CleanRound i (open_named lower source raw body self_closing s)
  unfolding open_named
  open_named-IsClean source raw body self_closing s within on clean =
      elim (Bool-cases (one_of summary_drop_with_content raw)) [
        | inl skipped ↦ rw skipped (skip_content-IsClean source raw s within on clean)
        | inr kept ↦ elim (Bool-cases (one_of summary_drop_tags raw)) [
          | inl dropped ↦ rw (kept, dropped) (clean, on)
          | inr shown ↦ elim (Bool-cases (one_of summary_unwrap_tags raw)) [
            | inl unwrapped ↦
                rw (kept, shown, unwrapped)
                  (elim (Bool-cases self_closing) [
                    | inl closed ↦ rw closed (clean, on)
                    | inr opened ↦ rw opened (clean, on)
                  ])
            | inr whole ↦ elim (Bool-cases (one_of summary_allowed_tags (alias raw))) [
              | inr foreign ↦ rw (kept, shown, whole, foreign) tt
              | inl allowed ↦
                  rw (kept, shown, whole, allowed)
                    (allowed-IsClean raw body self_closing s on clean allowed)
            ]
          ]
        ]
      ]

  opening_tag-IsClean :
      (source inner : Text) (s : Scan)
      → i < length source
      → i < s.index
      → IsClean s
      → CleanRound i (opening_tag lower source inner s)
  unfolding opening_tag
  opening_tag-IsClean source inner s within on clean =
      let self_closing = ends_with_slash inner in
      let body = if self_closing then without_last inner else inner in
      or_refuse-round (CleanRound i) (units "malformed tag")
        (λ match. open_named lower source (lower match) body self_closing s) (tag_name (trim body))
        tt (λ match e. open_named-IsClean source (lower match) body self_closing s within on clean)

  tag_at-IsClean :
      (source : Text) (lt : ℕ) (s : Scan)
      → i ≤ lt
      → i < length source
      → IsClean s
      → CleanRound i (tag_at lower source lt s)
  unfolding tag_at tag_within
  tag_at-IsClean source lt s le within clean =
      or_refuse-round (CleanRound i) (units "a tag is never closed, so the response was cut short")
        (λ k. tag_within lower source (slice source (lt + 1) k) (jump (k + 1) s))
        (find_tag_end source (lt + 1)) tt
        (λ k e.
          let b = find_tag_end-bound source (lt + 1) k e in
          if-round (CleanRound i) (starts_with (slice source (lt + 1) k) (units "/"))
            (closing_tag lower (slice source (lt + 1) k) (jump (k + 1) s))
            (opening_tag lower source (slice source (lt + 1) k) (jump (k + 1) s))
            (λ h.
              closing_tag-IsClean (slice source (lt + 1) k) (jump (k + 1) s) (omega arith) clean)
            (λ h.
              opening_tag-IsClean source (slice source (lt + 1) k) (jump (k + 1) s) within
                (omega arith) clean))

  markup_at-IsClean :
      (source : Text) (lt : ℕ) (s : Scan)
      → i ≤ lt
      → i < length source
      → IsClean s
      → CleanRound i (markup_at lower source lt s)
  unfolding markup_at
  markup_at-IsClean source lt s le within clean =
      if-round (CleanRound i) (starts_with (drop lt source) (units "<!--")) (comment_at source lt s)
        (if starts_with (drop lt source) (units "<!")
          then declaration_at source lt s
          else tag_at lower source lt s)
        (λ h. comment_at-IsClean source lt s le clean)
        (λ h.
          if-round (CleanRound i) (starts_with (drop lt source) (units "<!"))
            (declaration_at source lt s) (tag_at lower source lt s)
            (λ k. declaration_at-IsClean source lt s le clean)
            (λ k. tag_at-IsClean source lt s le within clean))

  text_or_markup-IsClean :
      (source : Text) (s : Scan) (o : Option ℕ)
      → ((lt : ℕ) → o ≡ some lt → i ≤ lt)
      → i < length source
      → IsClean s
      → CleanRound i (text_or_markup lower source s o)
  text_or_markup-IsClean source s none le within clean =
      emit-IsClean s (escape_summary_text (drop s.index source)) clean
        (text-Fragment (drop s.index source))
  text_or_markup-IsClean source s (some lt) le within clean =
      markup_at-IsClean source lt (emit_text source lt s) (le lt refl) within
        (emit_text-IsClean source lt s clean)

pub scan_round-IsClean :
    (lower : Text → Text) (source : Text) (s : Scan)
    → s.index < length source
    → IsClean s
    → CleanRound s.index (scan_round lower source s)
unfolding scan_round
scan_round-IsClean lower source s within clean =
    text_or_markup-IsClean lower s.index source s (index_of source (units "<") s.index)
      (plus-bound s.index (offset_of (units "<") (drop s.index source))) within clean
