-- ===== src/Notes/Summary/Pieces.antt =====
-- The invariant of the loop, and the writes to the output and the stack that keep it.
use goal_slot_api.Base.{
  ◌<◌, ℕ, ◌≡◌, refl, sym, ap, subst, ◌∙◌, Bool, true, false, inl, inr, Option, none, some, List, [],
  ◌∷◌, ◌++◌, arith, if◌then◌else◌, Bool-cases, ltb,
}
use goal_slot_api.Db.{Text}
use goal_slot_api.Notes.Text.{units, text_eq, text_eq_sound, one_of, slice}
use goal_slot_api.Notes.Markup.{escape_summary_text}
use goal_slot_api.Notes.Summary.{
  summary_void_tags, OpenTag, Scan, Round, refused, continued, ended, emit, end_tag, start_tag,
  close_top, open_element, emit_text, join,
}
use goal_slot_api.Notes.Summary.Grammar.{
  SafeAttributes, Fragment, run, line_break, element, Within, Within-append, Within-open,
  Within-close,
}
use goal_slot_api.Notes.Summary.Escaped.{escape_summary_text-Without}
use mathlib.Core.List.{append_assoc, append-nil}

-- The elements on the stack that stand in the output.
abbrev pub emitted_names : List OpenTag → List Text
emitted_names [] = []
emitted_names (o ∷ os) = let rest = emitted_names os in if o.emitted then o.name ∷ rest else rest

abbrev pub IsClean : Scan → Type 0
IsClean s = Within (emitted_names s.stack) (join s.out)

-- A round keeps that, and the next one starts after `i`.
abbrev pub CleanRound : ℕ → Round → Type 0
CleanRound i (refused reason) = Unit
CleanRound i (continued s) = IsClean s × (i < s.index)
CleanRound i (ended s) = IsClean s

join-snoc : (ts : List Text) (t : Text) → join (ts ++ t ∷ []) ≡ join ts ++ t
join-snoc [] t = append-nil t
join-snoc (u ∷ us) t = ap (λ x. u ++ x) (join-snoc us t) ∙ sym (append_assoc u (join us) t)

pub emit-IsClean : (s : Scan) (t : Text) → IsClean s → Fragment t → IsClean (emit t s)
emit-IsClean s t clean f =
    subst (Within (emitted_names s.stack)) (sym (join-snoc s.out t))
      (Within-append (emitted_names s.stack) (join s.out) t clean f)

pub text-Fragment : (t : Text) → Fragment (escape_summary_text t)
text-Fragment t = let (low, high) = escape_summary_text-Without t in run low high

pub emit_text-IsClean :
    (source : Text) (lt : ℕ) (s : Scan) → IsClean s → IsClean (emit_text source lt s)
emit_text-IsClean source lt s clean = elim (Bool-cases (ltb s.index lt)) [
  | inl some_text ↦ rw some_text (
      emit-IsClean s (escape_summary_text (slice source s.index lt)) clean
        (text-Fragment (slice source s.index lt)))
  | inr no_text ↦ rw no_text clean
]

pub open_element-IsClean :
    (name : Text) (attrs : Option Text) (self_closing : Bool) (s : Scan)
    → ((given : Text) → attrs ≡ some given → SafeAttributes name given)
    → IsClean s
    → IsClean (open_element name attrs self_closing s)
unfolding open_element
open_element-IsClean name none true s safe clean = clean
open_element-IsClean name none false s safe clean = clean
open_element-IsClean name (some attrs) true s safe clean =
    emit-IsClean s (start_tag name attrs ++ end_tag name) clean
      (element {inner = []} (safe attrs refl) (run tt tt))
open_element-IsClean name (some attrs) false s safe clean =
    subst (Within (name ∷ emitted_names s.stack)) (sym (join-snoc s.out (start_tag name attrs)))
      (Within-open (emitted_names s.stack) (join s.out) name attrs clean (safe attrs refl))

pub void-Fragment :
    (name : Text) → one_of summary_void_tags name ≡ true → Fragment (start_tag name [])
void-Fragment name h =
    subst (λ n. Fragment (start_tag n [])) (sym (text_eq_sound name (units "br") (ground arith)))
      line_break

pub close_top-IsClean :
    (i : ℕ) (name raw : Text) (stack : List OpenTag) (s : Scan)
    → Within (emitted_names stack) (join s.out)
    → i < s.index
    → CleanRound i (close_top name raw stack s)
unfolding close_top
close_top-IsClean i name raw [] s clean on = tt
close_top-IsClean i name raw (top ∷ rest) s clean on = elim (Bool-cases (text_eq top.name name)) [
  | inr other ↦ rw other tt
  | inl same ↦ elim (Bool-cases top.emitted) [
    | inr hidden ↦ rw (same, hidden) (rw hidden at clean, on)
    | inl shown ↦
        let inside : Within (top.name ∷ emitted_names rest) (join s.out) = rw shown at clean in
        rw (same, shown)
          (
            subst (Within (emitted_names rest)) (sym (join-snoc s.out (end_tag name))) (
                subst (λ n. Within (emitted_names rest) (join s.out ++ end_tag n))
                  (text_eq_sound top.name name same)
                  (Within-close (emitted_names rest) (join s.out) top.name inside)),
            on,
          )
  ]
]
