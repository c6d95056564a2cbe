-- ===== src/Notes/Summary/Accepted.antt =====
-- sanitizeSummaryHtml comes to an end, and what it accepts is a fragment of the grammar.
use goal_slot_api.Base.{
  ℕ, zero, suc, ◌-◌, ◌<◌, ◌≡◌, refl, sym, subst, Bool, true, false, inl, inr, Option, some, List,
  [], ◌∷◌, arith, length, Bool-cases, ltb, ltb→lt,
}
use goal_slot_api.Db.{Text}
use goal_slot_api.Notes.Text.{text_eq, trim}
use goal_slot_api.Notes.Summary.{
  OpenTag, Scan, SanitizeSummaryHtmlResult, sanitized, rejected, Round, refused, continued, ended,
  strip_from, join, finish, after_round, scan_round, sanitize_from, sanitize_summary_html,
}
use goal_slot_api.Notes.Summary.Grammar.{Fragment, Within, run}
use goal_slot_api.Notes.Summary.Pieces.{emitted_names, IsClean, CleanRound}
use goal_slot_api.Notes.Summary.Sound.{scan_round-IsClean}

-- A rejection, or the trimmed text of a fragment that shows something.
abbrev pub IsSafe : SanitizeSummaryHtmlResult → Type 0
IsSafe (rejected reason) = Unit
IsSafe (sanitized html) =
    (body : Text) × Fragment body
    × (html ≡ trim body)
    × (text_eq (trim (strip_from 0 html)) [] ≡ false)

finish-IsSafe :
    (s : Scan) (stack : List OpenTag)
    → Within (emitted_names stack) (join s.out)
    → IsSafe (finish s stack)
unfolding finish
finish-IsSafe s (top ∷ rest) clean = tt
finish-IsSafe s [] clean =
    elim (Bool-cases (text_eq (trim (strip_from 0 (trim (join s.out)))) [])) [
      | inl blank ↦ rw blank tt
      | inr visible ↦ rw visible (join s.out, clean, refl, visible)
    ]

abbrev Answers : Option SanitizeSummaryHtmlResult → Type 0
Answers o = (result : SanitizeSummaryHtmlResult) × (o ≡ some result) × IsSafe result

after_round-Answers :
    (again : Scan → Option SanitizeSummaryHtmlResult) (i : ℕ) (r : Round)
    → CleanRound i r
    → ((s : Scan) → IsClean s → i < s.index → Answers (again s))
    → Answers (after_round again r)
after_round-Answers again i (refused reason) clean go = (rejected reason, refl, tt)
after_round-Answers again i (ended s) clean go =
    (finish s s.stack, refl, finish-IsSafe s s.stack clean)
after_round-Answers again i (continued s) clean go = go s clean.0 clean.1

sanitize_from-Answers :
    (lower : Text → Text) (fuel : ℕ) (source : Text) (s : Scan)
    → length source - s.index < fuel
    → IsClean s
    → Answers (sanitize_from lower fuel source s)
unfolding sanitize_from
sanitize_from-Answers lower zero source s le clean = absurd (omega arith)
sanitize_from-Answers lower (suc fuel) source s le clean =
    elim (Bool-cases (ltb s.index (length source))) [
      | inr over ↦
          subst (λ b. Answers (by_bound b)) (sym over)
            (finish s s.stack, refl, finish-IsSafe s s.stack clean)
      | inl more ↦
          let within : s.index < length source = ltb→lt s.index (length source) more in
          subst (λ b. Answers (by_bound b)) (sym more)
            (after_round-Answers (sanitize_from lower fuel source) s.index
              (scan_round lower source s) (scan_round-IsClean lower source s within clean)
              (λ s' clean' on. sanitize_from-Answers lower fuel source s' (omega arith) clean'))
    ]
  where
    by_bound : Bool → Option SanitizeSummaryHtmlResult
    by_bound b = elim b [
      | false ↦ some (finish s s.stack)
      | true ↦ after_round (sanitize_from lower fuel source) (scan_round lower source s)
    ]

-- Whatever lower-casing does, the sanitizer answers on every text, with fuel for one round more than
-- the text is long. What it accepts is the trimmed text of a fragment of the grammar: text without
-- angle brackets, line breaks and allowed elements, each closed around what it holds, with no
-- attributes but those of a checklist and, on a link, an address of the scheme http, https or mailto
-- that cannot end its attribute. Without its tags it still has text that is not blank.
pub sanitize_summary_html-IsSafe :
    (lower : Text → Text) (html : Text)
    → (result : SanitizeSummaryHtmlResult) × (sanitize_summary_html lower (suc (length html)) html
        ≡ some result)
      × IsSafe result
unfolding sanitize_summary_html
sanitize_summary_html-IsSafe lower html =
    sanitize_from-Answers lower (suc (length html)) html
      (record { index = 0; stack = []; out = [] }) (omega arith) (run tt tt)
