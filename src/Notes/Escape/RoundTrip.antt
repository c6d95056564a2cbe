-- ===== src/Notes/Escape/RoundTrip.antt =====
-- Escaped text decodes to itself, and holds no markup.
use goal_slot_api.Base.{
  ℕ, ◌≡◌, refl, sym, ap, subst, ◌∙◌, Bool, false, ◌||◌, inl, inr, [], ◌∷◌, ◌++◌, ◌==◌,
  if◌then◌else◌, All, All-append, Bool-cases, ==_iff,
}
use goal_slot_api.Db.{Text}
use goal_slot_api.Notes.Text.{units, replace_all}
use goal_slot_api.Notes.Escape.{escape_note_html, entity_at, decode_from, decode_note_entities}
use mathlib.Core.List.{append_assoc}

-- What the five replacements make of one unit.
abbrev escape_unit : ℕ → Text
escape_unit c =
    if c == b'&'
    then units "&amp;"
    else if c == b'<'
    then units "&lt;"
    else if c == b'>'
    then units "&gt;"
    else if c == b'"'
    then units "&quot;"
    else if c == b'\''
    then units "&#39;"
    else c ∷ []

replace_all-append :
    (c : ℕ) (r xs ys : Text) → replace_all c r (xs ++ ys) ≡ replace_all c r xs ++ replace_all c r ys
unfolding replace_all
replace_all-append c r [] ys = refl
replace_all-append c r (x ∷ xs) ys =
    rw (replace_all-append c r xs ys)
      (sym (append_assoc (if x == c then r else x ∷ []) (replace_all c r xs) (replace_all c r ys)))

escape-append :
    (xs ys : Text) → escape_note_html (xs ++ ys) ≡ escape_note_html xs ++ escape_note_html ys
unfolding escape_note_html
escape-append xs ys = simp (replace_all-append)

escape-unit : (c : ℕ) → escape_note_html (c ∷ []) ≡ escape_unit c
unfolding escape_note_html replace_all
escape-unit c = elim (Bool-cases (c == b'&')) [
  | inl amp ↦ rw amp refl
  | inr n1 ↦ elim (Bool-cases (c == b'<')) [
    | inl lt ↦ rw (n1, lt) refl
    | inr n2 ↦ elim (Bool-cases (c == b'>')) [
      | inl gt ↦ rw (n1, n2, gt) refl
      | inr n3 ↦ elim (Bool-cases (c == b'"')) [
        | inl quot ↦ rw (n1, n2, n3, quot) refl
        | inr n4 ↦ elim (Bool-cases (c == b'\'')) [
          | inl apos ↦ rw (n1, n2, n3, n4, apos) refl
          | inr n5 ↦ rw (n1, n2, n3, n4, n5) refl
        ]
      ]
    ]
  ]
]

escape-cons : (c : ℕ) (cs : Text) → escape_note_html (c ∷ cs) ≡ escape_unit c ++ escape_note_html cs
escape-cons c cs = escape-append (c ∷ []) cs ∙ ap (λ u. u ++ escape_note_html cs) (escape-unit c)

-- A unit that is no `&` decodes to itself.
plain_unit :
    (c : ℕ) (cs : Text) → (c == b'&') ≡ false → decode_from 0 (c ∷ cs) ≡ c ∷ decode_from 0 cs
unfolding decode_from entity_at
plain_unit c cs h = rw (h, decode_from) refl

decode-escape_unit :
    (c : ℕ) (rest : Text) → decode_from 0 (escape_unit c ++ rest) ≡ c ∷ decode_from 0 rest
unfolding decode_from entity_at
decode-escape_unit c rest = elim (Bool-cases (c == b'&')) [
  | inl amp ↦ rw ((==_iff c b'&').0 amp) refl
  | inr n1 ↦ elim (Bool-cases (c == b'<')) [
    | inl lt ↦ rw ((==_iff c b'<').0 lt) refl
    | inr n2 ↦ elim (Bool-cases (c == b'>')) [
      | inl gt ↦ rw ((==_iff c b'>').0 gt) refl
      | inr n3 ↦ elim (Bool-cases (c == b'"')) [
        | inl quot ↦ rw ((==_iff c b'"').0 quot) refl
        | inr n4 ↦ elim (Bool-cases (c == b'\'')) [
          | inl apos ↦ rw ((==_iff c b'\'').0 apos) refl
          | inr n5 ↦ rw (n1, n2, n3, n4, n5) (plain_unit c rest n1)
        ]
      ]
    ]
  ]
]

-- What HTML reads as markup.
abbrev pub is_markup : ℕ → Bool
is_markup c = (c == b'<') || (c == b'>') || (c == b'"') || (c == b'\'')

escape_unit-plain : (c : ℕ) → All (λ d. is_markup d ≡ false) (escape_unit c)
escape_unit-plain c = elim (Bool-cases (c == b'&')) [
  | inl amp ↦ rw amp (refl, (refl, (refl, (refl, (refl, tt)))))
  | inr n1 ↦ elim (Bool-cases (c == b'<')) [
    | inl lt ↦ rw (n1, lt) (refl, (refl, (refl, (refl, tt))))
    | inr n2 ↦ elim (Bool-cases (c == b'>')) [
      | inl gt ↦ rw (n1, n2, gt) (refl, (refl, (refl, (refl, tt))))
      | inr n3 ↦ elim (Bool-cases (c == b'"')) [
        | inl quot ↦ rw (n1, n2, n3, quot) (refl, (refl, (refl, (refl, (refl, (refl, tt))))))
        | inr n4 ↦ elim (Bool-cases (c == b'\'')) [
          | inl apos ↦ rw (n1, n2, n3, n4, apos) (refl, (refl, (refl, (refl, (refl, tt)))))
          | inr n5 ↦ rw (n1, n2, n3, n4, n5) (rw (n2, n3, n4, n5) refl, tt)
        ]
      ]
    ]
  ]
]

escape-plain : (text : Text) → All (λ d. is_markup d ≡ false) (escape_note_html text)
unfolding escape_note_html replace_all
escape-plain [] = tt
escape-plain (c ∷ cs) = subst (All (λ d. is_markup d ≡ false)) (sym (escape-cons c cs)) (
    All-append (λ d. is_markup d ≡ false) (escape_unit c) (escape_note_html cs)
      (escape_unit-plain c) (escape-plain cs))

decode-escape_lem : (text : Text) → decode_from 0 (escape_note_html text) ≡ text
unfolding escape_note_html decode_from replace_all
decode-escape_lem [] = refl
decode-escape_lem (c ∷ cs) =
    ap (decode_from 0) (escape-cons c cs)
    ∙ (decode-escape_unit c (escape_note_html cs) ∙ ap (λ t. c ∷ t) (decode-escape_lem cs))

-- The escaped form of any text holds no `<`, no `>` and no quotation mark, so nothing of it is read
-- as a tag or ends an attribute; and decoding its entities gives the text back exactly.
pub decode-escape :
    (text : Text)
    → decode_note_entities (escape_note_html text) ≡ text
      × All (λ d. is_markup d ≡ false) (escape_note_html text)
unfolding decode_note_entities
decode-escape text = (decode-escape_lem text, escape-plain text)
