-- ===== src/Notes/Summary/Escaped.antt =====
-- What the escaping of a summary leaves out, and that it keeps the scheme of an address.
use goal_slot_api.Base.{
  ℕ, ◌≡◌, refl, sym, ap, subst, Bool, true, false, not, ◌&&◌, ◌||◌, inl, inr, none, some, List, [],
  ◌∷◌, ◌++◌, ◌==◌, ==_iff, arith, if◌then◌else◌, All, All-append, All-map, Bool-cases, or_else,
}
use goal_slot_api.Db.{Text}
use goal_slot_api.Notes.Text.{units, text_eq, text_eq_sound, one_of, replace_all, to_lower, trim}
use goal_slot_api.Notes.Markup.{
  escape_ampersands, escape_summary_text, starts_with_i, safe_link_scheme, attribute,
  link_attributes, is_value, summary_attributes_for,
}
use goal_slot_api.Notes.Summary.{summary_allowed_tags, summary_void_tags}
use goal_slot_api.Notes.Summary.Grammar.{Without, SafeAttributes, bare, task_list, task_item, link}

replace_all-All :
    (P : ℕ → Type 0) (c : ℕ) (r t : Text) → All P r → All P t → All P (replace_all c r t)
unfolding replace_all
replace_all-All P c r [] hr ht = tt
replace_all-All P c r (x ∷ xs) hr ht =
    All-append P (if x == c then r else x ∷ []) (replace_all c r xs)
      (elim (Bool-cases (x == c)) [ inl same ↦ rw same hr | inr other ↦ rw other (ht.0, tt) ])
      (replace_all-All P c r xs hr ht.1)

replace_all-Without : (c : ℕ) (r t : Text) → Without c r → Without c (replace_all c r t)
unfolding replace_all
replace_all-Without c r [] hr = tt
replace_all-Without c r (x ∷ xs) hr =
    All-append (λ y. (y == c) ≡ false) (if x == c then r else x ∷ []) (replace_all c r xs)
      (elim (Bool-cases (x == c)) [ inl same ↦ rw same hr | inr other ↦ rw other (other, tt) ])
      (replace_all-Without c r xs hr)

pub escape_summary_text-Without :
    (t : Text) → Without b'<' (escape_summary_text t) × Without b'>' (escape_summary_text t)
unfolding escape_summary_text
escape_summary_text-Without t =
    let inner = replace_all b'<' (units "&lt;") (escape_ampersands t) in
    (
      replace_all-All (λ x. (x == b'<') ≡ false) b'>' (units "&gt;") inner
          (refl, (refl, (refl, (refl, tt))))
          (replace_all-Without b'<' (units "&lt;") (escape_ampersands t)
            (refl, (refl, (refl, (refl, tt))))),
      replace_all-Without b'>' (units "&gt;") inner (refl, (refl, (refl, (refl, tt)))),
    )

-- A prefix survives the replacement of a unit that it does not hold.
replace_all-prefix :
    (c : ℕ) (r t p : Text)
    → All (λ d. (to_lower c == d) ≡ false) p
    → starts_with_i t p ≡ true
    → starts_with_i (replace_all c r t) p ≡ true
unfolding replace_all
replace_all-prefix c r t [] free h = refl
replace_all-prefix c r [] (d ∷ ds) free h = absurd (ground arith)
replace_all-prefix c r (x ∷ xs) (d ∷ ds) free h = elim (Bool-cases (x == c)) [
  | inl same ↦
      let e : x ≡ c = (==_iff x c).0 same in
      let clash : (to_lower c == d) ≡ true = rw (← e) (ground arith) in absurd (ground arith)
  | inr other ↦ let rest = replace_all-prefix c r xs ds free.1 in rw other (ground arith)
]

escape_ampersands-prefix :
    (t p : Text)
    → All (λ d. (to_lower b'&' == d) ≡ false) p
    → starts_with_i t p ≡ true
    → starts_with_i (escape_ampersands t) p ≡ true
unfolding escape_ampersands
escape_ampersands-prefix t [] free h = refl
escape_ampersands-prefix [] (d ∷ ds) free h = absurd (ground arith)
escape_ampersands-prefix (x ∷ xs) (d ∷ ds) free h = elim (Bool-cases (x == b'&')) [
  | inl same ↦
      let e : x ≡ b'&' = (==_iff x b'&').0 same in
      let clash : (to_lower b'&' == d) ≡ true = rw (← e) (ground arith) in absurd (ground arith)
  | inr other ↦ let rest = escape_ampersands-prefix xs ds free.1 in rw other (ground arith)
]

-- What an address is written as inside its attribute.
abbrev url_of : Text → Text
url_of href = replace_all b'"' (units "&quot;") (escape_summary_text href)

abbrev IsInert : ℕ → Type 0
IsInert d = ((b'&' == d) || (b'<' == d) || (b'>' == d) || (b'"' == d)) ≡ false

url_of-prefix :
    (href p : Text)
    → All IsInert p
    → starts_with_i href p ≡ true
    → starts_with_i (url_of href) p ≡ true
unfolding escape_summary_text
url_of-prefix href p inert h =
    replace_all-prefix b'"' (units "&quot;") (escape_summary_text href) p
      (All-map (λ d i. ground arith) p inert)
      (replace_all-prefix b'>' (units "&gt;")
        (replace_all b'<' (units "&lt;") (escape_ampersands href)) p
        (All-map (λ d i. ground arith) p inert)
        (replace_all-prefix b'<' (units "&lt;") (escape_ampersands href) p
          (All-map (λ d i. ground arith) p inert)
          (escape_ampersands-prefix href p (All-map (λ d i. ground arith) p inert) h)))

one_of_three :
    (a b c a' b' c' : Bool)
    → (a ≡ true → a' ≡ true)
    → (b ≡ true → b' ≡ true)
    → (c ≡ true → c' ≡ true)
    → (a || b || c) ≡ true
    → (a' || b' || c') ≡ true
one_of_three true b c a' b' c' f g h e = rw (f refl) refl
one_of_three false true c a' b' c' f g h e = rw (g refl) (ground arith)
one_of_three false false c a' b' c' f g h e = rw (h e) (ground arith)

url_of-safe : (href : Text) → safe_link_scheme href ≡ true → safe_link_scheme (url_of href) ≡ true
unfolding safe_link_scheme
url_of-safe href h =
    one_of_three (starts_with_i href (units "http:")) (starts_with_i href (units "https:"))
      (starts_with_i href (units "mailto:")) (starts_with_i (url_of href) (units "http:"))
      (starts_with_i (url_of href) (units "https:")) (starts_with_i (url_of href) (units "mailto:"))
      (url_of-prefix href (units "http:") (refl, (refl, (refl, (refl, (refl, tt))))))
      (url_of-prefix href (units "https:") (refl, (refl, (refl, (refl, (refl, (refl, tt)))))))
      (url_of-prefix href (units "mailto:")
        (refl, (refl, (refl, (refl, (refl, (refl, (refl, tt))))))))
      h

same_some : {x y : Text} → some x ≡ some y → x ≡ y
same_some {x = x} e = ap (λ o. or_else o x) e

link_attributes-safe :
    (href attrs : Text) → link_attributes href ≡ some attrs → SafeAttributes (units "a") attrs
unfolding link_attributes
link_attributes-safe href attrs e =
    elim (Bool-cases (text_eq href [] || not (safe_link_scheme href))) [
      | inl bad ↦ let e' : none ≡ some attrs = rw bad at e in cc
      | inr good ↦
          let e' : units " href=\"" ++ (url_of href ++ units "\"") ≡ attrs =
            same_some (rw good at e) in
          let (low, high) = escape_summary_text-Without href in
          subst (SafeAttributes (units "a")) e' (
            link (url_of href) (url_of-safe href (ground arith))
              (replace_all-All (λ x. (x == b'<') ≡ false) b'"' (units "&quot;")
                (escape_summary_text href) (refl, (refl, (refl, (refl, (refl, (refl, tt)))))) low)
              (replace_all-All (λ x. (x == b'>') ≡ false) b'"' (units "&quot;")
                (escape_summary_text href) (refl, (refl, (refl, (refl, (refl, (refl, tt)))))) high)
              (replace_all-Without b'"' (units "&quot;") (escape_summary_text href)
                (refl, (refl, (refl, (refl, (refl, (refl, tt))))))))
    ]

pub summary_attributes_for-safe :
    (tag : Text) (given : List (Text × Text)) (attrs : Text)
    → one_of summary_allowed_tags tag ≡ true
    → one_of summary_void_tags tag ≡ false
    → summary_attributes_for tag given ≡ some attrs
    → SafeAttributes tag attrs
unfolding summary_attributes_for
summary_attributes_for-safe tag given attrs allowed paired e =
    elim (Bool-cases (text_eq tag (units "a"))) [
      | inl is_a ↦
          subst (λ t. SafeAttributes t attrs) (sym (text_eq_sound tag (units "a") is_a))
            (link_attributes-safe (trim (or_else (attribute (units "href") given) [])) attrs
              (rw is_a at e))
      | inr not_a ↦
          elim (Bool-cases (
            text_eq tag (units "ul")
            && is_value (attribute (units "data-type") given) (units "taskList"))) [
              | inl is_list ↦
                  subst (λ t. SafeAttributes t attrs)
                    (sym (text_eq_sound tag (units "ul") (ground arith)))
                    (subst (SafeAttributes (units "ul")) (same_some (rw (not_a, is_list) at e))
                      task_list)
              | inr no_list ↦
                  elim (Bool-cases (
                    text_eq tag (units "li")
                    && is_value (attribute (units "data-type") given) (units "taskItem"))) [
                      | inl is_item ↦
                          subst (λ t. SafeAttributes t attrs)
                            (sym (text_eq_sound tag (units "li") (ground arith)))
                            (subst (SafeAttributes (units "li"))
                              (same_some (rw (not_a, no_list, is_item) at e))
                              (task_item
                                (is_value (attribute (units "data-checked") given) (units "true"))))
                      | inr no_item ↦
                          subst (SafeAttributes tag) (same_some (rw (not_a, no_list, no_item) at e))
                            (bare allowed paired not_a)
                    ]
            ]
    ]
