-- ===== src/Notes/Text.antt =====
-- The operations of JavaScript on texts that src/modules/notes/note-content.ts uses. A text is the
-- list of its UTF-16 code units.
use Prim.Native.Char.{code}
use goal_slot_api.Base.{
  ℕ, zero, suc, ◌+◌, ◌-◌, ◌≡◌, refl, Bool, true, false, ◌&&◌, ◌||◌, Option, none, some, List, [],
  ◌∷◌, ◌++◌, String, arith, ◌==◌, leb, if◌then◌else◌,
}
use goal_slot_api.Db.{Text}
use goal_slot_api.Timer.Session.{is_space}

-- The units of a literal.
abbrev pub units : String → Text
units String.[] = []
units (String.◌∷◌ c s) = code c ∷ units s

abbrev pub text_eq : Text → Text → Bool
text_eq [] [] = true
text_eq (a ∷ as') (b ∷ bs) = (a == b) && text_eq as' bs
text_eq _ _ = false

pub text_eq_sound : (s t : Text) → text_eq s t ≡ true → s ≡ t
text_eq_sound [] [] h = refl
text_eq_sound [] (b ∷ bs) h = absurd (ground arith)
text_eq_sound (a ∷ as') [] h = absurd (ground arith)
text_eq_sound (a ∷ as') (b ∷ bs) h =
    let tail : text_eq as' bs ≡ true = ground arith in
    let head : a ≡ b = ground arith in rw (head, text_eq_sound as' bs tail) refl

-- `set.has(text)`
abbrev pub one_of : List String → Text → Bool
one_of [] t = false
one_of (s ∷ ss) t = text_eq t (units s) || one_of ss t

abbrev pub starts_with : Text → Text → Bool
starts_with t [] = true
starts_with [] (p ∷ ps) = false
starts_with (c ∷ cs) (p ∷ ps) = (c == p) && starts_with cs ps

abbrev pub drop : ℕ → Text → Text
drop zero t = t
drop (suc n) [] = []
drop (suc n) (c ∷ cs) = drop n cs

abbrev pub take : ℕ → Text → Text
take zero t = []
take (suc n) [] = []
take (suc n) (c ∷ cs) = c ∷ take n cs

-- `text.slice(from, to)` for `from <= to`.
abbrev pub slice : Text → ℕ → ℕ → Text
slice t from to = take (to - from) (drop from t)

abbrev plus_one : Option ℕ → Option ℕ
plus_one none = none
plus_one (some k) = some (suc k)

-- The offset of the first occurrence.
unfoldable pub offset_of : Text → Text → Option ℕ
offset_of p [] = if starts_with [] p then some 0 else none
offset_of p (c ∷ cs) =
    let rest = offset_of p cs in if starts_with (c ∷ cs) p then some 0 else plus_one rest

abbrev pub plus : ℕ → Option ℕ → Option ℕ
plus i none = none
plus i (some k) = some (i + k)

-- `text.indexOf(pattern, from)`, where -1 is `none`.
abbrev pub index_of : Text → Text → ℕ → Option ℕ
index_of t p from = plus from (offset_of p (drop from t))

unfoldable pub trim_start : Text → Text
trim_start [] = []
trim_start (c ∷ cs) = let rest = trim_start cs in if is_space c then rest else c ∷ cs

unfoldable pub trim_end : Text → Text
trim_end [] = []
trim_end (c ∷ cs) = let rest = trim_end cs in if is_space c && text_eq rest [] then [] else c ∷ rest

abbrev pub trim : Text → Text
trim t = trim_end (trim_start t)

-- `text.replace(/c/g, r)` for one unit.
unfoldable pub replace_all : ℕ → Text → Text → Text
replace_all c r [] = []
replace_all c r (x ∷ xs) = (if x == c then r else x ∷ []) ++ replace_all c r xs

abbrev pub is_digit : ℕ → Bool
is_digit c = leb b'0' c && leb c b'9'

abbrev pub is_letter : ℕ → Bool
is_letter c = (leb b'a' c && leb c b'z') || (leb b'A' c && leb c b'Z')

-- ASCII lower case, which is what a regular expression with the flag `i` compares by.
abbrev pub to_lower : ℕ → ℕ
to_lower c = if leb b'A' c && leb c b'Z' then c + 32 else c

-- The longest prefix of units that satisfy a test, and the rest.
unfoldable pub span : (ℕ → Bool) → Text → Text × Text
span p [] = ([], [])
span p (c ∷ cs) = let (run, rest) = span p cs in if p c then (c ∷ run, rest) else ([], c ∷ cs)
