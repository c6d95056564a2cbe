-- ===== src/Notes/Lookups.antt =====
-- What a lookup of a note, and the check of a parent, say of the table.
use goal_slot_api.Base.{
  ℕ, ◌<◌, ◌≡◌, refl, sym, ap, subst, true, false, inl, inr, Option, none, some, List, [], ◌∷◌,
  String, str_eq, arith, eq_iff, find, find-some, any, or_else, All, All-at, Memᴰ, Option-cases, ok,
  >>=-eq-ok,
}
use goal_slot_api.Db.{truthy}
use goal_slot_api.Notes.Store.{Note, note_by_id, found_for, find_one, check_parent}
use goal_slot_api.Notes.Forest.{IsForest}

pub find_one-ok :
    (id user_id : String) (notes : List Note) (n : Note)
    → find_one id user_id notes ≡ ok n
    → Memᴰ n notes × (n.id ≡ id) × (n.user_id ≡ user_id)
unfolding find_one
find_one-ok id user_id notes n h = elim (Option-cases (find (note_by_id id) notes)) [
  | inl missing ↦ let h' : found_for user_id none ≡ ok n = rw missing at h in absurd (ground arith)
  | inr (m, f) ↦
      let h' : found_for user_id (some m) ≡ ok n = rw f at h in
      let (mem, hit) = find-some (note_by_id id) notes f in
      let same : m ≡ n = ground arith in
      rw (← same) (mem, (eq_iff m.id id).0 hit, ground (arith, eq_iff m.user_id user_id))
]

pub given_parent :
    (field : Option (Option String)) (p : String)
    → or_else field none ≡ some p
    → field ≡ some (some p)
given_parent none p e = absurd (ground arith)
given_parent (some key) p e = ap some e

pub unnamed :
    (p : String)
    → truthy (some p) ≡ false
    → (notes : List Note) → All (λ (n : Note). str_eq n.id "" ≡ false) notes
    → any (note_by_id p) notes ≡ false
unnamed p e [] h = refl
unnamed p e (n ∷ ns) h = ground (arith, eq_iff p "", eq_iff n.id p, eq_iff n.id "", unnamed p e ns)

pub found_parent :
    (height : ℕ) (notes : List Note) (forest : IsForest height notes) (user_id : String)
    (field : Option String) (p : String) {u : Unit {0}}
    → check_parent field user_id notes ≡ ok u
    → field ≡ some p
    → truthy (some p) ≡ true
    → forest.rank p < height
unfolding check_parent
found_parent height notes forest user_id none p h e named = absurd (ground arith)
found_parent height notes forest user_id (some q) p h e named =
    let same : q ≡ p = ground arith in
    let named_q : truthy (some q) ≡ true = subst (λ x. truthy (some x) ≡ true) (sym same) named in
    let (n, found, k) = >>=-eq-ok (find_one q user_id notes) _ (rw named_q at h) in
    let (m, id, owner) = find_one-ok q user_id notes n found in
    rw (← same, ← id) (All-at (λ (n : Note). forest.rank n.id < height) notes forest.bounded m)
