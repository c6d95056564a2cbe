-- ===== src/Base/Rows.antt =====
-- What the writes of tables keep of predicates on all rows and on all pairs of rows.
use mathlib.Core.Path.{◌≡◌, refl, ap, sym, subst, ◌∙◌}
use mathlib.Core.Logic.{inl, inr}
use mathlib.Core.Bool.{Bool, true, false, ◌||◌, false≢true}
use mathlib.Core.Option.{some}
use mathlib.Core.List.{List, [], ◌∷◌, ◌++◌, Memᴰ}
use native.Mathlib.Omega.{arith}
use goal_slot_api.Base.Tests.{Bool-cases, if◌then◌else◌}
use goal_slot_api.Base.Lists.{
  filter, find, any, update_where, delete_where, All, All-at, Pairs, All-map₂,
}

-- The row that `update_where p f` leaves in the place of `x`.
abbrev pub updated {ℓ} : {A : Type ℓ} → (A → Bool) → (A → A) → A → A
updated p f x = if p x then f x else x

module _ {ℓ κ} {A : Type ℓ} (p : A → Bool) (f : A → A) where
  pub All-update_where :
      (P : A → Type κ) (xs : List A) → All (λ x. P (updated p f x)) xs → All P (update_where p f xs)
  All-update_where P [] h = tt
  All-update_where P (x ∷ xs) h = (h.0, All-update_where P xs h.1)

  pub Pairs-update_where :
      (R : A → A → Type κ) (xs : List A)
      → Pairs (λ x y. R (updated p f x) (updated p f y)) xs
      → Pairs R (update_where p f xs)
  Pairs-update_where R [] h = tt
  Pairs-update_where R (x ∷ xs) h =
      (All-update_where (R (updated p f x)) xs h.0, Pairs-update_where R xs h.1)

module _ {ℓ κ} {A : Type ℓ} (p : A → Bool) where
  pub All-delete_where : (P : A → Type κ) (xs : List A) → All P xs → All P (delete_where p xs)
  All-delete_where P [] h = tt
  All-delete_where P (x ∷ xs) h = elim (Bool-cases (p x)) [
    | inl gone ↦ rw gone (All-delete_where P xs h.1)
    | inr kept ↦ rw kept (h.0, All-delete_where P xs h.1)
  ]

  pub Pairs-delete_where :
      (R : A → A → Type κ) (xs : List A) → Pairs R xs → Pairs R (delete_where p xs)
  Pairs-delete_where R [] h = tt
  Pairs-delete_where R (x ∷ xs) h = elim (Bool-cases (p x)) [
    | inl gone ↦ rw gone (Pairs-delete_where R xs h.1)
    | inr kept ↦ rw kept (All-delete_where (R x) xs h.0, Pairs-delete_where R xs h.1)
  ]

module _ {ℓ κ} {A : Type ℓ} (p : A → Bool) where
  pub All-of-filter :
      (P : A → Type κ) (xs : List A) → All P (filter p xs) → All (λ x. p x ≡ true → P x) xs
  All-of-filter P [] h = tt
  All-of-filter P (x ∷ xs) h = elim (Bool-cases (p x)) [
    | inl here ↦
        let h' : All P (x ∷ filter p xs) = rw here at h in (λ e. h'.0, All-of-filter P xs h'.1)
    | inr other ↦
        let h' : All P (filter p xs) = rw other at h in
        (λ e. absurd (false≢true (sym other ∙ e)), All-of-filter P xs h')
  ]

module _ {ℓ} {A : Type ℓ} (p : A → Bool) where
  -- A test that finds nothing in the rows of a selection.
  pub any-filter-false :
      (q : A → Bool) (xs : List A)
      → any q (filter p xs) ≡ false
      → All (λ x. p x ≡ true → q x ≡ false) xs
  any-filter-false q [] h = tt
  any-filter-false q (x ∷ xs) h = elim (Bool-cases (p x)) [
    | inl here ↦
        let h' : (q x || any q (filter p xs)) ≡ false = rw here at h in
        (λ e. ground arith, any-filter-false q xs (ground arith))
    | inr other ↦
        let h' : any q (filter p xs) ≡ false = rw other at h in
        (λ e. absurd (false≢true (sym other ∙ e)), any-filter-false q xs h')
  ]

  pub any-false : (xs : List A) → any p xs ≡ false → All (λ x. p x ≡ false) xs
  any-false [] h = tt
  any-false (x ∷ xs) h = (ground arith, any-false xs (ground arith))

  pub any-snoc : (xs : List A) (y : A) → any p (xs ++ y ∷ []) ≡ (any p xs || p y)
  any-snoc [] y = ground arith
  any-snoc (x ∷ xs) y = ground (arith, any-snoc xs y)

  pub find-any : (xs : List A) → any p xs ≡ true → (x : A) × (find p xs ≡ some x)
  find-any [] h = cc
  find-any (y ∷ ys) h = elim (Bool-cases (p y)) [
    | inl here ↦ (y, rw here)
    | inr other ↦
        let h' : any p ys ≡ true = rw other at h in let (x, e) = find-any ys h' in (x, rw other e)
  ]

  pub find-some : (xs : List A) {x : A} → find p xs ≡ some x → Memᴰ x xs × (p x ≡ true)
  find-some [] h = cc
  find-some (y ∷ ys) {x} h = elim (Bool-cases (p y)) [
    | inl here ↦
        let e : some y ≡ some x = rw here at h in
        let e' : y ≡ x = cc in (Memᴰ.head (sym e'), rw e' at here)
    | inr other ↦ let (m, q) = find-some ys (rw other at h) in (Memᴰ.tail m, q)
  ]

  -- A test of columns that an update keeps.
  pub any-update_where :
      (q : A → Bool) (f : A → A) (xs : List A)
      → ((x : A) → q (f x) ≡ q x)
      → any q (update_where p f xs) ≡ any q xs
  any-update_where q f [] keeps = refl
  any-update_where q f (x ∷ xs) keeps = elim (Bool-cases (p x)) [
    | inl hit ↦ rw (hit, keeps x, any-update_where q f xs keeps)
    | inr miss ↦ rw (miss, any-update_where q f xs keeps)
  ]

module _ {ℓ} {A : Type ℓ} where
  Memᴰ-All : (ys xs : List A) → ((x : A) → Memᴰ x xs → Memᴰ x ys) → All (λ x. Memᴰ x ys) xs
  Memᴰ-All ys [] f = tt
  Memᴰ-All ys (x ∷ xs) f = (f x (Memᴰ.head refl), Memᴰ-All ys xs (λ z m. f z (Memᴰ.tail m)))

  -- Every row of a table is in it.
  pub All-Memᴰ : (xs : List A) → All (λ x. Memᴰ x xs) xs
  All-Memᴰ xs = Memᴰ-All xs xs (λ x m. m)

  pub Memᴰ-update_where :
      (p : A → Bool) (f : A → A) (xs : List A) {x : A}
      → Memᴰ x xs
      → Memᴰ (updated p f x) (update_where p f xs)
  Memᴰ-update_where p f [] m = elim m [ ]
  Memᴰ-update_where p f (y ∷ ys) (Memᴰ.head e) = Memᴰ.head (ap (updated p f) e)
  Memᴰ-update_where p f (y ∷ ys) (Memᴰ.tail m) = Memᴰ.tail (Memᴰ-update_where p f ys m)

  pub Memᴰ-delete_where :
      (p : A → Bool) (xs : List A) {x : A} → Memᴰ x xs → p x ≡ false → Memᴰ x (delete_where p xs)
  Memᴰ-delete_where p [] m h = elim m [ ]
  Memᴰ-delete_where p (y ∷ ys) (Memᴰ.head e) h =
      let kept : p y ≡ false = subst (λ z. p z ≡ false) e h in rw kept (Memᴰ.head e)
  Memᴰ-delete_where p (y ∷ ys) (Memᴰ.tail m) h = elim (Bool-cases (p y)) [
    | inl gone ↦ rw gone (Memᴰ-delete_where p ys m h)
    | inr kept ↦ rw kept (Memᴰ.tail (Memᴰ-delete_where p ys m h))
  ]

module _ {ℓ κ λ'} {A : Type ℓ} where
  pub Pairs-zip :
      (R : A → A → Type κ) (S : A → A → Type λ') (xs : List A)
      → Pairs R xs
      → Pairs S xs
      → Pairs (λ x y. R x y × S x y) xs
  Pairs-zip R S [] h k = tt
  Pairs-zip R S (x ∷ xs) h k = (All-map₂ (λ y r s. (r, s)) xs h.0 k.0, Pairs-zip R S xs h.1 k.1)

  -- A symmetric relation of all pairs, at two rows that the irreflexive `D` tells apart.
  pub Pairs-at :
      (R : A → A → Type κ) (D : A → A → Type λ')
      → ((x y : A) → R x y → R y x)
      → ((x : A) → ¬ D x x)
      → (xs : List A) {x y : A} → Pairs R xs
      → Memᴰ x xs
      → Memᴰ y xs
      → D x y
      → R x y
  Pairs-at R D sm ir [] h mx my d = elim mx [ ]
  Pairs-at R D sm ir (z ∷ zs) {x} {y} h (Memᴰ.head e) (Memᴰ.head e') d =
      absurd (ir z (subst (λ w. D w z) e (subst (λ w. D x w) e' d)))
  Pairs-at R D sm ir (z ∷ zs) {x} {y} h (Memᴰ.head e) (Memᴰ.tail my) d =
      subst (λ w. R w y) (sym e) (All-at (R z) zs h.0 my)
  Pairs-at R D sm ir (z ∷ zs) {x} {y} h (Memᴰ.tail mx) (Memᴰ.head e) d =
      subst (λ w. R x w) (sym e) (sm z x (All-at (R z) zs h.0 mx))
  Pairs-at R D sm ir (z ∷ zs) h (Memᴰ.tail mx) (Memᴰ.tail my) d = Pairs-at R D sm ir zs h.1 mx my d

-- A key names one row of a table whose keys differ.
module _ {ℓ κ} {A : Type ℓ} {K : Type κ} (key : A → K) where
  pub same_key :
      (xs : List A) {x y : A}
      → Pairs (λ a b. ¬ (key a ≡ key b)) xs
      → Memᴰ x xs
      → Memᴰ y xs
      → key x ≡ key y
      → x ≡ y
  same_key [] h mx my e = elim mx [ ]
  same_key (z ∷ zs) h (Memᴰ.head p) (Memᴰ.head q) e = p ∙ sym q
  same_key (z ∷ zs) h (Memᴰ.head p) (Memᴰ.tail my) e =
      absurd (All-at (λ b. ¬ (key z ≡ key b)) zs h.0 my (ap key (sym p) ∙ e))
  same_key (z ∷ zs) h (Memᴰ.tail mx) (Memᴰ.head q) e =
      absurd (All-at (λ b. ¬ (key z ≡ key b)) zs h.0 mx (ap key (sym q) ∙ sym e))
  same_key (z ∷ zs) h (Memᴰ.tail mx) (Memᴰ.tail my) e = same_key zs h.1 mx my e
