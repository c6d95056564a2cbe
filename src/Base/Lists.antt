-- ===== src/Base/Lists.antt =====
-- Lists as tables of rows: selection, update and deletion by a test, and predicates on all rows.
use Prim.Native.Nat.{ℕ, suc}
use mathlib.Core.Path.{sym, subst}
use mathlib.Core.Bool.{Bool, false, ◌||◌}
use mathlib.Core.Option.{Option, none, some}
use mathlib.Core.List.{List, [], ◌∷◌, ◌++◌, Memᴰ}
use goal_slot_api.Base.Tests.{if◌then◌else◌}

module _ {ℓ} {A : Type ℓ} where
  abbrev pub length : List A → ℕ
  length [] = 0
  length (x ∷ xs) = suc (length xs)

  -- `findMany({ where })`
  abbrev pub filter : (A → Bool) → List A → List A
  filter p [] = []
  filter p (x ∷ xs) = let rest = filter p xs in if p x then x ∷ rest else rest

  -- `findFirst({ where })`
  abbrev pub find : (A → Bool) → List A → Option A
  find p [] = none
  find p (x ∷ xs) = if p x then some x else find p xs

  abbrev pub any : (A → Bool) → List A → Bool
  any p [] = false
  any p (x ∷ xs) = p x || any p xs

  -- `count({ where })`
  abbrev pub count : (A → Bool) → List A → ℕ
  count p [] = 0
  count p (x ∷ xs) = if p x then suc (count p xs) else count p xs

  -- `updateMany({ where, data })`
  abbrev pub update_where : (A → Bool) → (A → A) → List A → List A
  update_where p f [] = []
  update_where p f (x ∷ xs) = (if p x then f x else x) ∷ update_where p f xs

  -- `deleteMany({ where })`
  abbrev pub delete_where : (A → Bool) → List A → List A
  delete_where p [] = []
  delete_where p (x ∷ xs) = let rest = delete_where p xs in if p x then rest else x ∷ rest

module _ {ℓ κ} {A : Type ℓ} where
  abbrev pub All : (row : A → Type κ) (table : List A) → Type κ
  All row [] = Unit
  All row (x ∷ rest) = row x × All row rest

  pub All-at : (P : A → Type κ) (xs : List A) {x : A} → All P xs → Memᴰ x xs → P x
  All-at P [] h m = elim m [ ]
  All-at P (y ∷ ys) h (Memᴰ.head e) = subst P (sym e) h.0
  All-at P (y ∷ ys) h (Memᴰ.tail m) = All-at P ys h.1 m

  -- Two tables one after the other.
  pub All-append : (P : A → Type κ) (xs ys : List A) → All P xs → All P ys → All P (xs ++ ys)
  All-append P [] ys = λ none_left here. here
  All-append P (x ∷ xs) ys = λ front back. (front.0, All-append P xs ys front.1 back)

  -- Each earlier row stands in the relation to each later row.
  abbrev pub Pairs : (A → A → Type κ) → List A → Type κ
  Pairs R [] = Unit
  Pairs R (x ∷ xs) = All (R x) xs × Pairs R xs

  pub Pairs-snoc :
      (R : A → A → Type κ) (xs : List A) (y : A)
      → Pairs R xs
      → All (λ x. R x y) xs
      → Pairs R (xs ++ y ∷ [])
  Pairs-snoc R [] y h k = (tt, tt)
  Pairs-snoc R (x ∷ xs) y h k =
      (All-append (R x) xs (y ∷ []) h.0 (k.0, tt), Pairs-snoc R xs y h.1 k.1)

  pub All-snoc : (P : A → Type κ) (xs : List A) (y : A) → All P (xs ++ y ∷ []) → All P xs × P y
  All-snoc P [] y h = (tt, h.0)
  All-snoc P (x ∷ xs) y h = ((h.0, (All-snoc P xs y h.1).0), (All-snoc P xs y h.1).1)

module _ {ℓ κ λ'} {A : Type ℓ} {P : A → Type κ} {Q : A → Type λ'} where
  pub All-map : ((x : A) → P x → Q x) → (xs : List A) → All P xs → All Q xs
  All-map f [] h = tt
  All-map f (x ∷ xs) h = (f x h.0, All-map f xs h.1)

module _ {ℓ κ λ' μ} {A : Type ℓ} {P : A → Type κ} {Q : A → Type λ'} {R : A → Type μ} where
  pub All-map₂ : ((x : A) → P x → Q x → R x) → (xs : List A) → All P xs → All Q xs → All R xs
  All-map₂ f [] h k = tt
  All-map₂ f (x ∷ xs) h k = (f x h.0 k.0, All-map₂ f xs h.1 k.1)

-- A relation of all pairs, from another and from what holds of each row.
module _ {ℓ κ λ' μ} {A : Type ℓ} {K : A → Type κ} {R : A → A → Type λ'} {S : A → A → Type μ} where
  All-map_pair :
      (f : (x y : A) → K x → K y → R x y → S x y) (x : A) (ys : List A)
      → K x
      → All K ys
      → All (R x) ys
      → All (S x) ys
  All-map_pair f x [] k ks h = tt
  All-map_pair f x (y ∷ ys) k ks h = (f x y k ks.0 h.0, All-map_pair f x ys k ks.1 h.1)

  pub Pairs-map :
      (f : (x y : A) → K x → K y → R x y → S x y) (xs : List A) → All K xs → Pairs R xs → Pairs S xs
  Pairs-map f [] ks h = tt
  Pairs-map f (x ∷ xs) ks h = (All-map_pair f x xs ks.0 ks.1 h.0, Pairs-map f xs ks.1 h.1)
