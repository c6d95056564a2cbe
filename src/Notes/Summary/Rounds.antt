-- ===== src/Notes/Summary/Rounds.antt =====
-- Predicates on a round, branch by branch.
use goal_slot_api.Base.{◌≡◌, refl, Bool, true, false, Option, none, some, if◌then◌else◌}
use goal_slot_api.Db.{Text}
use goal_slot_api.Notes.Summary.{Round, refused, or_refuse}

module _ {κ} (Q : Round → Type κ) where
  pub if-round :
      (b : Bool) (x y : Round) → (b ≡ true → Q x) → (b ≡ false → Q y) → Q (if b then x else y)
  if-round true x y f g = f refl
  if-round false x y f g = g refl

  pub or_refuse-round {ℓ} :
      {A : Type ℓ} (reason : Text) (f : A → Round) (o : Option A)
      → Q (refused reason)
      → ((a : A) → o ≡ some a → Q (f a))
      → Q (or_refuse reason f o)
  or_refuse-round reason f none stop go = stop
  or_refuse-round reason f (some a) stop go = go a refl
