-- ===== src/Coach/Answers.antt =====
-- What `apply` answers: one result for each action, or the exception of a reference that is not
-- resolved.
use mathlib.Core.List.{map}
use goal_slot_api.Base.{
  ℕ, ◌+◌, ◌≡◌, refl, ap, sym, ◌∙◌, ◌⊎◌, inl, inr, List, [], ◌∷◌, ◌++◌, String, Option, Exception,
  ok, err, Result-cases,
}
use goal_slot_api.Coach.Payload.{CoachActionType, CoachProposedAction, CoachActionResult}
use goal_slot_api.Coach.Safety.{Settings, assert_proposal_batch_safe}
use goal_slot_api.Coach.Refs.{Outcome, Results}
use goal_slot_api.Coach.Dispatch.{World, Services}
use goal_slot_api.Coach.Apply.{resolve_payload, apply_action, apply_from, apply}

abbrev pub index_and_type : CoachActionResult Outcome → ℕ × CoachActionType
index_and_type r = (r.index, r.type)

-- The positions and types of the actions, from a first position.
unfoldable pub numbered : ℕ → List CoachProposedAction → List (ℕ × CoachActionType)
numbered n [] = []
numbered n (a ∷ actions) = (n, a.type) ∷ numbered (n + 1) actions

++-nil : {A : Type 0} (xs : List A) → xs ++ [] ≡ xs
++-nil [] = refl
++-nil (x ∷ xs) = ap (λ ys. x ∷ ys) (++-nil xs)

map-snoc :
    {A B : Type 0} (f : A → B) (xs : List A) (y : A) (zs : List B)
    → map f (xs ++ y ∷ []) ++ zs ≡ map f xs ++ f y ∷ zs
map-snoc f [] y zs = refl
map-snoc f (x ∷ xs) y zs = ap (λ ys. f x ∷ ys) (map-snoc f xs y zs)

module _ {Rest : Type 0} (s : Services Rest) (user_id : String) where
  -- All actions are reported, in their order.
  abbrev pub Reports : (ℕ × List CoachProposedAction × Results × World Rest) → Type 0
  Reports (n, actions, results, w) =
      (results' : Results) × (w' : World Rest) × (apply_from s user_id n actions results w
        ≡ (ok results', w'))
      × (map index_and_type results' ≡ map index_and_type results ++ numbered n actions)

  -- A reference of one action is not resolved: the actions before it are applied, with no report, and
  -- the actions after it are not.
  abbrev pub Aborts : (ℕ × List CoachProposedAction × Results × World Rest) → Type 0
  Aborts (n, actions, results, w) =
      (done : List CoachProposedAction) × (a : CoachProposedAction) × (rest : List
        CoachProposedAction)
      × (results' : Results) × (w' : World Rest) × (thrown : Exception) × (actions
          ≡ done ++ a ∷ rest)
      × (apply_from s user_id n done results w ≡ (ok results', w'))
      × (resolve_payload results' a.payload ≡ err thrown)
      × (apply_from s user_id n actions results w ≡ (err thrown, w'))

  apply_from-outcome :
      (n : ℕ) (actions : List CoachProposedAction) (results : Results) (w : World Rest)
      → Reports (n, actions, results, w) ⊎ Aborts (n, actions, results, w)
  unfolding apply_from apply_action numbered
  apply_from-outcome n [] results w =
      inl (results, w, refl, sym (++-nil (map index_and_type results)))
  apply_from-outcome n (a ∷ actions) results w =
      elim (Result-cases (resolve_payload results a.payload)) [
        | inl (thrown, e) ↦ inr ([], a, actions, results, w, thrown, refl, refl, e, rw e)
        | inr (payload, e) ↦
            let (results₁, w₁) = apply_action s user_id a n results payload w in
            elim (apply_from-outcome (n + 1) actions results₁ w₁) [
              | inl (results', w', applied, listed) ↦ inl (
                results',
                w',
                rw e applied,
                listed ∙ map-snoc index_and_type results _ (numbered (n + 1) actions),
              )
              | inr (done, b, rest, results', w', thrown, split, before, unresolved, aborted) ↦
                  inr (
                    a ∷ done,
                    b,
                    rest,
                    results',
                    w',
                    thrown,
                    ap (λ as'. a ∷ as') split,
                    rw e before,
                    unresolved,
                    rw e aborted,
                  )
            ]
      ]

  -- A batch that passes the safety check either answers with one result for each action, in their
  -- order, or it throws because a reference of one action is not resolved: then the actions before
  -- it are applied and stay so, none of them is reported, and the actions after it are not applied.
  pub apply-outcome :
      (settings : Settings) (actions : List CoachProposedAction) (confirmed : Option (List String))
      (w : World Rest)
      → assert_proposal_batch_safe settings actions confirmed ≡ ok tt
      → ((results : Results) × (w' : World Rest) × (apply s user_id settings actions confirmed w
            ≡ (ok results, w'))
          × (map index_and_type results ≡ numbered 0 actions))
        ⊎ ((done : List CoachProposedAction) × (a : CoachProposedAction) × (rest : List
              CoachProposedAction)
            × (results : Results) × (w' : World Rest) × (thrown : Exception) × (actions
                ≡ done ++ a ∷ rest)
            × (apply_from s user_id 0 done [] w ≡ (ok results, w'))
            × (resolve_payload results a.payload ≡ err thrown)
            × (apply s user_id settings actions confirmed w ≡ (err thrown, w')))
  unfolding apply
  apply-outcome settings actions confirmed w safe = elim (apply_from-outcome 0 actions [] w) [
    | inl (results, w', applied, listed) ↦ inl (results, w', rw safe applied, listed)
    | inr (done, a, rest, results, w', thrown, split, before, unresolved, aborted) ↦
        inr (done, a, rest, results, w', thrown, split, before, unresolved, rw safe aborted)
  ]
