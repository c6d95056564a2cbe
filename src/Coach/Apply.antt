-- ===== src/Coach/Apply.antt =====
-- `apply` of src/modules/coach-proposals/coach-proposals.service.ts.
use goal_slot_api.Base.{ℕ, ◌+◌, Option, none, some, List, [], ◌∷◌, ◌++◌, String, Result, ok, err}
use goal_slot_api.Coach.Payload.{Fields, no_fields, CoachActionType, CoachProposedAction}
use goal_slot_api.Coach.Safety.{Settings, assert_proposal_batch_safe}
use goal_slot_api.Coach.Refs.{Results, resolve_fields}
use goal_slot_api.Coach.Blocks.{Effect}
use goal_slot_api.Coach.Dispatch.{World, Services, dispatch}

-- `resolveRefs(raw.payload, results)`, with `?? {}`.
unfoldable pub resolve_payload : Results → Option Fields → Result Fields
resolve_payload results none = ok no_fields
resolve_payload results (some payload) = resolve_fields results payload

-- The answer of a batch and the state that it leaves.
abbrev pub Applied : Type 0 → Type 0
Applied Rest = Result Results × World Rest

module _ {Rest : Type 0} (s : Services Rest) (user_id : String) where
  abbrev pub push_result :
      CoachActionType → Results → ℕ → Effect (World Rest) → Results × World Rest
  push_result type results index (outcome, w) =
      (results ++ record { index = index; type = type; outcome = outcome } ∷ [], w)

  -- One round of the loop whose references are resolved.
  unfoldable pub apply_action :
      CoachProposedAction → ℕ → Results → Fields → World Rest → Results × World Rest
  apply_action a index results payload w =
      push_result a.type results index (dispatch s user_id a payload w)

  -- A throw outside of `try` leaves `apply`, with what is written so far.
  abbrev pub unless_thrown :
      {A : Type 0} → Result A → World Rest → (A → Applied Rest) → Applied Rest
  unless_thrown (err thrown) w rest = (err thrown, w)
  unless_thrown (ok a) w rest = rest a

  -- The loop. The references are resolved outside of `try`.
  unfoldable pub apply_from : ℕ → List CoachProposedAction → Results → World Rest → Applied Rest
  unfolding apply_action
  apply_from index [] results w = (ok results, w)
  apply_from index (a ∷ actions) results w =
      unless_thrown (resolve_payload results a.payload) w λ payload.
        let (results', w') = apply_action a index results payload w in
        apply_from (index + 1) actions results' w'

  unfoldable pub apply :
      Settings → List CoachProposedAction → Option (List String) → World Rest → Applied Rest
  apply settings actions confirmed_delete_ids w =
      unless_thrown (assert_proposal_batch_safe settings actions confirmed_delete_ids) w
        λ _. apply_from 0 actions [] w
