-- ===== src/Coach/Safety.antt =====
-- src/modules/coach-ai/safety/action-safety.ts: what a batch may delete, and how large and how deep
-- a payload may be.
use goal_slot_api.Base.{
  ℕ, ◌+◌, Bool, true, false, not, ◌&&◌, ◌||◌, Option, none, some, List, [], ◌∷◌, String, str_eq,
  length, filter, any, ltb, or_else, is_some, Exception, bad_request, Result, ok, ◌>>=◌, ◌>>◌,
  throw_if,
}
use goal_slot_api.Db.{truthy}
use goal_slot_api.Coach.Payload.{
  Json, array, object, Items, no_items, item, Fields, no_fields, field, CoachActionType,
  delete_goal, delete_task, delete_schedule_block, delete_time_entry, CoachProposedAction,
}

abbrev pub max_payload_depth : ℕ
max_payload_depth = 12

abbrev pub max_payload_nodes : ℕ
max_payload_nodes = 2000

-- The three settings that the environment may change, with their defaults.
pub record Settings : Type 0 where
  pub max_destructive : ℕ
  pub max_goal_deletions : ℕ
  pub confirmation_required : Bool

abbrev pub default_settings : Settings
default_settings = record {
  max_destructive = 10;
  max_goal_deletions = 3;
  confirmation_required = false;
}

abbrev pub is_destructive : CoachActionType → Bool
is_destructive delete_goal = true
is_destructive delete_task = true
is_destructive delete_schedule_block = true
is_destructive delete_time_entry = true
is_destructive _ = false

abbrev pub is_delete_goal : CoachActionType → Bool
is_delete_goal delete_goal = true
is_delete_goal _ = false

abbrev pub too_many_fields : Exception
too_many_fields = bad_request "payload has more fields than the Coach produces"

abbrev pub too_deep : Exception
too_deep = bad_request "payload is nested deeper than the Coach produces"

-- The two guards at the head of `visit`.
unfoldable pub enter : (depth : ℕ) → (nodes : ℕ) → Result (Unit {0})
enter depth nodes = do
  throw_if (ltb max_payload_nodes (nodes + 1)) too_many_fields
  throw_if (ltb max_payload_depth depth) too_deep

-- `visit`, with the count of the nodes before it; it answers the count after it.
unfoldable mutual
  pub visit : Json → (depth : ℕ) → (nodes : ℕ) → Result ℕ
  visit (array vs) depth nodes = enter depth nodes >> visit_items vs (depth + 1) (nodes + 1)
  visit (object fs) depth nodes = enter depth nodes >> visit_fields fs (depth + 1) (nodes + 1)
  visit _ depth nodes = enter depth nodes >> ok (nodes + 1)

  pub visit_items : Items → (depth : ℕ) → (nodes : ℕ) → Result ℕ
  visit_items no_items depth nodes = ok nodes
  visit_items (item v vs) depth nodes = visit v depth nodes >>= visit_items vs depth

  pub visit_fields : Fields → (depth : ℕ) → (nodes : ℕ) → Result ℕ
  visit_fields no_fields depth nodes = ok nodes
  visit_fields (field key v fs) depth nodes = visit v depth nodes >>= visit_fields fs depth

unfoldable pub assert_payload_shape : Option Fields → Result (Unit {0})
unfolding visit
assert_payload_shape none = ok tt
assert_payload_shape (some payload) = visit (object payload) 1 0 >>= λ nodes. ok tt

unfoldable pub assert_payload_shapes : List CoachProposedAction → Result (Unit {0})
assert_payload_shapes [] = ok tt
assert_payload_shapes (a ∷ rest) = assert_payload_shape a.payload >> assert_payload_shapes rest

abbrev pub deletes : CoachProposedAction → Bool
deletes a = is_destructive a.type

abbrev pub deletes_goal : CoachProposedAction → Bool
deletes_goal a = is_delete_goal a.type

-- `a.id && confirmed.has(a.id)`
abbrev pub is_confirmed : List String → CoachProposedAction → Bool
is_confirmed confirmed a = truthy a.id && any (str_eq (or_else a.id "")) confirmed

unfoldable pub assert_proposal_batch_safe :
    Settings → List CoachProposedAction → Option (List String) → Result (Unit {0})
assert_proposal_batch_safe settings actions confirmed_delete_ids = do
  let destructive = filter deletes actions
  let strict = is_some confirmed_delete_ids || settings.confirmation_required
  assert_payload_shapes actions
  throw_if (ltb settings.max_destructive (length destructive))
      (bad_request "too many delete actions in one batch")
  throw_if (ltb settings.max_goal_deletions (length (filter deletes_goal destructive)))
      (bad_request "too many goals deleted in one batch")
  throw_if (strict && any (λ a. not (is_confirmed (or_else confirmed_delete_ids []) a)) destructive)
      (bad_request "delete actions were not individually confirmed")
