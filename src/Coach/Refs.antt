-- ===== src/Coach/Refs.antt =====
-- `resolveRefs` of src/modules/coach-proposals/coach-proposals.service.ts.
use goal_slot_api.Base.{
  ℕ, suc, ◌+◌, ◌*◌, ◌-◌, zero, Option, none, some, List, [], ◌∷◌, String, if◌then◌else◌, error,
  Exception, Result, ok, err, ◌>>=◌,
}
use goal_slot_api.Db.{Text, truthy}
use goal_slot_api.Notes.Text.{units, starts_with, drop, is_digit}
use goal_slot_api.Coach.Payload.{
  Json, null, boolean, number, string, array, object, Items, no_items, item, Fields, no_fields,
  field, CoachActionResult,
}

-- What an action answered: the id of its result, which may be missing.
abbrev pub Outcome : Type 0
Outcome = Result (Option String)

abbrev pub Results : Type 0
Results = List (CoachActionResult Outcome)

-- `Number` of a text of digits.
abbrev digits_from : ℕ → Text → Option ℕ
digits_from acc [] = some acc
digits_from acc (c ∷ cs) =
    let rest = digits_from (acc * 10 + (c - b'0')) cs in if is_digit c then rest else none

abbrev some_digits : Text → Option ℕ
some_digits [] = none
some_digits (c ∷ cs) = digits_from 0 (c ∷ cs)

-- The number that `/^\$ref:(\d+)$/` captures.
unfoldable pub ref_index : String → Option ℕ
ref_index s = if starts_with (units s) (units "$ref:") then some_digits (drop 5 (units s)) else none

abbrev pub unresolved : Exception
unresolved = error "Cannot resolve $ref: prior action did not succeed or has no resultId"

abbrev id_of : Outcome → Option String
id_of (err thrown) = none
id_of (ok result_id) = result_id

-- `ref?.ok` and `ref.resultId`
abbrev pub result_id : Results → ℕ → Option String
result_id [] n = none
result_id (r ∷ rs) zero = id_of r.outcome
result_id (r ∷ rs) (suc n) = result_id rs n

abbrev pub resolved_id : Option String → Result Json
resolved_id none = err unresolved
resolved_id (some id) = if truthy (some id) then ok (string id) else err unresolved

abbrev pub resolve_string : Results → String → Option ℕ → Result Json
resolve_string results s none = ok (string s)
resolve_string results s (some index) = resolved_id (result_id results index)

unfoldable mutual
  unfolding ref_index

  pub resolve_refs : Results → Json → Result Json
  resolve_refs results (string s) = resolve_string results s (ref_index s)
  resolve_refs results (array vs) = resolve_items results vs >>= λ vs'. ok (array vs')
  resolve_refs results (object fs) = resolve_fields results fs >>= λ fs'. ok (object fs')
  resolve_refs results null = ok null
  resolve_refs results (boolean b) = ok (boolean b)
  resolve_refs results (number n) = ok (number n)

  pub resolve_items : Results → Items → Result Items
  resolve_items results no_items = ok no_items
  resolve_items results (item v vs) =
      resolve_refs results v >>= λ v'. resolve_items results vs >>= λ vs'. ok (item v' vs')

  pub resolve_fields : Results → Fields → Result Fields
  resolve_fields results no_fields = ok no_fields
  resolve_fields results (field key v fs) =
      resolve_refs results v >>= λ v'. resolve_fields results fs >>= λ fs'. ok (field key v' fs')
