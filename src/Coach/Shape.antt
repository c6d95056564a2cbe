-- ===== src/Coach/Shape.antt =====
-- What `assertPayloadShape` accepts.
use goal_slot_api.Base.{
  ℕ, ◌+◌, ◌≤◌, ◌≡◌, ap, ◌↔◌, max, arith, some, Result, ok, ◌>>◌, >>=-eq-ok, >>-eq-ok,
}
use goal_slot_api.Coach.Payload.{
  Json, null, boolean, number, string, array, object, Items, no_items, item, Fields, no_fields,
  field,
}
use goal_slot_api.Coach.Safety.{enter, visit, visit_items, visit_fields, assert_payload_shape}

-- The number of the values of a payload, itself included.
unfoldable mutual
  pub size : Json → ℕ
  size (array vs) = 1 + size_items vs
  size (object fs) = 1 + size_fields fs
  size _ = 1

  pub size_items : Items → ℕ
  size_items no_items = 0
  size_items (item v vs) = size v + size_items vs

  pub size_fields : Fields → ℕ
  size_fields no_fields = 0
  size_fields (field key v fs) = size v + size_fields fs

-- The number of values on the longest way down.
unfoldable mutual
  pub height : Json → ℕ
  height (array vs) = 1 + height_items vs
  height (object fs) = 1 + height_fields fs
  height _ = 1

  pub height_items : Items → ℕ
  height_items no_items = 0
  height_items (item v vs) = max (height v) (height_items vs)

  pub height_fields : Fields → ℕ
  height_fields no_fields = 0
  height_fields (field key v fs) = max (height v) (height_fields fs)

enter-ok : (depth nodes : ℕ) → enter depth nodes ≡ ok tt → (nodes + 1 ≤ 2000) × (depth ≤ 12)
unfolding enter
enter-ok depth nodes h = (ground arith, ground arith)

enter-accepts : (depth nodes : ℕ) → nodes + 1 ≤ 2000 → depth ≤ 12 → enter depth nodes ≡ ok tt
unfolding enter
enter-accepts depth nodes many deep = ground arith

-- What an answer of the walk says of the values walked.
abbrev Walked : (depth nodes size height after : ℕ) → Type 0
Walked depth nodes size height after =
    (after ≡ nodes + size) × (after ≤ 2000) × (depth + height ≤ 13)

entered :
    (depth nodes : ℕ) (rest : Result ℕ) {after : ℕ}
    → (enter depth nodes >> rest) ≡ ok after
    → (nodes + 1 ≤ 2000) × (depth ≤ 12) × (rest ≡ ok after)
entered depth nodes rest h =
    let (first, last) = >>-eq-ok (enter depth nodes) rest h in
    let (many, deep) = enter-ok depth nodes first in (many, deep, last)

leaf-Walked :
    (depth nodes after : ℕ)
    → (enter depth nodes >> ok (nodes + 1)) ≡ ok after
    → Walked depth nodes 1 1 after
leaf-Walked depth nodes after h =
    let (many, deep, e) = entered depth nodes (ok (nodes + 1)) h in
    (ground arith, ground arith, omega arith)

mutual
  unfolding visit size height

  visit-Walked :
      (v : Json) (depth nodes after : ℕ)
      → visit v depth nodes ≡ ok after
      → Walked depth nodes (size v) (height v) after
  visit-Walked (array vs) depth nodes after h =
      let (many, deep, e) = entered depth nodes (visit_items vs (depth + 1) (nodes + 1)) h in
      let (total, most, least) =
        visit_items-Walked vs (depth + 1) (nodes + 1) after (omega arith) many e in
      (omega arith, most, omega arith)
  visit-Walked (object fs) depth nodes after h =
      let (many, deep, e) = entered depth nodes (visit_fields fs (depth + 1) (nodes + 1)) h in
      let (total, most, least) =
        visit_fields-Walked fs (depth + 1) (nodes + 1) after (omega arith) many e in
      (omega arith, most, omega arith)
  visit-Walked null depth nodes after h = leaf-Walked depth nodes after h
  visit-Walked (boolean b) depth nodes after h = leaf-Walked depth nodes after h
  visit-Walked (number n) depth nodes after h = leaf-Walked depth nodes after h
  visit-Walked (string s) depth nodes after h = leaf-Walked depth nodes after h

  visit_items-Walked :
      (vs : Items) (depth nodes after : ℕ)
      → depth ≤ 13
      → nodes ≤ 2000
      → visit_items vs depth nodes ≡ ok after
      → Walked depth nodes (size_items vs) (height_items vs) after
  visit_items-Walked no_items depth nodes after deep many h =
      (ground arith, ground arith, omega arith)
  visit_items-Walked (item v vs) depth nodes after deep many h =
      let (mid, first, last) = >>=-eq-ok (visit v depth nodes) (visit_items vs depth) h in
      let (t, m, d) = visit-Walked v depth nodes mid first in
      let (t', m', d') = visit_items-Walked vs depth mid after deep m last in
      (omega arith, m', omega arith)

  visit_fields-Walked :
      (fs : Fields) (depth nodes after : ℕ)
      → depth ≤ 13
      → nodes ≤ 2000
      → visit_fields fs depth nodes ≡ ok after
      → Walked depth nodes (size_fields fs) (height_fields fs) after
  visit_fields-Walked no_fields depth nodes after deep many h =
      (ground arith, ground arith, omega arith)
  visit_fields-Walked (field key v fs) depth nodes after deep many h =
      let (mid, first, last) = >>=-eq-ok (visit v depth nodes) (visit_fields fs depth) h in
      let (t, m, d) = visit-Walked v depth nodes mid first in
      let (t', m', d') = visit_fields-Walked fs depth mid after deep m last in
      (omega arith, m', omega arith)

leaf-accepts :
    (depth nodes : ℕ)
    → nodes + 1 ≤ 2000
    → depth + 1 ≤ 13
    → (enter depth nodes >> ok (nodes + 1)) ≡ ok (nodes + 1)
leaf-accepts depth nodes many deep = rw (enter-accepts depth nodes many (omega arith))

mutual
  unfolding visit size height

  visit-accepts :
      (v : Json) (depth nodes : ℕ)
      → nodes + size v ≤ 2000
      → depth + height v ≤ 13
      → visit v depth nodes ≡ ok (nodes + size v)
  visit-accepts (array vs) depth nodes many deep =
      rw
        (
          enter-accepts depth nodes (omega arith) (omega arith),
          visit_items-accepts vs (depth + 1) (nodes + 1) (omega arith) (omega arith),
        )
        (ap ok (omega arith))
  visit-accepts (object fs) depth nodes many deep =
      rw
        (
          enter-accepts depth nodes (omega arith) (omega arith),
          visit_fields-accepts fs (depth + 1) (nodes + 1) (omega arith) (omega arith),
        )
        (ap ok (omega arith))
  visit-accepts null depth nodes many deep = leaf-accepts depth nodes many deep
  visit-accepts (boolean b) depth nodes many deep = leaf-accepts depth nodes many deep
  visit-accepts (number n) depth nodes many deep = leaf-accepts depth nodes many deep
  visit-accepts (string s) depth nodes many deep = leaf-accepts depth nodes many deep

  visit_items-accepts :
      (vs : Items) (depth nodes : ℕ)
      → nodes + size_items vs ≤ 2000
      → depth + height_items vs ≤ 13
      → visit_items vs depth nodes ≡ ok (nodes + size_items vs)
  visit_items-accepts no_items depth nodes many deep = ap ok (omega arith)
  visit_items-accepts (item v vs) depth nodes many deep =
      rw
        (
          visit-accepts v depth nodes (omega arith) (omega arith),
          visit_items-accepts vs depth (nodes + size v) (omega arith) (omega arith),
        )
        (ap ok (omega arith))

  visit_fields-accepts :
      (fs : Fields) (depth nodes : ℕ)
      → nodes + size_fields fs ≤ 2000
      → depth + height_fields fs ≤ 13
      → visit_fields fs depth nodes ≡ ok (nodes + size_fields fs)
  visit_fields-accepts no_fields depth nodes many deep = ap ok (omega arith)
  visit_fields-accepts (field key v fs) depth nodes many deep =
      rw
        (
          visit-accepts v depth nodes (omega arith) (omega arith),
          visit_fields-accepts fs depth (nodes + size v) (omega arith) (omega arith),
        )
        (ap ok (omega arith))

-- The guard on the shape accepts a payload exactly when it has at most 2000 values, itself included,
-- and at most 12 levels.
pub assert_payload_shape_iff :
    (payload : Fields)
    → (assert_payload_shape (some payload) ≡ ok tt)
      ↔ ((size (object payload) ≤ 2000) × (height (object payload) ≤ 12))
unfolding assert_payload_shape
assert_payload_shape_iff payload = (
  λ h.
      let (after, first, last) = >>=-eq-ok (visit (object payload) 1 0) (λ nodes. ok tt) h in
      let (total, most, deep) = visit-Walked (object payload) 1 0 after first in
      (omega arith, omega arith),
  λ (many, deep). rw (visit-accepts (object payload) 1 0 (omega arith) (omega arith)),
)
