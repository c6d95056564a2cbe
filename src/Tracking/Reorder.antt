-- ===== src/Tracking/Reorder.antt =====
-- What `reorder` of tasks.service.ts does to each task.
use goal_slot_api.Base.{
  ℕ, suc, ◌+◌, ◌≡◌, refl, ap, ◌∙◌, Bool, inl, inr, Option, none, some, List, [], ◌∷◌, map, String,
  str_eq, arith, update_where, updated, if◌then◌else◌, Bool-cases, Option-cases,
}
use goal_slot_api.Db.{Task, Db}
use goal_slot_api.Tracking.Tasks.{owned_task_by_id, reorder_from, reorder}

-- The index of the last occurrence of a key.
abbrev pub later : Bool → Option ℕ → Option ℕ
later here none = if here then some 0 else none
later here (some i) = some (suc i)

abbrev pub last_index : String → List String → Option ℕ
last_index id [] = none
last_index id (x ∷ xs) = later (str_eq id x) (last_index id xs)

abbrev pub at_index : ℕ → Option ℕ → Task → Task
at_index start none t = t
at_index start (some i) t = record t { order = start + i }

-- A task of the user that the list names gets its index as its order.
abbrev pub ranked : ℕ → String → List String → Task → Task
ranked start user_id ids t =
    if str_eq t.user_id user_id then at_index start (last_index t.id ids) t else t

map-update_where :
    (p : Task → Bool) (f g h : Task → Task) (ts : List Task)
    → ((t : Task) → g (updated p f t) ≡ h t)
    → map g (update_where p f ts) ≡ map h ts
map-update_where p f g h [] e = refl
map-update_where p f g h (t ∷ ts) e = rw (e t, map-update_where p f g h ts e) refl

map-same : (g : Task → Task) (ts : List Task) → ((t : Task) → g t ≡ t) → ts ≡ map g ts
map-same g [] e = refl
map-same g (t ∷ ts) e = rw (e t, ← map-same g ts e) refl

ranked-step :
    (start : ℕ) (user_id id : String) (ids : List String) (t : Task)
    → ranked
        (start + 1)
        user_id
        ids
        (updated (owned_task_by_id user_id id) (λ (x : Task). record x { order = start }) t)
      ≡ ranked start user_id (id ∷ ids) t
ranked-step start user_id id ids t = elim (Bool-cases (str_eq t.user_id user_id)) [
  | inl own ↦ elim (Bool-cases (str_eq t.id id)) [
    | inl hit ↦ elim (Option-cases (last_index t.id ids)) [
      | inl last ↦ rw (own, hit, last) (rw own (ap (λ n. record t { order = n }) (omega arith)))
      | inr (i, again) ↦
          rw (own, hit, again) (rw own (ap (λ n. record t { order = n }) (omega arith)))
    ]
    | inr miss ↦ elim (Option-cases (last_index t.id ids)) [
      | inl absent ↦ rw (own, miss, absent) (rw own refl)
      | inr (i, found) ↦
          rw (own, miss, found) (rw own (ap (λ n. record t { order = n }) (omega arith)))
    ]
  ]
  | inr other ↦ elim (Bool-cases (str_eq t.id id)) [
    | inl hit ↦ rw (other, hit) (rw other refl)
    | inr miss ↦ rw (other, miss) (rw other refl)
  ]
]

reorder_from-ranked :
    (ids : List String) (start : ℕ) (user_id : String) (ts : List Task)
    → reorder_from start user_id ids ts ≡ map (ranked start user_id ids) ts
unfolding reorder_from
reorder_from-ranked [] start user_id ts = map-same (ranked start user_id []) ts (λ t. ground arith)
reorder_from-ranked (id ∷ ids) start user_id ts =
    reorder_from-ranked ids (start + 1) user_id
      (update_where (owned_task_by_id user_id id) (λ (x : Task). record x { order = start }) ts)
    ∙ map-update_where (owned_task_by_id user_id id) (λ (x : Task). record x { order = start })
        (ranked (start + 1) user_id ids) (ranked start user_id (id ∷ ids)) ts
        (ranked-step start user_id id ids)

-- `reorder` gives each task of the user that the list names the index of its last occurrence there
-- as its order, and leaves all else of it, and every other task, as they are.
pub reorder-ranked :
    (user_id : String) (ids : List String) (db : Db)
    → (reorder user_id ids db).tasks ≡ map (ranked 0 user_id ids) db.tasks
unfolding reorder
reorder-ranked user_id ids db = reorder_from-ranked ids 0 user_id db.tasks
