-- ===== src/Coach/Survive.antt =====
-- What a batch of proposals may delete.
use mathlib.Core.Bool.{false≢true}
use goal_slot_api.Base.{
  suc, ◌≡◌, refl, sym, ap, ◌∙◌, inl, inr, true, false, not, ◌||◌, Option, some, List, [], ◌∷◌,
  String, arith, str_eq, eq_iff, any, filter, length, map, ◌≤◌, or_else, is_some, Bool-cases,
  Result-cases, ok, >>-eq-ok, All,
}
use goal_slot_api.Coach.Payload.{
  Fields, CoachActionType, delete_goal, update_schedule_block, CoachProposedAction,
}
use goal_slot_api.Coach.Safety.{
  Settings, is_destructive, is_delete_goal, deletes, deletes_goal, is_confirmed,
  assert_payload_shapes, assert_proposal_batch_safe,
}
use goal_slot_api.Sharing.Invariant.{str_eq-sym}
use goal_slot_api.Coach.Dispatch.{World, Services}
use goal_slot_api.Coach.Refs.{Results}
use goal_slot_api.Coach.Apply.{resolve_payload, apply}
use goal_slot_api.Coach.Operations.{OperationsKeep}
use goal_slot_api.Coach.Keeps.{apply-keeps}
use goal_slot_api.Coach.Frame.{
  entry_create-keeps, entry_update-keeps, entry_delete-keeps, task_create-keeps, task_update-keeps,
  task_delete-keeps,
}
use goal_slot_api.Coach.GoalRows.{
  has_goal, HasGoal, framed, created_goal-HasGoal, updated_goal-HasGoal, deleted_goal-HasGoal,
  created_block-goals, updated_block-goals, deleted_block-goals,
}

-- The ids of the goals that a batch deletes.
abbrev pub goal_deletes : List CoachProposedAction → List String
goal_deletes actions =
    map (λ (a : CoachProposedAction). or_else a.id "") (filter deletes_goal actions)

module _ {Rest : Type 0} (s : Services Rest) (user_id : String)
    (others : (id : String) (type : CoachActionType) (p : Fields) (w : World Rest)
      → has_goal id w.db ≡ true
      → has_goal id (s.others type user_id p w).1.db ≡ true) where
  operations :
      (id : String)
      → OperationsKeep
          (HasGoal id)
          (λ dto. Unit {0})
          (λ scope c. Unit {0})
          (λ type target. is_delete_goal type ≡ true → str_eq target id ≡ false)
          (λ p. Unit {0})
          s
          user_id
  operations id = record {
    goal_create =
        λ fresh_id dto db db' h e. created_goal-HasGoal id s.now fresh_id user_id dto db db' h e;
    goal_update = λ target dto db db' h e. updated_goal-HasGoal id user_id target dto db db' h e;
    goal_delete = λ target db db' allowed h e.
        deleted_goal-HasGoal id user_id target db db' (allowed refl) h e;
    entry_create = λ fresh_id. entry_create-keeps (framed id) s.zone s.now fresh_id user_id;
    entry_update = λ target. entry_update-keeps (framed id) s.zone user_id target;
    entry_delete =
        λ target db db' allowed h e. entry_delete-keeps (framed id) user_id target db db' h e;
    task_create = λ fresh_id. task_create-keeps (framed id) fresh_id user_id;
    task_update = λ target. task_update-keeps (framed id) user_id target;
    task_delete =
        λ target db db' allowed h e. task_delete-keeps (framed id) user_id target db db' h e;
    block_create = λ dto db made db' v h e.
        rw (created_block-goals s.now s.made_up user_id dto db made db' e) h;
    block_update = λ target expected_title scope c db made db' v h e.
        rw (updated_block-goals s.lower user_id target expected_title scope c db (made, db') e) h;
    block_delete = λ target db db' allowed h e. rw (deleted_block-goals user_id target db db' e) h;
    valid = λ p dto e. tt;
    valid_in_series = λ series_id d dto v. tt;
    valid_update = λ p scope c fine e. tt;
    others = others id;
  }

  -- A goal that no delete of the batch names is there after it.
  unnamed-HasGoal :
      (settings : Settings) (actions : List CoachProposedAction) (confirmed : Option (List String))
      (w : World Rest) (id : String)
      → any (str_eq id) (goal_deletes actions) ≡ false
      → has_goal id w.db ≡ true
      → has_goal id (apply s user_id settings actions confirmed w).1.db ≡ true
  unnamed-HasGoal settings actions confirmed w id unnamed h =
      apply-keeps s user_id (operations id) settings actions confirmed w
        (λ safe. spared actions unnamed) h
    where
      spared :
          (actions : List CoachProposedAction)
          → any (str_eq id) (goal_deletes actions) ≡ false
          → All
              (λ (a : CoachProposedAction).
                ((target : String)
                  → a.id ≡ some target
                  → is_destructive a.type ≡ true
                  → is_delete_goal a.type ≡ true
                  → str_eq target id ≡ false)
                × ((results : Results) (p : Fields)
                    → a.type ≡ update_schedule_block
                    → resolve_payload results a.payload ≡ ok p
                    → Unit {0}))
              actions
      spared [] h = tt
      spared (a ∷ rest) h = elim (Bool-cases (deletes_goal a)) [
        | inr other ↦ (
          (
            λ target named destructive goal. absurd (false≢true (sym other ∙ goal)),
            λ results p update e. tt,
          ),
          spared rest (rw other at h),
        )
        | inl deleting ↦
            let h' : (str_eq id (or_else a.id "") || any (str_eq id) (goal_deletes rest)) ≡ false =
              rw deleting at h in
            (
              (
                λ target named destructive goal.
                    let h'' : (str_eq id target || any (str_eq id) (goal_deletes rest)) ≡ false =
                      rw named at h' in
                    str_eq-sym target id ∙ ground arith,
                λ results p update e. tt,
              ),
              spared rest (ground arith),
            )
      ]

destructive_goal :
    (type : CoachActionType) → is_delete_goal type ≡ true → is_destructive type ≡ true
destructive_goal delete_goal h = refl
destructive_goal _ h = cc

-- What the check of a batch leaves of its deletes.
goals-of_deletes :
    (actions : List CoachProposedAction)
    → filter deletes_goal (filter deletes actions) ≡ filter deletes_goal actions
goals-of_deletes [] = refl
goals-of_deletes (a ∷ rest) = elim (Bool-cases (deletes_goal a)) [
  | inl goal ↦ rw (destructive_goal a.type goal, goal, goals-of_deletes rest)
  | inr other ↦ elim (Bool-cases (deletes a)) [
    | inl destructive ↦ rw (destructive, other, goals-of_deletes rest)
    | inr harmless ↦ rw (harmless, other, goals-of_deletes rest)
  ]
]

length-map : {A B : Type 0} (f : A → B) (xs : List A) → length (map f xs) ≡ length xs
length-map f [] = refl
length-map f (x ∷ xs) = ap suc (length-map f xs)

safe-goal_deletes :
    (settings : Settings) (actions : List CoachProposedAction) (confirmed : Option (List String))
    → assert_proposal_batch_safe settings actions confirmed ≡ ok tt
    → length (goal_deletes actions) ≤ settings.max_goal_deletions
unfolding assert_proposal_batch_safe
safe-goal_deletes settings actions confirmed h =
    let (_, after_shapes) = >>-eq-ok (assert_payload_shapes actions) _ h in
    let few : length (filter deletes_goal (filter deletes actions)) ≤ settings.max_goal_deletions =
      ground arith in
    rw
      (
        length-map (λ (a : CoachProposedAction). or_else a.id "") (filter deletes_goal actions),
        ← goals-of_deletes actions,
      )
      few

confirmed-goal_deletes :
    (ids : List String) (actions : List CoachProposedAction) (id : String)
    → any (λ a. not (is_confirmed ids a)) (filter deletes actions) ≡ false
    → any (str_eq id) ids ≡ false
    → any (str_eq id) (goal_deletes actions) ≡ false
confirmed-goal_deletes ids [] id h missing = refl
confirmed-goal_deletes ids (a ∷ rest) id h missing = elim (Bool-cases (deletes_goal a)) [
  | inl goal ↦
      let h' : (not (is_confirmed ids a)
            || any (λ a. not (is_confirmed ids a)) (filter deletes rest))
          ≡ false =
        rw (destructive_goal a.type goal) at h in
      let listed : any (str_eq (or_else a.id "")) ids ≡ true = ground arith in
      let later = confirmed-goal_deletes ids rest id (ground arith) missing in
      elim (Bool-cases (str_eq id (or_else a.id ""))) [
        | inl same ↦
            let e = (eq_iff id (or_else a.id "")).0 same in
            absurd (false≢true (sym missing ∙ ap (λ i. any (str_eq i) ids) e ∙ listed))
        | inr other ↦ rw (goal, other) later
      ]
  | inr other ↦
      let h' : any (λ a. not (is_confirmed ids a)) (filter deletes rest) ≡ false =
        elim (Bool-cases (deletes a)) [
          | inl destructive ↦ let h'' = rw destructive at h in ground arith
          | inr harmless ↦ rw harmless at h
        ] in
      rw other (confirmed-goal_deletes ids rest id h' missing)
]

safe-confirmed :
    (settings : Settings) (actions : List CoachProposedAction) (confirmed : Option (List String))
    → (is_some confirmed || settings.confirmation_required) ≡ true
    → assert_proposal_batch_safe settings actions confirmed ≡ ok tt
    → any (λ a. not (is_confirmed (or_else confirmed []) a)) (filter deletes actions) ≡ false
unfolding assert_proposal_batch_safe
safe-confirmed settings actions confirmed strict h =
    let (_, after_shapes) = >>-eq-ok (assert_payload_shapes actions) _ h in ground arith

module _ {Rest : Type 0} (s : Services Rest) (user_id : String)
    (others : (id : String) (type : CoachActionType) (p : Fields) (w : World Rest)
      → has_goal id w.db ≡ true
      → has_goal id (s.others type user_id p w).1.db ≡ true) where
  -- Whatever a batch of proposals holds and answers, it deletes at most as many goals as the cap of
  -- goal deletions says, where the services of the other actions delete no goal.
  pub apply-few_goals :
      (settings : Settings) (actions : List CoachProposedAction) (confirmed : Option (List String))
      (w : World Rest)
      → (gone : List String) × (length gone ≤ settings.max_goal_deletions)
        × ((id : String)
            → any (str_eq id) gone ≡ false
            → has_goal id w.db ≡ true
            → has_goal id (apply s user_id settings actions confirmed w).1.db ≡ true)
  unfolding apply
  apply-few_goals settings actions confirmed w =
      elim (Result-cases (assert_proposal_batch_safe settings actions confirmed)) [
        | inl (thrown, e) ↦ ([], omega arith, λ id unnamed h. rw e h)
        | inr (_, e) ↦ (
          goal_deletes actions,
          safe-goal_deletes settings actions confirmed e,
          unnamed-HasGoal s user_id others settings actions confirmed w,
        )
      ]

  -- Where deletes are confirmed one by one (the request lists the confirmed ids, or the setting asks
  -- for them), a batch deletes no goal whose id is not listed, whatever else it holds, where the
  -- services of the other actions delete no goal.
  pub apply-confirmed :
      (settings : Settings) (actions : List CoachProposedAction) (confirmed : Option (List String))
      (w : World Rest) (id : String)
      → (is_some confirmed || settings.confirmation_required) ≡ true
      → any (str_eq id) (or_else confirmed []) ≡ false
      → has_goal id w.db ≡ true
      → has_goal id (apply s user_id settings actions confirmed w).1.db ≡ true
  unfolding apply
  apply-confirmed settings actions confirmed w id strict unlisted h =
      elim (Result-cases (assert_proposal_batch_safe settings actions confirmed)) [
        | inl (thrown, e) ↦ rw e h
        | inr (_, e) ↦
            unnamed-HasGoal s user_id others settings actions confirmed w id
              (confirmed-goal_deletes (or_else confirmed []) actions id
                (safe-confirmed settings actions confirmed strict e) unlisted)
              h
      ]
