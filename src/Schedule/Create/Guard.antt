-- ===== src/Schedule/Create/Guard.antt =====
-- The retries of `createWithConflictGuard` and `createBatchWithConflictGuard`: they end, and they
-- answer with the outcome of one attempt.
use goal_slot_api.Base.{
  ℕ, suc, ◌+◌, ◌≤◌, ◌<◌, ◌≡◌, ◌≢◌, ◌⊎◌, refl, true, false, inl, inr, some, List, [], ◌∷◌, arith,
  length, if◌then◌else◌, ◌↔◌, Memᴰ, is_some, serialization_failure, Result, ok, err,
}
use goal_slot_api.Db.{ScheduleBlock}
use goal_slot_api.Schedule.Create.{Attempt, max_conflict_retries, with_conflict_guard}

-- How many attempts in a row, from the first, the database aborts.
abbrev pub aborted_run : List Attempt → ℕ
aborted_run [] = 0
aborted_run (a ∷ rest) = if a.aborted then suc (aborted_run rest) else 0

module _ {ℓ} {R : Type ℓ} (body : List ScheduleBlock → Result (R × List ScheduleBlock)) where
  guard-ok_head :
      (n : ℕ) (a : Attempt) (rest : List Attempt) (r : R × List ScheduleBlock)
      → with_conflict_guard body n (a ∷ rest) ≡ some (ok r)
      → ((a.aborted ≡ false) × (body a.table ≡ ok r))
        ⊎ (with_conflict_guard body (n + 1) rest ≡ some (ok r))
  unfolding with_conflict_guard
  guard-ok_head n a rest r h = ground arith

  -- What the guard answers when it succeeds is what the body made of the rows of one attempt, which
  -- the database did not abort.
  pub guard-ok :
      (n : ℕ) (attempts : List Attempt) (r : R × List ScheduleBlock)
      → with_conflict_guard body n attempts ≡ some (ok r)
      → (a : Attempt) × Memᴰ a attempts × (a.aborted ≡ false) × (body a.table ≡ ok r)
  unfolding with_conflict_guard
  guard-ok n [] r h = cc
  guard-ok n (a ∷ rest) r h = elim (guard-ok_head n a rest r h) [
    | inl here ↦ (a, Memᴰ.head refl, here.0, here.1)
    | inr later ↦ let (b, m, live, e) = guard-ok (n + 1) rest r later in (b, Memᴰ.tail m, live, e)
  ]

  -- Four attempts are enough: with at least so many left of the database's answers the guard
  -- answers.
  pub guard_total :
      (n : ℕ) (attempts : List Attempt)
      → n ≤ max_conflict_retries
      → max_conflict_retries < n + length attempts
      → is_some (with_conflict_guard body n attempts) ≡ true
  unfolding with_conflict_guard
  guard_total n [] le h = absurd (omega arith)
  guard_total n (a ∷ rest) le h = ground (arith, guard_total (n + 1) rest)

  -- A serialization failure reaches the caller exactly if the first four attempts are all aborted,
  -- where the body itself throws none (`n` counts the attempts made).
  pub guard-serialization_failure_iff :
      (n : ℕ) (attempts : List Attempt)
      → ((t : List ScheduleBlock) → body t ≢ err serialization_failure)
      → n ≤ max_conflict_retries
      → (with_conflict_guard body n attempts ≡ some (err serialization_failure))
        ↔ (max_conflict_retries < n + aborted_run attempts)
  unfolding with_conflict_guard
  guard-serialization_failure_iff n [] clean le = (λ h. cc, λ h. absurd (omega arith))
  guard-serialization_failure_iff n (a ∷ rest) clean le = (
    λ h. ground (arith, clean a.table, guard-serialization_failure_iff (n + 1) rest clean),
    λ h. ground (arith, guard-serialization_failure_iff (n + 1) rest clean),
  )
