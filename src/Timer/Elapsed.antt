-- ===== src/Timer/Elapsed.antt =====
-- The elapsed time that is reconstructed from the row is the time for which the timer ran.
use goal_slot_api.Base.{
  ℕ, zero, suc, ◌+◌, ◌-◌, ◌≤◌, ◌<◌, ◌≡◌, refl, sym, ap, ◌∙◌, eq_refl, Bool, true, false, Option,
  none, some, List, [], ◌∷◌, arith, ltb, if◌then◌else◌, Result, ok, err,
}
use goal_slot_api.Timer.Session.{
  running, paused, SessionRow, max_accumulated_ms, compute_elapsed_ms, Response,
}
use goal_slot_api.Timer.Statements.{Slot, pause_patch, pause_write, resume_write}
use goal_slot_api.Timer.Service.{pause, resume}

-- A press of pause or resume, at an instant.
pub data Press : Type 0 where
  press_pause press_resume : ℕ → Press

abbrev pub instant : Press → ℕ
instant (press_pause t) = t
instant (press_resume t) = t

abbrev slot_after : Result (Option Response × Slot) → Slot → Slot
slot_after (ok r) slot = r.1
slot_after (err e) slot = slot

abbrev pub press : Press → Slot → Slot
press (press_pause t) slot = slot_after (pause t slot) slot
press (press_resume t) slot = slot_after (resume t slot) slot

pub presses : List Press → Slot → Slot
presses [] slot = slot
presses (p ∷ ps) slot = presses ps (press p slot)

abbrev pub elapsed : Slot → ℕ → ℕ
elapsed none now = 0
elapsed (some s) now = compute_elapsed_ms s now

-- Whether the timer runs at an instant, by the last press up to it.
abbrev pub set_by : Press → Bool
set_by (press_pause t) = false
set_by (press_resume t) = true

pub runs_at : Bool → List Press → ℕ → Bool
runs_at was [] t = was
runs_at was (p ∷ ps) t =
    let later = runs_at (set_by p) ps t in if ltb t (instant p) then was else later

-- How many of the n milliseconds from `a` on satisfy a test.
pub ticks : (ℕ → Bool) → ℕ → ℕ → ℕ
ticks f a zero = 0
ticks f a (suc n) = let rest = ticks f (suc a) n in if f a then suc rest else rest

-- The presses come in order, from `a` to `now`.
abbrev pub InOrder : ℕ → List Press → ℕ → Type 0
InOrder a [] now = a ≤ now
InOrder a (p ∷ ps) now = (a ≤ instant p) × InOrder (instant p) ps now

abbrev amount : Bool → ℕ → ℕ
amount b n = if b then n else 0

InOrder-le : (a : ℕ) (ps : List Press) (now : ℕ) → InOrder a ps now → a ≤ now
InOrder-le a [] now h = h
InOrder-le a (p ∷ ps) now h = omega (arith, h.0, InOrder-le (instant p) ps now h.1)

-- Up to the first press nothing changes.
runs_at_before :
    (was : Bool) (ps : List Press) (t t' now : ℕ)
    → InOrder t' ps now
    → t < t'
    → runs_at was ps t ≡ was
unfolding runs_at
runs_at_before was [] t t' now h l = refl
runs_at_before was (p ∷ ps) t t' now h l = ground arith

ticks_before :
    (was : Bool) (ps : List Press) (a n t now : ℕ)
    → a + n ≡ t
    → InOrder t ps now
    → ticks (runs_at was ps) a (now - a) ≡ amount was n + ticks (runs_at was ps) t (now - t)
unfolding ticks
ticks_before was ps a zero t now e h = let e' : a ≡ t = omega arith in rw e' (ground arith)
ticks_before was ps a (suc n) t now e h =
    let le = InOrder-le t ps now h in
    let m : now - a ≡ suc (now - suc a) = omega arith in
    let now_runs = runs_at_before was ps a t now h (omega arith) in
    let later = ticks_before was ps (suc a) n t now (omega arith) h in rw m (ground arith)

-- From the first press on it has no more say.
ticks_after :
    (was : Bool) (p : Press) (ps : List Press) (a n : ℕ)
    → instant p ≤ a
    → ticks (runs_at was (p ∷ ps)) a n ≡ ticks (runs_at (set_by p) ps) a n
unfolding ticks runs_at
ticks_after was p ps a zero le = refl
ticks_after was p ps a (suc n) le = ground (arith, ticks_after was p ps (suc a) n)

ticks_press :
    (was : Bool) (p : Press) (ps : List Press) (a now : ℕ)
    → InOrder a (p ∷ ps) now
    → ticks (runs_at was (p ∷ ps)) a (now - a)
      ≡ amount was (instant p - a) + ticks (runs_at (set_by p) ps) (instant p) (now - instant p)
ticks_press was p ps a now h =
    ticks_before was (p ∷ ps) a (instant p - a) (instant p) now (omega arith) (omega arith, h.1)
    ∙ ap (λ n. amount was (instant p - a) + n)
        (ticks_after was p ps (instant p) (now - instant p) (omega arith))

-- A press that changes nothing has no say at all.
ticks_same :
    (p : Press) (ps : List Press) (a now : ℕ)
    → InOrder a (p ∷ ps) now
    → ticks (runs_at (set_by p) (p ∷ ps)) a (now - a) ≡ ticks (runs_at (set_by p) ps) a (now - a)
ticks_same p ps a now h =
    ticks_press (set_by p) p ps a now h
    ∙ sym (ticks_before (set_by p) ps a (instant p - a) (instant p) now (omega arith) h.1)

-- The row of a timer that runs since `a`, or is paused.
abbrev pub StateIs : Bool → SessionRow → ℕ → Type 0
StateIs true s a = (s.status ≡ running) × (s.segment_started_at ≡ some a)
StateIs false s a = s.status ≡ paused

module _ (s : SessionRow) (t : ℕ) where
  pause_running :
      s.status ≡ running
      → press (press_pause t) (some s)
        ≡ some (record s {
          status = paused;
          segment_started_at = none;
          paused_at = some t;
          accumulated_ms = (pause_patch s t).accumulated_ms;
        })
  unfolding pause pause_write pause_patch
  pause_running r = ground (arith, eq_refl s.id)

  pause_paused : s.status ≡ paused → press (press_pause t) (some s) ≡ some s
  unfolding pause
  pause_paused r = ground arith

  resume_running : s.status ≡ running → press (press_resume t) (some s) ≡ some s
  unfolding resume
  resume_running r = ground arith

  resume_paused :
      s.status ≡ paused
      → press (press_resume t) (some s)
        ≡ some (record s { status = running; segment_started_at = some t; paused_at = none })
  unfolding resume resume_write
  resume_paused r = ground (arith, eq_refl s.id)

ticks_none : (f : ℕ → Bool) (a n : ℕ) → n ≡ 0 → ticks f a n ≡ 0
unfolding ticks
ticks_none f a n e = rw e refl

-- The fold of the open segment, below the ceiling.
folded :
    (s : SessionRow) (a t : ℕ)
    → s.segment_started_at ≡ some a
    → s.accumulated_ms + (t - a) ≤ max_accumulated_ms
    → (pause_patch s t).accumulated_ms ≡ s.accumulated_ms + (t - a)
unfolding pause_patch
folded s a t h b = rw h (omega arith)

InOrder-down : (a t : ℕ) (ps : List Press) (now : ℕ) → a ≤ t → InOrder t ps now → InOrder a ps now
InOrder-down a t [] now le h = omega arith
InOrder-down a t (p ∷ ps) now le h = (omega arith, h.1)

elapsed_now :
    (was : Bool) (s : SessionRow) (a now : ℕ)
    → StateIs was s a
    → compute_elapsed_ms s now ≡ s.accumulated_ms + amount was (now - a)
unfolding compute_elapsed_ms
elapsed_now true s a now h = ground arith
elapsed_now false s a now h = ground arith

elapsed_from :
    (was : Bool) (ps : List Press) (s : SessionRow) (a now : ℕ)
    → StateIs was s a
    → InOrder a ps now
    → s.accumulated_ms + (now - a) ≤ max_accumulated_ms
    → elapsed (presses ps (some s)) now ≡ s.accumulated_ms + ticks (runs_at was ps) a (now - a)
unfolding presses
elapsed_from was [] s a now h o b = omega (
  arith,
  elapsed_now was s a now h,
  ticks_before was [] a (now - a) now now (omega arith) (omega arith),
  ticks_none (runs_at was []) now (now - now) (omega arith),
)
elapsed_from true (press_pause t ∷ ps) s a now h o b =
    let s' : SessionRow = record s {
      status = paused;
      segment_started_at = none;
      paused_at = some t;
      accumulated_ms = (pause_patch s t).accumulated_ms;
    } in
    let le = InOrder-le t ps now o.1 in
    let e : s'.accumulated_ms ≡ s.accumulated_ms + (t - a) = folded s a t h.1 (omega arith) in
    let rest = elapsed_from false ps s' t now refl o.1 (omega arith) in
    rw (pause_running s t h.0) (omega (arith, rest, ticks_press true (press_pause t) ps a now o))
elapsed_from true (press_resume t ∷ ps) s a now h o b = rw (resume_running s t h.0) (
    elapsed_from true ps s a now h (InOrder-down a t ps now o.0 o.1) b
    ∙ ap (λ n. s.accumulated_ms + n) (sym (ticks_same (press_resume t) ps a now o)))
elapsed_from false (press_pause t ∷ ps) s a now h o b = rw (pause_paused s t h) (
    elapsed_from false ps s a now h (InOrder-down a t ps now o.0 o.1) b
    ∙ ap (λ n. s.accumulated_ms + n) (sym (ticks_same (press_pause t) ps a now o)))
elapsed_from false (press_resume t ∷ ps) s a now h o b =
    let s' : SessionRow = record s {
      status = running;
      segment_started_at = some t;
      paused_at = none;
    } in
    let le = InOrder-le t ps now o.1 in
    let rest = elapsed_from true ps s' t now (refl, refl) o.1 (omega arith) in
    rw (resume_paused s t h) (omega (arith, rest, ticks_press false (press_resume t) ps a now o))

-- For any presses of pause and resume in the order of their instants, on a session that runs from
-- the start, the elapsed time that is reconstructed at `now` is the number of milliseconds since
-- the start at which the timer ran, by the last press up to each; if less than the ceiling of the
-- stored milliseconds has passed since the start.
pub elapsed_exact :
    (ps : List Press) (s : SessionRow) (now : ℕ)
    → StateIs true s s.started_at
    → s.accumulated_ms ≡ 0
    → InOrder s.started_at ps now
    → now - s.started_at ≤ max_accumulated_ms
    → elapsed (presses ps (some s)) now ≡ ticks (runs_at true ps) s.started_at (now - s.started_at)
elapsed_exact ps s now h z o b =
    omega (arith, elapsed_from true ps s s.started_at now h o (omega arith))
