-- ===== src/Timer/Invariant.antt =====
-- What holds of the slot of a user under any interleaving of the statements of any requests.
use goal_slot_api.Base.{
  ℕ, ◌≤◌, ◌≡◌, refl, none, some, String, arith, is_some, ok, subst, Bool-cases, str_eq, inl, inr,
  ◌&&◌,
}
use goal_slot_api.Timer.Session.{SessionRow, max_accumulated_ms}
use goal_slot_api.Timer.Statements.{
  Slot, create_row, upsert_row, pause_patch, is_running, is_paused, pause_write, resume_write,
  delete_row, discard,
}
use goal_slot_api.Timer.Service.{AttributionDto, base_row, attributed}

abbrev attribute : AttributionDto → Slot → Slot
attribute dto none = none
attribute dto (some s) = some (attributed dto s)

-- One statement. A pause or a resume may rest on any row that its request read at any time before,
-- also one that is no longer there.
pub data Step : Slot → Slot → Type 0 where
  creates :
      (id : String) (dto : AttributionDto) (now : ℕ) {s t : Slot}
      → create_row (base_row id dto now) s ≡ ok t
      → Step s t
  takes_over :
      (id : String) (dto : AttributionDto) (now : ℕ) {s : Slot}
      → Step s (upsert_row (base_row id dto now) s)
  pauses :
      (read : SessionRow) (now : ℕ) {s : Slot} → Step s (pause_write (pause_patch read now) s).1
  resumes : (id : String) (now : ℕ) {s : Slot} → Step s (resume_write id now s).1
  attributes : (dto : AttributionDto) {s : Slot} → Step s (attribute dto s)
  stops : (id : String) {s : Slot} → Step s (delete_row id s).1
  discards : {s : Slot} → Step s (discard s).1

pub data Reach : Slot → Type 0 where
  empty : Reach none
  then : {s t : Slot} → Reach s → Step s t → Reach t

-- A segment is open exactly while the session runs, the pause is stamped exactly while it is
-- paused, and the stored milliseconds fit the column.
pub record IsCoherentRow (s : SessionRow) : Type 0 where
  pub segment : is_some s.segment_started_at ≡ is_running s.status
  pub stamp : is_some s.paused_at ≡ is_paused s.status
  pub fits : s.accumulated_ms ≤ max_accumulated_ms

abbrev pub IsCoherent : Slot → Type 0
IsCoherent none = Unit
IsCoherent (some s) = IsCoherentRow s

base_row-IsCoherent :
    (id : String) (dto : AttributionDto) (now : ℕ) → IsCoherentRow (base_row id dto now)
unfolding base_row
base_row-IsCoherent id dto now = ground arith

create-IsCoherent :
    (row : SessionRow) (s t : Slot) → create_row row s ≡ ok t → IsCoherentRow row → IsCoherent t
unfolding create_row
create-IsCoherent row none t h c = let e : some row ≡ t = cc in subst IsCoherent e c
create-IsCoherent row (some s) t h c = cc

upsert-IsCoherent :
    (row : SessionRow) (s : Slot) → IsCoherentRow row → IsCoherent (upsert_row row s)
unfolding upsert_row
upsert-IsCoherent row none c = c
upsert-IsCoherent row (some s) c = record { segment = c.segment; stamp = c.stamp; fits = c.fits }

pause-IsCoherent :
    (read : SessionRow) (now : ℕ) (s : Slot)
    → IsCoherent s
    → IsCoherent (pause_write (pause_patch read now) s).1
unfolding pause_write pause_patch
pause-IsCoherent read now none c = c
pause-IsCoherent read now (some s) c =
    elim (Bool-cases (str_eq s.id read.id && is_running s.status)) [
      | inl hit ↦ rw hit (record { segment = refl; stamp = refl; fits = omega arith })
      | inr miss ↦ rw miss c
    ]

resume-IsCoherent :
    (id : String) (now : ℕ) (s : Slot) → IsCoherent s → IsCoherent (resume_write id now s).1
unfolding resume_write
resume-IsCoherent id now none c = c
resume-IsCoherent id now (some s) c = elim (Bool-cases (str_eq s.id id && is_paused s.status)) [
  | inl hit ↦ rw hit (record { segment = refl; stamp = refl; fits = c.fits })
  | inr miss ↦ rw miss c
]

attribute-IsCoherent :
    (dto : AttributionDto) (s : Slot) → IsCoherent s → IsCoherent (attribute dto s)
unfolding attributed
attribute-IsCoherent dto none c = c
attribute-IsCoherent dto (some s) c = record { segment = c.segment; stamp = c.stamp; fits = c.fits }

delete-IsCoherent : (id : String) (s : Slot) → IsCoherent s → IsCoherent (delete_row id s).1
unfolding delete_row
delete-IsCoherent id none c = c
delete-IsCoherent id (some s) c = elim (Bool-cases (str_eq s.id id)) [
  | inl hit ↦ rw hit tt
  | inr miss ↦ rw miss c
]

discard-IsCoherent : (s : Slot) → IsCoherent (discard s).1
unfolding discard
discard-IsCoherent none = tt
discard-IsCoherent (some s) = tt

Step-IsCoherent : {s t : Slot} → Step s t → IsCoherent s → IsCoherent t
Step-IsCoherent {s} {t} (creates id dto now h) c =
    create-IsCoherent (base_row id dto now) s t h (base_row-IsCoherent id dto now)
Step-IsCoherent {s} (takes_over id dto now) c =
    upsert-IsCoherent (base_row id dto now) s (base_row-IsCoherent id dto now)
Step-IsCoherent {s} (pauses read now) c = pause-IsCoherent read now s c
Step-IsCoherent {s} (resumes id now) c = resume-IsCoherent id now s c
Step-IsCoherent {s} (attributes dto) c = attribute-IsCoherent dto s c
Step-IsCoherent {s} (stops id) c = delete-IsCoherent id s c
Step-IsCoherent {s} discards c = discard-IsCoherent s

-- Every slot that the statements of any requests reach from the empty one, in any order and with
-- any stale reads of pauses and resumes, is coherent: a segment is open exactly while the session
-- runs, a pause is stamped exactly while it is paused, and the stored milliseconds fit the column.
pub Reach-IsCoherent : {s : Slot} → Reach s → IsCoherent s
Reach-IsCoherent empty = tt
Reach-IsCoherent (then r st) = Step-IsCoherent st (Reach-IsCoherent r)
