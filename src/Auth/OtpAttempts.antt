-- ===== src/Auth/OtpAttempts.antt =====
-- The store of failed one-time codes, src/modules/auth/otp-attempt-tracker.service.ts. A key is the
-- text that `key` makes of an email and a purpose. Instants and durations are milliseconds.
use goal_slot_api.Base.{
  ℕ, ◌+◌, ◌<◌, ◌≡◌, ◌∙◌, refl, Bool, true, false, Option, none, some, List, [], ◌∷◌, String, str_eq,
  arith, eq_refl, ltb, leb, if◌then◌else◌, length,
}

pub record AttemptEntry : Type 0 where
  pub count : ℕ
  pub expires_at : ℕ

-- The two `Map`s, as functions of the key.
pub record Tracker : Type 0 where
  pub attempts : String → Option AttemptEntry
  pub lockouts : String → Option ℕ

-- `map.set(key, value)`, or `map.delete(key)` for `none`.
abbrev pub put : {V : Type 0} → String → Option V → (String → Option V) → String → Option V
put key value entries k = if str_eq k key then value else entries k

abbrev pub locked_at : Option ℕ → ℕ → Bool
locked_at none now = false
locked_at (some until) now = ltb now until

unfoldable pub is_locked_out : String → ℕ → Tracker → Bool × Tracker
is_locked_out key now t =
    let locked = locked_at (t.lockouts key) now in
    (locked, if locked then t else record t { lockouts = put key none t.lockouts })

unfoldable pub next_count : Option AttemptEntry → ℕ → ℕ
next_count none now = 1
next_count (some e) now = if ltb now e.expires_at then e.count + 1 else 1

-- The three numbers that the caller passes.
pub record Policy : Type 0 where
  pub max_attempts : ℕ
  pub attempt_window_ms : ℕ
  pub lockout_duration_ms : ℕ

pub record Attempted : Type 0 where
  pub locked_out : Bool
  pub count : ℕ

unfoldable pub record_failed_attempt : String → Policy → ℕ → Tracker → Attempted × Tracker
record_failed_attempt key p now t =
    let count = next_count (t.attempts key) now in
    if leb p.max_attempts count
    then (
      record { locked_out = true; count = count },
      record {
        attempts = put key none t.attempts;
        lockouts = put key (some (now + p.lockout_duration_ms)) t.lockouts;
      },
    )
    else (
      record { locked_out = false; count = count },
      record t {
        attempts =
            put key (some (record { count = count; expires_at = now + p.attempt_window_ms }))
              t.attempts;
      },
    )

unfoldable pub reset : String → Tracker → Tracker
reset key t = record { attempts = put key none t.attempts; lockouts = put key none t.lockouts }

-- The failures of one key at the given instants, with nothing else of the key between.
abbrev pub fails : String → Policy → List ℕ → Tracker → Tracker
fails key p [] t = t
fails key p (now ∷ rest) t = fails key p rest (record_failed_attempt key p now t).1

-- Each instant comes before the expiry that the one before it sets.
abbrev pub Within : ℕ → ℕ → List ℕ → Type 0
Within expiry window [] = Unit
Within expiry window (now ∷ rest) = (now < expiry) × Within (now + window) window rest

abbrev pub stored : ℕ → ℕ → Option AttemptEntry
stored count expiry = some (record { count = count; expires_at = expiry })

abbrev pub last_of : ℕ → List ℕ → ℕ
last_of first [] = first
last_of first (now ∷ rest) = last_of now rest

pub below :
    (key : String) (p : Policy) (n expiry now : ℕ) (t : Tracker)
    → t.attempts key ≡ stored n expiry
    → now < expiry
    → n + 1 < p.max_attempts
    → ((record_failed_attempt key p now t).1.attempts key
        ≡ stored (n + 1) (now + p.attempt_window_ms))
      × ((record_failed_attempt key p now t).1.lockouts key ≡ t.lockouts key)
unfolding record_failed_attempt next_count
below key p n expiry now t h w le = rw h (ground (arith, eq_refl key), ground (arith, eq_refl key))

pub reaching :
    (key : String) (p : Policy) (n expiry now : ℕ) (t : Tracker)
    → t.attempts key ≡ stored n expiry
    → now < expiry
    → n + 1 ≡ p.max_attempts
    → (record_failed_attempt key p now t).1.lockouts key ≡ some (now + p.lockout_duration_ms)
unfolding record_failed_attempt next_count
reaching key p n expiry now t h w le = rw h (ground (arith, eq_refl key))

pub fresh_key :
    (key : String) (p : Policy) (now : ℕ) (t : Tracker)
    → t.attempts key ≡ none
    → 1 < p.max_attempts
    → ((record_failed_attempt key p now t).1.attempts key ≡ stored 1 (now + p.attempt_window_ms))
      × ((record_failed_attempt key p now t).1.lockouts key ≡ t.lockouts key)
unfolding record_failed_attempt next_count
fresh_key key p now t h le = rw h (ground (arith, eq_refl key), ground (arith, eq_refl key))

fresh_reaching :
    (key : String) (p : Policy) (now : ℕ) (t : Tracker)
    → t.attempts key ≡ none
    → 1 ≡ p.max_attempts
    → (record_failed_attempt key p now t).1.lockouts key ≡ some (now + p.lockout_duration_ms)
unfolding record_failed_attempt next_count
fresh_reaching key p now t h le = rw h (ground (arith, eq_refl key))

locks_from :
    (key : String) (p : Policy) (first : ℕ) (ts : List ℕ) (n expiry : ℕ) (t : Tracker)
    → t.attempts key ≡ stored n expiry
    → Within expiry p.attempt_window_ms (first ∷ ts)
    → n + 1 + length ts ≡ p.max_attempts
    → (fails key p (first ∷ ts) t).lockouts key ≡ some (last_of first ts + p.lockout_duration_ms)
locks_from key p first [] n expiry t h w le = reaching key p n expiry first t h w.0 (omega arith)
locks_from key p first (next ∷ ts) n expiry t h w le =
    locks_from key p next ts (n + 1) (first + p.attempt_window_ms)
      (record_failed_attempt key p first t).1 (below key p n expiry first t h w.0 (omega arith)).0
      w.1 (omega arith)

spares_from :
    (key : String) (p : Policy) (ts : List ℕ) (n expiry : ℕ) (t : Tracker)
    → t.attempts key ≡ stored n expiry
    → Within expiry p.attempt_window_ms ts
    → n + length ts < p.max_attempts
    → (fails key p ts t).lockouts key ≡ t.lockouts key
spares_from key p [] n expiry t h w le = refl
spares_from key p (first ∷ ts) n expiry t h w le =
    let (kept, same) = below key p n expiry first t h w.0 (omega arith) in
    spares_from key p ts (n + 1) (first + p.attempt_window_ms)
      (record_failed_attempt key p first t).1 kept w.1 (omega arith)
    ∙ same

-- As many failures of a key as `maxAttempts`, each within the window of the one before, the first on
-- a key without a count, lock the key until `lockoutDurationMs` after the last.
fails-locks :
    (key : String) (p : Policy) (first : ℕ) (ts : List ℕ) (t : Tracker)
    → t.attempts key ≡ none
    → Within (first + p.attempt_window_ms) p.attempt_window_ms ts
    → 1 + length ts ≡ p.max_attempts
    → (fails key p (first ∷ ts) t).lockouts key ≡ some (last_of first ts + p.lockout_duration_ms)
fails-locks key p first [] t h w le = fresh_reaching key p first t h (omega arith)
fails-locks key p first (next ∷ ts) t h w le =
    locks_from key p next ts 1 (first + p.attempt_window_ms) (record_failed_attempt key p first t).1
      (fresh_key key p first t h (omega arith)).0 w (omega arith)

-- Fewer failures of a key than `maxAttempts`, each within the window of the one before, the first
-- on a key without a count, leave its lockout as it is.
fails-spares :
    (key : String) (p : Policy) (first : ℕ) (ts : List ℕ) (t : Tracker)
    → t.attempts key ≡ none
    → Within (first + p.attempt_window_ms) p.attempt_window_ms ts
    → 1 + length ts < p.max_attempts
    → (fails key p (first ∷ ts) t).lockouts key ≡ t.lockouts key
fails-spares key p first ts t h w le =
    let (kept, same) = fresh_key key p first t h (omega arith) in
    spares_from key p ts 1 (first + p.attempt_window_ms) (record_failed_attempt key p first t).1
      kept w (omega arith)
    ∙ same
