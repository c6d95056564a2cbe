-- ===== src/Auth/Otp.antt =====
-- verifyOTP of src/modules/auth/auth.service.ts on the store of failed codes. The code that the cache
-- holds for the email and the purpose is an argument: the cache is third-party.
use goal_slot_api.Base.{
  ℕ, ◌+◌, ◌<◌, ◌≡◌, ◌∙◌, refl, ap, true, false, Option, none, some, List, [], ◌∷◌, String, str_eq,
  arith, eq_refl, ltb, All, if◌then◌else◌, length, bad_request, unauthorized, Result, ok, err,
}
use goal_slot_api.Db.{truthy}
use goal_slot_api.Auth.OtpAttempts.{
  Tracker, Policy, Within, last_of, is_locked_out, record_failed_attempt, reset, put, stored, below,
  reaching, fresh_key,
}

abbrev max_otp_verification_attempts : ℕ
max_otp_verification_attempts = 5

abbrev pub otp_verification_lockout_duration : ℕ
otp_verification_lockout_duration = 900000

abbrev pub otp_policy : Policy
otp_policy = record {
  max_attempts = max_otp_verification_attempts;
  attempt_window_ms = otp_verification_lockout_duration;
  lockout_duration_ms = otp_verification_lockout_duration;
}

abbrev pub too_many : Result (Unit {0})
too_many = err (
    bad_request
      "Too many failed attempts. Your account is temporarily locked. Please try again in 15 minutes.")

-- A code that is not the stored one.
unfoldable pub wrong_otp : String → ℕ → Tracker → Result (Unit {0}) × Tracker
wrong_otp key now t =
    let (attempted, t') = record_failed_attempt key otp_policy now t in
    (
      if attempted.locked_out
          then too_many
          else err (unauthorized "Invalid OTP code. Please try again."),
      t',
    )

abbrev checked_otp : String → Option String → String → ℕ → Tracker → Result (Unit {0}) × Tracker
checked_otp key none otp now t =
    (err (bad_request "OTP not found or expired. Please request a new code."), t)
checked_otp key (some code) otp now t =
    if truthy (some code)
    then (if str_eq code otp then (ok tt, reset key t) else wrong_otp key now t)
    else (err (bad_request "OTP not found or expired. Please request a new code."), t)

-- The stores are written whether the call throws or not.
unfoldable pub verify_otp :
    String → Option String → String → ℕ → Tracker → Result (Unit {0}) × Tracker
verify_otp key code otp now t =
    let (locked, t') = is_locked_out key now t in
    if locked then (too_many, t') else checked_otp key code otp now t'

-- Calls with the given codes at the given instants.
abbrev pub guesses : String → String → List (String × ℕ) → Tracker → Tracker
guesses key code [] t = t
guesses key code ((otp, now) ∷ rest) t =
    guesses key code rest (verify_otp key (some code) otp now t).1

abbrev pub times : List (String × ℕ) → List ℕ
times [] = []
times ((otp, now) ∷ rest) = now ∷ times rest

-- A wrong code on a key that is not locked is a failure that is recorded.
guess-records :
    (key code otp : String) (now : ℕ) (t : Tracker)
    → truthy (some code) ≡ true
    → str_eq code otp ≡ false
    → t.lockouts key ≡ none
    → (verify_otp key (some code) otp now t).1
      ≡ (record_failed_attempt key otp_policy now
          (record t { lockouts = put key none t.lockouts })).1
unfolding verify_otp is_locked_out wrong_otp
guess-records key code otp now t filled wrong unlocked = rw (unlocked, filled, wrong) refl

cleared : (key : String) (t : Tracker) → put key none t.lockouts key ≡ none
cleared key t = rw (eq_refl key) refl

guesses_from :
    (key code : String) (otp : String) (first : ℕ) (rest : List (String × ℕ)) (n expiry : ℕ)
    (t : Tracker)
    → truthy (some code) ≡ true
    → All (λ (g : String × ℕ). str_eq code g.0 ≡ false) ((otp, first) ∷ rest)
    → t.attempts key ≡ stored n expiry
    → t.lockouts key ≡ none
    → Within expiry otp_verification_lockout_duration (first ∷ times rest)
    → n + 1 + length rest ≡ 5
    → (guesses key code ((otp, first) ∷ rest) t).lockouts key
      ≡ some (last_of first (times rest) + otp_verification_lockout_duration)
guesses_from key code otp first [] n expiry t filled wrong counted unlocked w le =
    rw (guess-records key code otp first t filled wrong.0 unlocked) (
      reaching key otp_policy n expiry first (record t { lockouts = put key none t.lockouts })
        counted w.0 (omega arith))
guesses_from key code otp first ((otp', next) ∷ rest) n expiry t filled wrong counted unlocked w
      le =
    let t' = record t { lockouts = put key none t.lockouts } in
    let (counted', kept) = below key otp_policy n expiry first t' counted w.0 (omega arith) in
    let recorded = guess-records key code otp first t filled wrong.0 unlocked in
    guesses_from key code otp' next rest (n + 1) (first + otp_verification_lockout_duration)
      (verify_otp key (some code) otp first t).1 filled wrong.1
      (ap (λ (x : Tracker). x.attempts key) recorded ∙ counted')
      (ap (λ (x : Tracker). x.lockouts key) recorded ∙ (kept ∙ cleared key t)) w.1 (omega arith)

-- Five wrong codes for one email and purpose, each within 15 minutes of the one before, the first with
-- no count and no lockout, lock it: within 15 minutes of the last of them every code is refused, the
-- right one too.
pub verify_otp-locks :
    (key code : String) (otp : String) (first : ℕ) (rest : List (String × ℕ)) (t : Tracker)
    (any_otp : String) (later : ℕ)
    → truthy (some code) ≡ true
    → All (λ (g : String × ℕ). str_eq code g.0 ≡ false) ((otp, first) ∷ rest)
    → t.attempts key ≡ none
    → t.lockouts key ≡ none
    → Within
        (first + otp_verification_lockout_duration)
        otp_verification_lockout_duration
        (times rest)
    → length rest ≡ 4
    → later < last_of first (times rest) + otp_verification_lockout_duration
    → (verify_otp key (some code) any_otp later (guesses key code ((otp, first) ∷ rest) t)).0
      ≡ too_many
unfolding verify_otp is_locked_out
verify_otp-locks key code otp first [] t any_otp later filled wrong fresh unlocked w le soon =
    absurd (omega arith)
verify_otp-locks key code otp first ((otp', next) ∷ rest) t any_otp later filled wrong fresh
      unlocked w le soon =
    let t' = record t { lockouts = put key none t.lockouts } in
    let (counted, kept) = fresh_key key otp_policy first t' fresh (omega arith) in
    let recorded = guess-records key code otp first t filled wrong.0 unlocked in
    let locked =
      guesses_from key code otp' next rest 1 (first + otp_verification_lockout_duration)
        (verify_otp key (some code) otp first t).1 filled wrong.1
        (ap (λ (x : Tracker). x.attempts key) recorded ∙ counted)
        (ap (λ (x : Tracker). x.lockouts key) recorded ∙ (kept ∙ cleared key t)) w (omega arith) in
    let closed : ltb later (last_of next (times rest) + otp_verification_lockout_duration) ≡ true =
      ground arith in
    rw (locked, closed) refl
