-- ===== src/Auth/Examples.antt =====
-- Concrete failures of one-time codes.
use goal_slot_api.Base.{ℕ, ◌+◌, ◌*◌, ◌≡◌, refl, none, some, [], ◌∷◌, arith, find, ok}
use goal_slot_api.Db.{basic, User}
use goal_slot_api.Plan.{plan_limits, resolve_plan_limits}
use goal_slot_api.Auth.Register.{
  RegisterDto, user_by_email, new_user, register_verified, register, register-limits,
}
use goal_slot_api.Auth.OtpAttempts.{Tracker, is_locked_out}
use goal_slot_api.Auth.Otp.{too_many, verify_otp, guesses, verify_otp-locks}

abbrev no_failures : Tracker
no_failures = record { attempts = λ key. none; lockouts = λ key. none }

-- Five guesses of a code that is 123456, and then the code itself.
verify_otp-locks_example :
    (verify_otp "k" (some "123456") "123456" 60000 (
      guesses "k" "123456"
        (("1", 1000) ∷ ("2", 2000) ∷ ("3", 3000) ∷ ("4", 4000) ∷ ("5", 5000) ∷ [])
        no_failures)).0
    ≡ too_many
verify_otp-locks_example =
    verify_otp-locks "k" "123456" "1" 1000
      (("2", 2000) ∷ ("3", 3000) ∷ ("4", 4000) ∷ ("5", 5000) ∷ []) no_failures "123456" 60000 refl
      (refl, (refl, (refl, (refl, (refl, tt))))) refl refl
      (ground arith, (ground arith, (ground arith, (ground arith, tt)))) refl (ground arith)

abbrev dto : RegisterDto
dto = record { email = "new@example.org"; otp = "123456" }

abbrev plus_days : ℕ → ℕ → ℕ
plus_days now days = now + days * 86400000

registered :
    (register plus_days "k" (some "123456") "u1" dto 0 [] no_failures).0
    ≡ ok (new_user plus_days "u1" dto 0 ∷ [])
unfolding register register_verified verify_otp is_locked_out
registered = refl

register-limits_example :
    ("123456" ≡ dto.otp)
    × (find (user_by_email "new@example.org") [] ≡ none)
    × ((u : User) × (find (user_by_email "new@example.org") (new_user plus_days "u1" dto 0 ∷ [])
          ≡ some u)
        × ((later : ℕ) → resolve_plan_limits u later ≡ plan_limits basic))
register-limits_example =
    register-limits plus_days "k" "123456" "u1" dto 0 [] (new_user plus_days "u1" dto 0 ∷ [])
      no_failures registered
