-- ===== src/Auth/Register.antt =====
-- register of src/modules/auth/auth.service.ts, without the password, the seeded categories and labels,
-- the emails and the tokens.
use goal_slot_api.Base.{
  ℕ, ◌≡◌, refl, Bool, true, false, Option, none, some, List, [], ◌∷◌, ◌++◌, String, str_eq, eq_iff,
  eq_refl, arith, find, any, bad_request, unauthorized, conflict, Result, ok, err, ◌>>◌, throw_if,
  >>-eq-ok, inl, inr, Bool-cases, if◌then◌else◌,
}
use goal_slot_api.Db.{truthy, external, basic, User, user_by_id}
use goal_slot_api.Plan.{plan_limits, resolve_plan_limits}
use goal_slot_api.Auth.OtpAttempts.{Tracker, locked_at, is_locked_out, record_failed_attempt, put}
use goal_slot_api.Auth.Otp.{otp_policy, too_many, wrong_otp, verify_otp}

pub record RegisterDto : Type 0 where
  pub email : String
  pub otp : String

abbrev pub user_by_email : String → User → Bool
user_by_email email u = str_eq u.email email

-- `plus_days` is the local calendar's: an instant some days later.
unfoldable pub new_user : (ℕ → ℕ → ℕ) → String → RegisterDto → ℕ → User
new_user plus_days fresh_id dto now = record {
  id = fresh_id;
  email = dto.email;
  user_type = external;
  plan = basic;
  unlimited_access = false;
  stripe_subscription_id = none;
  subscription_status = some "active";
  subscription_end_date = some (plus_days now 60);
  admin_assigned_plan = none;
  stripe_customer_id = none;
  first_payment_date = none;
  last_payment_date = none;
  invoice_pending = false;
  last_invoice_id = none;
}

-- What follows the check of the code.
unfoldable pub register_verified :
    (ℕ → ℕ → ℕ) → String → RegisterDto → ℕ → List User → Result (List User)
register_verified plus_days fresh_id dto now users = do
  throw_if (any (user_by_email dto.email) users) (conflict "Email already registered")
  throw_if (any (user_by_id fresh_id) users)
      (bad_request "Failed to create account. Please try again.")
  ok (users ++ new_user plus_days fresh_id dto now ∷ [])

-- `key` is the key of the email for signing up, and `code` the code that the cache holds under it.
unfoldable pub register :
    (ℕ → ℕ → ℕ)
    → String
    → Option String
    → String
    → RegisterDto
    → ℕ
    → List User
    → Tracker
    → Result (List User) × Tracker
register plus_days key code fresh_id dto now users t =
    let (verified, t') = verify_otp key code dto.otp now t in
    (verified >> register_verified plus_days fresh_id dto now users, t')

find-snoc :
    (p : User → Bool) (xs : List User) (y : User)
    → any p xs ≡ false
    → p y ≡ true
    → find p (xs ++ y ∷ []) ≡ some y
find-snoc p [] y h k = rw k refl
find-snoc p (x ∷ xs) y h k =
    let rest = find-snoc p xs y (ground arith) k in
    let miss : p x ≡ false = ground arith in rw miss rest

find-none : (p : User → Bool) (xs : List User) → any p xs ≡ false → find p xs ≡ none
find-none p [] h = refl
find-none p (x ∷ xs) h =
    let rest = find-none p xs (ground arith) in
    let miss : p x ≡ false = ground arith in rw miss rest

abbrev wrong_answer : Bool → Result (Unit {0})
wrong_answer locked_out =
    if locked_out then too_many else err (unauthorized "Invalid OTP code. Please try again.")

never_ok : {P : Type 0} (b : Bool) → wrong_answer b ≡ ok tt → P
never_ok true e = cc
never_ok false e = cc

verify_otp-right :
    (key code otp : String) (now : ℕ) (t : Tracker)
    → (verify_otp key (some code) otp now t).0 ≡ ok tt
    → code ≡ otp
unfolding verify_otp is_locked_out wrong_otp
verify_otp-right key code otp now t e = elim (Bool-cases (locked_at (t.lockouts key) now)) [
  | inl locked ↦ let e' : too_many ≡ ok tt = rw locked at e in cc
  | inr free ↦ elim (Bool-cases (str_eq code otp)) [
    | inl right ↦ (eq_iff code otp).0 right
    | inr wrong ↦ elim (Bool-cases (truthy (some code))) [
      | inr empty ↦
          let e' : err (bad_request "OTP not found or expired. Please request a new code.")
              ≡ ok tt =
            rw (free, empty) at e in
          cc
      | inl filled ↦
          never_ok
            (record_failed_attempt key otp_policy now
              (record t { lockouts = put key none t.lockouts })).0.locked_out
            (rw (free, filled, wrong) at e)
    ]
  ]
]

-- A registration succeeds only with the stored code, and leaves an account whose email was not
-- registered; it has the limits of BASIC at every instant, so also after the 60 days of its trial.
pub register-limits :
    (plus_days : ℕ → ℕ → ℕ) (key code fresh_id : String) (dto : RegisterDto) (now : ℕ)
    (users users' : List User) (t : Tracker)
    → (register plus_days key (some code) fresh_id dto now users t).0 ≡ ok users'
    → (code ≡ dto.otp)
      × (find (user_by_email dto.email) users ≡ none)
      × ((u : User) × (find (user_by_email dto.email) users' ≡ some u)
          × ((later : ℕ) → resolve_plan_limits u later ≡ plan_limits basic))
unfolding register register_verified new_user resolve_plan_limits
register-limits plus_days key code fresh_id dto now users users' t e =
    let (verified, e1) =
      >>-eq-ok ((verify_otp key (some code) dto.otp now t).0)
        (register_verified plus_days fresh_id dto now users) e in
    let (unknown, e2) =
      >>-eq-ok
        (throw_if (any (user_by_email dto.email) users) (conflict "Email already registered")) _
        e1 in
    let (fresh, e3) =
      >>-eq-ok
        (throw_if (any (user_by_id fresh_id) users)
          (bad_request "Failed to create account. Please try again."))
        _ e2 in
    let nobody : any (user_by_email dto.email) users ≡ false = ground arith in
    let added : users ++ new_user plus_days fresh_id dto now ∷ [] ≡ users' = cc in
    (
      verify_otp-right key code dto.otp now t verified,
      find-none (user_by_email dto.email) users nobody,
      (
        new_user plus_days fresh_id dto now,
        rw (← added) (
            find-snoc (user_by_email dto.email) users (new_user plus_days fresh_id dto now) nobody
              (eq_refl dto.email)),
        λ later. ground arith,
      ),
    )
