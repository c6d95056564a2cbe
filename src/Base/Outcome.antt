-- ===== src/Base/Outcome.antt =====
-- The exceptions that the services throw, the database errors that they tell apart by code, and
-- results that may be one of them.
use Prim.Native.String.{String}
use mathlib.Core.Path.{◌≡◌, refl}
use mathlib.Core.Logic.{◌⊎◌, inl, inr}
use mathlib.Core.Bool.{Bool, true, false}

-- The HTTP exceptions of NestJS with their messages. `unique_violation` is the Prisma error P2002,
-- `serialization_failure` is P2034, `foreign_key_violation` is P2003,
-- and `record_missing`, of an update of one row that is not there, P2025. `error` is `new Error`.
pub data Exception : Type 0 where
  bad_request unauthorized not_found forbidden conflict : String → Exception
  error : String → Exception
  unique_violation serialization_failure foreign_key_violation record_missing : Exception

-- What a handler answers: it throws, or it returns.
pub data Result {ℓ} (Answer : Type ℓ) : Type ℓ where
  err : (thrown : Exception) → Result Answer
  ok : (answer : Answer) → Result Answer

-- A throw skips what follows it.
infixl 5 ◌>>=◌ ◌>>◌
abbrev pub ◌>>=◌ {ℓ κ} : {S : Type ℓ} {T : Type κ} → Result S → (S → Result T) → Result T
err thrown >>= rest = err thrown
ok answer >>= rest = rest answer

abbrev pub ◌>>◌ {ℓ} : {T : Type ℓ} → Result (Unit {0}) → Result T → Result T
err thrown >> rest = err thrown
ok _ >> rest = rest

-- `if (failed) throw thrown;`
abbrev pub throw_if : (failed : Bool) → Exception → Result (Unit {0})
throw_if failed thrown = elim failed [ false ↦ ok tt | true ↦ err thrown ]

-- A chain that returns has a first step that returned.
pub >>=-eq-ok {ℓ κ} :
    {S : Type ℓ} {T : Type κ} (first : Result S) (rest : S → Result T) {t : T}
    → (first >>= rest) ≡ ok t
    → (s : S) × (first ≡ ok s) × (rest s ≡ ok t)
>>=-eq-ok (err thrown) rest returned = cc
>>=-eq-ok (ok s) rest returned = (s, refl, returned)

pub >>-eq-ok {ℓ} :
    {T : Type ℓ} (first : Result (Unit {0})) (rest : Result T) {t : T}
    → (first >> rest) ≡ ok t
    → (first ≡ ok tt) × (rest ≡ ok t)
>>-eq-ok (err thrown) rest returned = cc
>>-eq-ok (ok tt) rest returned = (refl, returned)

pub Result-cases {ℓ} :
    {T : Type ℓ} (r : Result T) → ((e : Exception) × (r ≡ err e)) ⊎ ((t : T) × (r ≡ ok t))
Result-cases (err e) = inl (e, refl)
Result-cases (ok t) = inr (t, refl)

pub ok-injective {ℓ} : {T : Type ℓ} {a b : T} → Result.ok a ≡ ok b → a ≡ b
ok-injective e = cc
