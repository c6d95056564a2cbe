-- ===== src/Shared/Idempotency.antt =====
-- Replays of mutating requests: src/shared/idempotency/idempotency.service.ts and the interceptor.
-- The hash of a request (SHA-256 of its JSON) is a text that the caller brings. The interceptor does
-- not await the call of `store`, so a request leaves a call that is begun, which runs on the records
-- that it meets.
use goal_slot_api.Base.{
  ℕ, ◌+◌, ◌*◌, ◌≤◌, ◌≡◌, refl, Bool, true, false, not, ◌||◌, inl, inr, Option, none, some, List, [],
  ◌∷◌, ◌++◌, String, str_eq, arith, eq_iff, eq_refl, any, find, delete_where, ltb, if◌then◌else◌,
  Bool-cases, Option-cases, Exception, or_else, ◌&&◌,
}
use goal_slot_api.Db.{truthy}

abbrev pub ttl_ms : ℕ
ttl_ms = 24 * 60 * 60 * 1000

abbrev pub sweep_interval_ms : ℕ
sweep_interval_ms = 60 * 60 * 1000

-- The body of an answer: undefined, null, or any other value.
pub data Answer (Body : Type 0) : Type 0 where
  undefined null : Answer Body
  value : Body → Answer Body

-- The columns that a lookup reads.
pub record IdempotencyRecord (Body : Type 0) : Type 0 where
  pub key : String
  pub user_id : String
  pub request_hash : String
  pub status_code : ℕ
  pub response_body : Answer Body
  pub expires_at : ℕ

pub record Store (Body : Type 0) : Type 0 where
  pub records : List (IdempotencyRecord Body)
  pub last_sweep_at : ℕ

-- What the interceptor reads of a request: its method, the header of the key, the user of its token
-- and the hash of its method, route and body.
pub record Request : Type 0 where
  pub method : String
  pub key : Option String
  pub user_id : Option String
  pub request_hash : String

-- What the handler of a request does where it is run.
pub data Handled (Body : Type 0) : Type 0 where
  returned : ℕ → Answer Body → Handled Body
  threw : Exception → Handled Body

-- What the client gets: the exception of a key that is used again, a stored answer, or what the
-- handler does.
pub data Reply (Body : Type 0) : Type 0 where
  reused : Reply Body
  replayed : ℕ → Answer Body → Reply Body
  handled : Handled Body → Reply Body

-- A call of `store` that is begun: its parameters, and the clock.
pub record Begun (Body : Type 0) : Type 0 where
  pub key : String
  pub user_id : String
  pub request_hash : String
  pub status_code : ℕ
  pub response_body : Answer Body
  pub now : ℕ

abbrev pub is_mutating : String → Bool
is_mutating method =
    str_eq method "POST" || str_eq method "PUT" || str_eq method "PATCH" || str_eq method "DELETE"

abbrev pub is_kept : Request → Bool
is_kept req = truthy req.key && is_mutating req.method && truthy req.user_id

module _ {Body : Type 0} where
  abbrev pub by_key : String → IdempotencyRecord Body → Bool
  by_key key r = str_eq r.key key

  -- A record of another user, or past its expiry, counts as absent.
  abbrev pub usable : String → ℕ → Option (IdempotencyRecord Body) → Option (IdempotencyRecord Body)
  usable user_id now none = none
  usable user_id now (some r) =
      if not (str_eq r.user_id user_id) || ltb r.expires_at now then none else some r

  unfoldable pub lookup : String → String → ℕ → Store Body → Option (IdempotencyRecord Body)
  lookup key user_id now s = usable user_id now (find (by_key key) s.records)

  abbrev pub is_expired : ℕ → IdempotencyRecord Body → Bool
  is_expired now r = ltb r.expires_at now

  unfoldable pub maybe_sweep : ℕ → Store Body → Store Body
  maybe_sweep now s =
      if ltb now (s.last_sweep_at + sweep_interval_ms)
      then s
      else record { records = delete_where (is_expired now) s.records; last_sweep_at = now }

  -- `responseBody ?? null`
  abbrev pub or_null : Answer Body → Answer Body
  or_null undefined = null
  or_null null = null
  or_null (value body) = value body

  -- A key that is taken keeps its record: the failure of the insert is caught.
  unfoldable pub store : String → String → String → ℕ → Answer Body → ℕ → Store Body → Store Body
  store key user_id request_hash status_code body now s =
      let row : IdempotencyRecord Body = record {
        key = key;
        user_id = user_id;
        request_hash = request_hash;
        status_code = status_code;
        response_body = or_null body;
        expires_at = now + ttl_ms;
      } in
      maybe_sweep now
        (if any (by_key key) s.records then s else record s { records = s.records ++ row ∷ [] })

  -- A lookup never answers with the record of another user or with one past its expiry.
  pub lookup-owner :
      (key user_id : String) (now : ℕ) (s : Store Body) (r : IdempotencyRecord Body)
      → lookup key user_id now s ≡ some r
      → (r.user_id ≡ user_id) × (now ≤ r.expires_at)
  unfolding lookup
  lookup-owner key user_id now s r h = elim (Option-cases (find (by_key key) s.records)) [
    | inl missing ↦
        let h' : usable user_id now none ≡ some r = rw missing at h in absurd (ground arith)
    | inr (found, f) ↦
        let h' : usable user_id now (some found) ≡ some r = rw f at h in
        let fresh : (not (str_eq found.user_id user_id) || ltb found.expires_at now) ≡ false =
          ground arith in
        let e : found ≡ r = ground arith in
        rw (← e) (ground (arith, eq_iff found.user_id user_id), ground arith)
  ]

  pub find-absent :
      (p : IdempotencyRecord Body → Bool) (rs : List (IdempotencyRecord Body))
      → any p rs ≡ false
      → find p rs ≡ none
  find-absent p [] h = refl
  find-absent p (r ∷ rs) h = ground (arith, find-absent p rs)

  find-kept :
      (p : IdempotencyRecord Body → Bool) (rs : List (IdempotencyRecord Body))
      (row : IdempotencyRecord Body)
      → any p rs ≡ false
      → p row ≡ true
      → find p (rs ++ row ∷ []) ≡ some row
  find-kept p [] row h new = rw new refl
  find-kept p (r ∷ rs) row h new = ground (arith, find-kept p rs row)

  find-kept-delete_where :
      (p q : IdempotencyRecord Body → Bool) (rs : List (IdempotencyRecord Body))
      (row : IdempotencyRecord Body)
      → any p rs ≡ false
      → p row ≡ true
      → q row ≡ false
      → find p (delete_where q (rs ++ row ∷ [])) ≡ some row
  find-kept-delete_where p q [] row h new keep = rw (keep, new) refl
  find-kept-delete_where p q (r ∷ rs) row h new keep =
      let rest = find-kept-delete_where p q rs row (ground arith) new keep in
      elim (Bool-cases (q r)) [
        | inl gone ↦ rw gone rest
        | inr kept ↦ let other : p r ≡ false = ground arith in rw (kept, other) rest
      ]

  -- A response that is stored under a key that is not taken is what a lookup by the same user finds
  -- for the 24 hours that follow, also where storing it sweeps expired records.
  pub lookup-store :
      (key user_id request_hash : String) (status_code : ℕ) (body : Answer Body) (now later : ℕ)
      (s : Store Body)
      → any (by_key key) s.records ≡ false
      → later ≤ now + ttl_ms
      → lookup key user_id later (store key user_id request_hash status_code body now s)
        ≡ some (record {
          key = key;
          user_id = user_id;
          request_hash = request_hash;
          status_code = status_code;
          response_body = or_null body;
          expires_at = now + ttl_ms;
        })
  unfolding lookup store maybe_sweep
  lookup-store key user_id request_hash status_code body now later s free le =
      let row : IdempotencyRecord Body = record {
        key = key;
        user_id = user_id;
        request_hash = request_hash;
        status_code = status_code;
        response_body = or_null body;
        expires_at = now + ttl_ms;
      } in
      let usable_row : usable user_id later (some row) ≡ some row =
        ground (arith, eq_refl user_id) in
      rw free (elim (Bool-cases (ltb now (s.last_sweep_at + sweep_interval_ms))) [
        | inl early ↦ rw (early, find-kept (by_key key) s.records row free (eq_refl key)) usable_row
        | inr due ↦
            rw
              (
                due,
                find-kept-delete_where (by_key key) (is_expired now) s.records row free
                    (eq_refl key) (ground arith),
              )
              usable_row
      ])

  -- `tap`: the stream emits a value only if the handler returns.
  abbrev pub tapped : String → String → String → ℕ → Handled Body → Option (Begun Body)
  tapped key user_id request_hash now (threw e) = none
  tapped key user_id request_hash now (returned status body) = some (record {
    key = key;
    user_id = user_id;
    request_hash = request_hash;
    status_code = status;
    response_body = body;
    now = now;
  })

  -- The call of `store`, on the records that it meets.
  unfoldable pub run_begun : Option (Begun Body) → Store Body → Store Body
  run_begun none s = s
  run_begun (some c) s = store c.key c.user_id c.request_hash c.status_code c.response_body c.now s

  abbrev pub intercepted :
      String
      → String
      → String
      → ℕ
      → Handled Body
      → Option (IdempotencyRecord Body)
      → Reply Body × Option (Begun Body)
  intercepted key user_id request_hash answered_at answer none =
      (handled answer, tapped key user_id request_hash answered_at answer)
  intercepted key user_id request_hash answered_at answer (some r) =
      if str_eq r.request_hash request_hash
      then (replayed r.status_code r.response_body, none)
      else (reused, none)

  -- `answer` is what the handler does at `answered_at`, where it is run.
  unfoldable pub intercept :
      Request → ℕ → ℕ → Handled Body → Store Body → Reply Body × Option (Begun Body)
  intercept req now answered_at answer s =
      let key = or_else req.key "" in
      let user_id = or_else req.user_id "" in
      if is_kept req
      then intercepted key user_id req.request_hash answered_at answer (lookup key user_id now s)
      else (handled answer, none)
