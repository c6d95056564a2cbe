-- ===== src/Shared/Replay.antt =====
-- A request that is sent twice with one key, through the interceptor of
-- src/shared/idempotency/idempotency.interceptor.ts.
use goal_slot_api.Base.{
  ℕ, ◌+◌, ◌≤◌, ◌≡◌, refl, true, false, Option, none, String, str_eq, arith, eq_refl, any, or_else,
  if◌then◌else◌,
}
use goal_slot_api.Shared.Idempotency.{
  ttl_ms, Answer, Store, Request, Handled, returned, threw, Reply, reused, replayed, handled, Begun,
  is_kept, by_key, or_null, lookup, find-absent, lookup-store, tapped, run_begun, intercepted,
  intercept,
}

module _ {Body : Type 0} where
  -- What a second request with the key of a first gets, by what the handler did in the first.
  abbrev pub after_first :
      Handled Body
      → (ℕ → Answer Body → Reply Body)
      → Reply Body × Option (Begun Body)
      → Reply Body × Option (Begun Body)
  after_first (returned status body) stored again = (stored status (or_null body), none)
  after_first (threw e) stored again = again

  absent :
      (key user_id : String) (now : ℕ) (s : Store Body)
      → any (by_key key) s.records ≡ false
      → lookup key user_id now s ≡ none
  unfolding lookup
  absent key user_id now s free = rw (find-absent (by_key key) s.records free) refl

  second_lookup :
      (key user_id request_hash hash : String) (answered_at later later' : ℕ)
      (answer answer' : Handled Body) (s : Store Body)
      → any (by_key key) s.records ≡ false
      → later ≤ answered_at + ttl_ms
      → intercepted key user_id hash later' answer' (
          lookup key user_id later
            (run_begun (tapped key user_id request_hash answered_at answer) s))
        ≡ after_first answer
            (λ status body. if str_eq request_hash hash then replayed status body else reused)
            (handled answer', tapped key user_id hash later' answer')
  unfolding run_begun
  second_lookup key user_id request_hash hash answered_at later later' (threw e) answer' s free le =
      rw (absent key user_id later s free) refl
  second_lookup key user_id request_hash hash answered_at later later' (returned status body)
        answer' s free le =
      rw (lookup-store key user_id request_hash status body answered_at later s free le)
        (ground arith)

  -- A mutating request with a user and a key that no record has, neither when it comes in nor when
  -- its answer is stored, runs its handler. Until its call of `store` has run, a retry and a
  -- request with another hash under the key run their handlers too. Once it has run: if the handler
  -- returned, then for 24 hours from its answer a retry replays it (null for undefined) and a
  -- request with another hash is refused, neither with a further call of `store`; if the handler
  -- threw, nothing is stored, and both run their handlers.
  pub intercept-twice :
      (req : Request) (other : String) (now answered_at later later' : ℕ)
      (answer answer' : Handled Body) (s at_store : Store Body)
      → is_kept req ≡ true
      → any (by_key (or_else req.key "")) s.records ≡ false
      → any (by_key (or_else req.key "")) at_store.records ≡ false
      → later ≤ answered_at + ttl_ms
      → str_eq req.request_hash other ≡ false
      → let (reply, begun) = intercept req now answered_at answer s in
        let s' = run_begun begun at_store in
        let retried = record req { request_hash = other } in
        (reply ≡ handled answer)
        × (intercept req later later' answer' s'
            ≡ after_first answer replayed (intercept req later later' answer' at_store))
        × (intercept retried later later' answer' s'
            ≡ after_first answer
                (λ status body. reused)
                (intercept retried later later' answer' at_store))
        × (intercept req later later' answer' at_store ≡ (
          handled answer',
          tapped (or_else req.key "") (or_else req.user_id "") req.request_hash later' answer',
        ))
        × (intercept retried later later' answer' at_store ≡ (
          handled answer',
          tapped (or_else req.key "") (or_else req.user_id "") other later' answer',
        ))
  unfolding intercept
  intercept-twice req other now answered_at later later' answer answer' s at_store kept free
        free_store le differs =
      let key = or_else req.key "" in
      let user_id = or_else req.user_id "" in
      let second = λ (hash : String).
        second_lookup key user_id req.request_hash hash answered_at later later' answer answer'
          at_store free_store le in
      rw (kept, absent key user_id now s free, absent key user_id later at_store free_store)
        (
          refl,
          rw (eq_refl req.request_hash) at (second req.request_hash),
          rw differs at (second other),
          refl,
          refl,
        )
