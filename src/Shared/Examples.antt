-- ===== src/Shared/Examples.antt =====
-- A request that is sent twice with one key.
use goal_slot_api.Base.{ℕ, ◌+◌, ◌≡◌, refl, none, some, [], ◌∷◌, arith, error}
use goal_slot_api.Shared.Idempotency.{
  ttl_ms, undefined, value, IdempotencyRecord, Store, Request, returned, threw, reused, replayed,
  handled, lookup, run_begun, intercept,
}
use goal_slot_api.Shared.Replay.{intercept-twice}

abbrev expired : IdempotencyRecord ℕ
expired = record {
  key = "k0";
  user_id = "u2";
  request_hash = "h0";
  status_code = 201;
  response_body = value 7;
  expires_at = 10;
}

abbrev row : IdempotencyRecord ℕ
row = record {
  key = "k1";
  user_id = "u1";
  request_hash = "h1";
  status_code = 201;
  response_body = value 42;
  expires_at = 5000000 + ttl_ms;
}

abbrev records : Store ℕ
records = record { records = expired ∷ []; last_sweep_at = 0 }

abbrev post : Request
post = record { method = "POST"; key = some "k1"; user_id = some "u1"; request_hash = "h1" }

abbrev retried : Request
retried = record post { request_hash = "h2" }

-- The handler of the first request returns nothing, and its answer is replayed as null.
void_answer :
    (intercept post 5000000 5000100 (returned 204 undefined) records).1
    ≡ some (record {
      key = "k1";
      user_id = "u1";
      request_hash = "h1";
      status_code = 204;
      response_body = undefined;
      now = 5000100;
    })
unfolding intercept lookup
void_answer = refl

-- The handler of the first request returns, and that of the second would throw.
intercept-twice_example :
    let (reply, begun) = intercept post 5000000 5000100 (returned 201 (value 42)) records in
    let s' = run_begun begun records in
    (reply ≡ handled (returned 201 (value 42)))
    × (intercept post 6000000 6000100 (threw (error "late")) s' ≡ (replayed 201 (value 42), none))
    × (intercept retried 6000000 6000100 (threw (error "late")) s' ≡ (reused, none))
    × (intercept post 6000000 6000100 (threw (error "late")) records
        ≡ (handled (threw (error "late")), none))
    × (intercept retried 6000000 6000100 (threw (error "late")) records
        ≡ (handled (threw (error "late")), none))
intercept-twice_example =
    intercept-twice post "h2" 5000000 5000100 6000000 6000100 (returned 201 (value 42))
      (threw (error "late")) records records refl refl refl (ground arith) refl
