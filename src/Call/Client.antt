-- ===== src/Call/Client.antt =====
-- call/call.go: `Client.Do`, the composition of the token source, the breaker gate, the retry loop
-- and the bookkeeping of the context. Spans, trace headers and metrics are left out: they only
-- report. A breaker is any implementation of the `Breaker` interface.
pub mod Context
pub mod Gate
pub mod Tests
use Prim.Native.Nat.{max}
use chassis_go.Prelude.{
  ℕ, suc, ◌+◌, Bool, true, false, ◌&&◌, not, String, ltb, if◌then◌else◌, Option, none, some, List,
  [], ◌∷◌,
}
use chassis_go.Call.Errors.{Error, token_source}
use chassis_go.Call.Breaker.{CircuitBreaker, allow, record_outcome}
use chassis_go.Call.Retry.{
  Response, Outcome, answered, failed, Retrier, Env, Event, called, Answer, do_attempts,
}

-- The `Breaker` interface; the first argument of each method is the time of the call.
pub record BreakerOps (B : Type 0) : Type 0 where
  pub allow_op : ℕ → B → B × Option Error
  pub record_op : Bool → ℕ → B → B

-- The package's own implementation.
abbrev pub circuit_breaker : BreakerOps CircuitBreaker
circuit_breaker = record { allow_op = allow; record_op = record_outcome }

pub record Client (B : Type 0) : Type 0 where
  pub retrier : Option Retrier
  pub breaker : Option B

-- `WithRetry`.
pub with_retry : {B : Type 0} → ℕ → ℕ → Client B → Client B
with_retry max_attempts base_delay c = record c {
  retrier = some (record { max_attempts = max 1 max_attempts; base_delay = base_delay });
}

-- The request body: unread, or read by an attempt before.
pub data Body : Type 0 where
  unread consumed : Body

-- `get_body` is none if `req.GetBody` is nil; else the n-th call of it succeeds or not. `respond`
-- is what the HTTP client returns for the n-th request sent.
pub record Request : Type 0 where
  pub has_deadline : Bool
  pub get_body : Option (ℕ → Bool)
  pub respond : ℕ → Outcome
  pub token : Option (Option Error × String)
  pub allow_time : ℕ
  pub record_time : ℕ
  pub ctx_err : ℕ → Option Error
  pub wait : ℕ → Option Error
  pub rand : ℕ → ℕ → ℕ

-- The variables of the closure `exec`: the attempts made, the body, and the bodies sent, the last
-- one first.
pub record Exec : Type 0 where
  pub attempt : ℕ
  pub body : Body
  pub sent : List Body

-- The rewinding of the body before a second or later attempt; a failing `GetBody` leaves it.
rewind : Option (ℕ → Bool) → ℕ → Body → Body
rewind none attempt body = body
rewind (some get) attempt body = if ltb 0 attempt && get attempt then unread else body

-- `exec`.
exec : Request → Exec → Outcome × Exec
exec req x = (
  req.respond x.attempt,
  record {
    attempt = x.attempt + 1;
    body = consumed;
    sent = rewind req.get_body x.attempt x.body ∷ x.sent;
  },
)

-- What became of the cancel function of the context with a timeout, if `Do` made one.
pub data Cancel : Type 0 where
  not_made : Cancel
  cancelled : Cancel
  with_the_body : Cancel

-- What `Do` returns, with the requests sent, the `Authorization` header and the breaker afterwards.
pub record Reply (B : Type 0) : Type 0 where
  pub resp : Option Response
  pub err : Option Error
  pub cancel : Cancel
  pub authorization : Option String
  pub sent : List Body
  pub breaker : Option B

first_exec : Exec
first_exec = record { attempt = 0; body = unread; sent = [] }

once : Outcome × Exec → Answer Exec
once (answered resp, x) = record {
  resp = some resp;
  err = none;
  trace = called (answered resp) ∷ [];
  state = x;
}
once (failed resp err, x) = record {
  resp = resp;
  err = some err;
  trace = called (failed resp err) ∷ [];
  state = x;
}

-- `c.retrier.Do(ctx, exec)`, or `exec()` without a retrier.
pub perform : Option Retrier → Request → Answer Exec
unfolding exec rewind first_exec once
perform none req = once (exec req first_exec)
perform (some r) req =
    do_attempts r
      (record { ctx_err = req.ctx_err; wait = req.wait; rand = req.rand; fn = exec req }) first_exec

-- `err == nil && resp != nil && resp.StatusCode < 500`.
pub is_success : Option Response → Option Error → Bool
is_success (some resp) none = ltb resp.status 500
is_success _ _ = false

-- The `cancel()` of the early returns.
abandon : Bool → Cancel
abandon has_deadline = if has_deadline then not_made else cancelled

-- The last block of `Do`: cancel now, or when the caller closes the body.
release : Bool → Option Response → Option Error → Cancel
release true resp err = not_made
release false (some resp) none = with_the_body
release false _ _ = cancelled

module _ {B : Type 0} (ops : BreakerOps B) where
  -- From the core execution on.
  execute : Client B → Request → Option String → Option B → Reply B
  execute c req auth b =
      let a = perform c.retrier req in
      record {
        resp = a.resp;
        err = a.err;
        cancel = release req.has_deadline a.resp a.err;
        authorization = auth;
        sent = a.state.sent;
        breaker = elim b [
          | none ↦ none
          | some cb ↦ some (ops.record_op (is_success a.resp a.err) req.record_time cb)
        ];
      }

  reject : Request → Option String → Option B → Error → Reply B
  reject req auth b err = record {
    resp = none;
    err = some err;
    cancel = abandon req.has_deadline;
    authorization = auth;
    sent = [];
    breaker = b;
  }

  -- The circuit breaker gate.
  gate : Client B → Request → Option String → Reply B
  gate c req auth = elim c.breaker [
    | none ↦ execute c req auth none
    | some cb ↦
        let (cb', err) = ops.allow_op req.allow_time cb in
        elim err [ none ↦ execute c req auth (some cb') | some e ↦ reject req auth (some cb') e ]
  ]

  -- `Client.Do`; a token source is asked before the gate.
  pub do_request : Client B → Request → Reply B
  do_request c req = elim req.token [
    | none ↦ gate c req none
    | some (none, token) ↦ gate c req (some token)
    | some (some err, _) ↦ reject req none c.breaker (token_source err)
  ]
