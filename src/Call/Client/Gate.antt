-- ===== src/Call/Client/Gate.antt =====
-- `Client.Do` and its circuit breaker, and what it sends and returns.
use Prim.Native.Nat.{max}
use chassis_go.Prelude.{
  ℕ, ◌<◌, ◌≡◌, ◌≢◌, ◌⊎◌, refl, Bool, true, Option, none, some, [], arith, All, inl, String,
}
use chassis_go.Call.Errors.{Error}
use chassis_go.Call.Breaker.{CircuitBreaker, state_probing, allow, record_outcome}
use chassis_go.Call.Retry.{Retrier}
use chassis_go.Call.Retry.States.{do_attempts-state, do_attempts-Replies, Replies}
use chassis_go.Call.Client.{
  BreakerOps, Client, Request, do_request, gate, reject, execute, circuit_breaker, perform, Exec,
  exec, is_success, unread, rewind, first_exec, with_retry,
}

-- The error of the token source, if there is a token source and it fails.
abbrev pub token_error : Option (Option Error × String) → Option Error
token_error none = none
token_error (some (err, _)) = err

module _ {B : Type 0} (ops : BreakerOps B) (c : Client B) (req : Request) where
  -- A request that the breaker rejects is never sent: the breaker's error is returned with no
  -- response, and no outcome is recorded.
  pub do_request_rejected :
      (cb cb' : B) (err : Error)
      → token_error req.token ≡ none
      → c.breaker ≡ some cb
      → ops.allow_op req.allow_time cb ≡ (cb', some err)
      → ((do_request ops c req).resp ≡ none)
        × ((do_request ops c req).err ≡ some err)
        × ((do_request ops c req).sent ≡ [])
        × ((do_request ops c req).breaker ≡ some cb')
  unfolding do_request gate reject
  do_request_rejected cb cb' err t e rejected = ground arith

  -- A request that the breaker admits is one request to it, however often it is retried: its final
  -- outcome is recorded once, and a response below 500 counts as success.
  pub do_request_admitted :
      (cb cb' : B)
      → token_error req.token ≡ none
      → c.breaker ≡ some cb
      → ops.allow_op req.allow_time cb ≡ (cb', none)
      → (do_request ops c req).breaker
        ≡ some (
            ops.record_op
              (is_success (do_request ops c req).resp (do_request ops c req).err)
              req.record_time
              cb')
  unfolding do_request gate execute
  do_request_admitted cb cb' t e admitted = ground arith

abbrev pub IsSettled : Option CircuitBreaker → Type 0
IsSettled none = Unit
IsSettled (some cb) = cb.state ≢ state_probing

-- No call of `Do` leaves the package's breaker waiting for a probe: if it was not probing before,
-- then it is not afterwards, on every path.
pub do_request-IsSettled :
    (c : Client CircuitBreaker) (req : Request)
    → IsSettled c.breaker
    → IsSettled (do_request circuit_breaker c req).breaker
unfolding do_request gate execute reject allow record_outcome
do_request-IsSettled c req h = ground arith

module _ (req : Request) where
  abbrev IsRewound : Exec → Type 0
  IsRewound x = ((x.body ≡ unread) ⊎ (0 < x.attempt)) × All (λ b. b ≡ unread) x.sent

  exec-IsRewound :
      (get : ℕ → Bool) (x : Exec)
      → req.get_body ≡ some get
      → ((n : ℕ) → get n ≡ true)
      → IsRewound x
      → IsRewound (exec req x).1
  unfolding exec rewind
  exec-IsRewound get x e works v = ground (arith, works x.attempt)

  perform-sent :
      (retrier : Option Retrier) (get : ℕ → Bool)
      → req.get_body ≡ some get
      → ((n : ℕ) → get n ≡ true)
      → All (λ b. b ≡ unread) (perform retrier req).state.sent
  unfolding perform
  perform-sent none get e works = ground arith
  perform-sent (some r) get e works =
      (do_attempts-state r _ IsRewound (λ x. exec-IsRewound get x e works) first_exec
        (inl refl, tt)).1

-- If the request has a `GetBody` that does not fail, every request that is sent, retries included,
-- carries an unread body.
pub do_request-sent :
    {B : Type 0} (ops : BreakerOps B) (c : Client B) (req : Request) (get : ℕ → Bool)
    → req.get_body ≡ some get
    → ((n : ℕ) → get n ≡ true)
    → All (λ b. b ≡ unread) (do_request ops c req).sent
unfolding do_request gate execute reject
do_request-sent ops c req get e works = ground (arith, perform-sent req c.retrier get e works)

perform-Replies :
    (max_attempts base_delay : ℕ) (req : Request)
    → Replies
        (perform (some (record { max_attempts = max 1 max_attempts; base_delay = base_delay })) req)
unfolding perform
perform-Replies max_attempts base_delay req = do_attempts-Replies _ _ first_exec (omega arith)

-- A client with `WithRetry`, whatever the number of attempts asked for, never returns a nil
-- response together with a nil error.
pub do_request-with_retry :
    {B : Type 0} (ops : BreakerOps B) (c : Client B) (req : Request) (max_attempts base_delay : ℕ)
    → ¬ (
        ((do_request ops (with_retry max_attempts base_delay c) req).resp ≡ none)
        × ((do_request ops (with_retry max_attempts base_delay c) req).err ≡ none))
unfolding do_request gate execute reject with_retry
do_request-with_retry ops c req max_attempts base_delay =
    ground (arith, perform-Replies max_attempts base_delay req)
