-- ===== src/Call/Retry.antt =====
-- call/retry.go: `Retrier.Do` and its backoff. What the retrier reads from outside enters as an
-- environment: the context, the clock's race with it, the random jitter, and the request function
-- over a state of its own. What it does leaves a trace.
pub mod Attempts
pub mod Bodies
pub mod Backoff
pub mod States
pub mod Tests
use chassis_go.Prelude.{
  ◌||◌, ℕ, zero, suc, ◌+◌, ◌*◌, ◌/◌, ◌%◌, ◌^◌, Bool, true, false, Option, none, some, List, [], ◌∷◌,
  ◌++◌, ltb, leb, if◌then◌else◌, ◌==◌, nat_comparable,
}
use chassis_go.Call.Errors.{Error}

-- `body` is false for a response without one; `id` tells responses apart.
pub record Response : Type 0 where
  pub id : ℕ
  pub status : ℕ
  pub body : Bool

-- What the request function returns. As `http.Client.Do` documents, a nil error comes with a
-- response.
pub data Outcome : Type 0 where
  answered : Response → Outcome
  failed : Option Response → Error → Outcome

pub record Retrier : Type 0 where
  pub max_attempts : ℕ
  pub base_delay : ℕ

-- `ctx_err` and `wait` are `ctx.Err()` before an attempt and the result of the `select` after it;
-- `rand a n` is the number in [0, n) drawn after attempt `a`.
pub record Env (S : Type 0) : Type 0 where
  pub ctx_err : ℕ → Option Error
  pub wait : ℕ → Option Error
  pub rand : ℕ → ℕ → ℕ
  pub fn : S → Outcome × S

pub data Event : Type 0 where
  called : Outcome → Event
  closed : Response → Event
  slept : ℕ → Event

-- The response and the error that `Do` returns, what it did, and the state of the function.
pub record Answer (S : Type 0) : Type 0 where
  pub resp : Option Response
  pub err : Option Error
  pub trace : List Event
  pub state : S

abbrev pub int64_mod : ℕ
int64_mod = 2 ^ 64

-- `delay *= 2`, `n` times, on an int64 bit pattern.
doubled : ℕ → ℕ → ℕ
doubled zero delay = delay
doubled (suc n) delay = doubled n (delay * 2 % int64_mod)

-- `int64(delay / 2)` if that is positive.
half : ℕ → ℕ
half delay = if ltb delay (2 ^ 63) then delay / 2 else 0

-- The delay that `backoff` waits for after attempt `attempt`.
pub backoff_delay : Retrier → (ℕ → ℕ → ℕ) → ℕ → ℕ
unfolding doubled half
backoff_delay r rand attempt =
    let base = if r.base_delay == 0 || leb (2 ^ 63) r.base_delay then 100000000 else r.base_delay in
    let delay = doubled attempt base in
    if ltb 0 (half delay) then (delay + rand attempt (half delay)) % int64_mod else delay

-- `io.Copy(io.Discard, resp.Body); resp.Body.Close()` under its guard.
drain : Option Response → List Event
drain none = []
drain (some resp) = if resp.body then closed resp ∷ [] else []

module _ {S : Type 0} where
  abbrev emit : List Event → Answer S → Answer S
  emit events a = record a { trace = events ++ a.trace }

  abbrev give_up : Option Error → S → Answer S
  give_up err s = record { resp = none; err = err; trace = []; state = s }

  -- What follows the call of `fn` in attempt `attempt`; `rest` goes on with the next attempt.
  after_call : Retrier → Env S → ℕ → Outcome → S → (Option Response → Answer S) → Answer S
  after_call r env attempt (failed resp err) s rest = emit (called (failed resp err) ∷ drain resp) (
      if ltb (attempt + 1) r.max_attempts
      then emit (slept (backoff_delay r env.rand attempt) ∷ [])
          (elim (env.wait attempt) [ some e ↦ give_up (some e) s | none ↦ rest resp ])
      else give_up (some err) s)
  after_call r env attempt (answered resp) s rest = emit (called (answered resp) ∷ []) (
      if ltb resp.status 500
      then record { resp = some resp; err = none; trace = []; state = s }
      else if ltb (attempt + 1) r.max_attempts
      then emit (closed resp ∷ slept (backoff_delay r env.rand attempt) ∷ [])
          (elim (env.wait attempt) [ some e ↦ give_up (some e) s | none ↦ rest (some resp) ])
      else rest (some resp))

  -- The loop, with the attempts that are left and the `resp` and `err` of the last one. An attempt
  -- that goes on after an error goes on to a call that replaces both.
  attempts : Retrier → Env S → ℕ → ℕ → Option Response → S → Answer S
  attempts r env zero attempt last s = record { resp = last; err = none; trace = []; state = s }
  attempts r env (suc left) attempt last s = elim (env.ctx_err attempt) [
    | some e ↦ give_up (some e) s
    | none ↦
        let (out, s') = env.fn s in
        after_call r env attempt out s' (λ last'. attempts r env left (attempt + 1) last' s')
  ]

  -- `Retrier.Do`.
  pub do_attempts : Retrier → Env S → S → Answer S
  do_attempts r env s = attempts r env r.max_attempts 0 none s
