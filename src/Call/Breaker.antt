-- ===== src/Call/Breaker.antt =====
-- call/breaker.go: the circuit breaker. A method returns the new breaker beside its result; the
-- mutex makes each method one atomic step. Times are nanoseconds since Go's zero time, and a
-- duration, a count or a threshold is not negative.
pub mod Streaks
pub mod Probe
pub mod Tests
use chassis_go.Prelude.{
  ℕ, ◌+◌, Bool, true, false, Option, none, some, leb, if◌then◌else◌, List, [], ◌∷◌,
}
use chassis_go.Call.Errors.{Error, err_circuit_open}

pub data State : Type 0 where
  state_closed state_open state_half_open state_probing : State

pub record CircuitBreaker : Type 0 where
  pub state : State
  pub failures : ℕ
  pub threshold : ℕ
  pub reset_timeout : ℕ
  pub last_failure : ℕ

-- `&CircuitBreaker{state: StateClosed, ...}` in `GetBreaker`; the zero time is 0.
unfoldable pub new_breaker : ℕ → ℕ → CircuitBreaker
new_breaker threshold reset_timeout = record {
  state = state_closed;
  failures = 0;
  threshold = threshold;
  reset_timeout = reset_timeout;
  last_failure = 0;
}

-- The `switch` of `Allow`.
allow_in : State → ℕ → CircuitBreaker → CircuitBreaker × Option Error
allow_in state_closed now cb = (cb, none)
allow_in state_open now cb =
    if leb (cb.last_failure + cb.reset_timeout) now
    then (record cb { state = state_probing }, none)
    else (cb, some err_circuit_open)
allow_in state_half_open now cb = (cb, some err_circuit_open)
allow_in state_probing now cb = (cb, some err_circuit_open)

-- `Allow`; `none` is Go's nil error.
unfoldable pub allow : ℕ → CircuitBreaker → CircuitBreaker × Option Error
unfolding allow_in
allow now cb = allow_in cb.state now cb

-- The failure branch of `Record` in `StateClosed`.
count_failure : ℕ → CircuitBreaker → CircuitBreaker
count_failure now cb =
    if leb cb.threshold (cb.failures + 1)
    then record cb { failures = cb.failures + 1; last_failure = now; state = state_open }
    else record cb { failures = cb.failures + 1; last_failure = now }

-- The branch of `Record` in `StateHalfOpen` and `stateProbing`.
settle_probe : Bool → ℕ → CircuitBreaker → CircuitBreaker
settle_probe true now cb = record cb { state = state_closed; failures = 0 }
settle_probe false now cb = record cb { state = state_open; last_failure = now }

-- The `switch` of `Record`; an open breaker takes no record.
record_in : State → Bool → ℕ → CircuitBreaker → CircuitBreaker
record_in state_closed true now cb = record cb { failures = 0 }
record_in state_closed false now cb = count_failure now cb
record_in state_open success now cb = cb
record_in state_half_open success now cb = settle_probe success now cb
record_in state_probing success now cb = settle_probe success now cb

-- `Record`.
unfoldable pub record_outcome : Bool → ℕ → CircuitBreaker → CircuitBreaker
unfolding record_in count_failure settle_probe
record_outcome success now cb = record_in cb.state success now cb

report : State → State
report state_closed = state_closed
report state_open = state_open
report state_half_open = state_half_open
report state_probing = state_half_open

-- `State`.
unfoldable pub get_state : CircuitBreaker → State
unfolding report
get_state cb = report cb.state

-- `resetForTest`.
reset_for_test : CircuitBreaker → CircuitBreaker
reset_for_test cb = record cb { state = state_closed; failures = 0; last_failure = 0 }

-- A call of a method, with the time at which it runs.
pub data Call : Type 0 where
  allows : ℕ → Call
  records : Bool → ℕ → Call

pub step : CircuitBreaker → Call → CircuitBreaker
step cb (allows now) = (allow now cb).0
step cb (records success now) = record_outcome success now cb

pub run : CircuitBreaker → List Call → CircuitBreaker
run cb [] = cb
run cb (c ∷ cs) = run (step cb c) cs
