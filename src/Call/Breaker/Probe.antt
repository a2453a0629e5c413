-- ===== src/Call/Breaker/Probe.antt =====
-- The open breaker: what it rejects, the one probe that it admits, and how it recovers.
use chassis_go.Prelude.{
  ℕ, ◌+◌, ◌≤◌, ◌<◌, ◌≡◌, refl, Bool, true, false, leb, if◌then◌else◌, List, [], ◌∷◌, arith, ◌||◌,
  Option, none, some,
}
use chassis_go.Call.Errors.{Error, err_circuit_open}
use chassis_go.Call.Breaker.{
  State, CircuitBreaker, state_closed, state_open, state_half_open, state_probing, new_breaker,
  allow, record_outcome, Call, allows, records, run, step,
}

abbrev admission : Option Error → ℕ
admission none = 1
admission (some _) = 0

-- How many of a sequence of `Allow` calls, at the times given, are admitted.
pub admitted : CircuitBreaker → List ℕ → ℕ
admitted cb [] = 0
admitted cb (now ∷ times) = let (cb', err) = allow now cb in admission err + admitted cb' times

abbrev pub some_from : ℕ → List ℕ → Bool
some_from t [] = false
some_from t (now ∷ times) = leb t now || some_from t times

-- While a probe is in flight nothing is admitted.
admitted_probing :
    (cb : CircuitBreaker) (times : List ℕ) → cb.state ≡ state_probing → admitted cb times ≡ 0
unfolding admitted allow
admitted_probing cb [] e = refl
admitted_probing cb (now ∷ times) e = ground (arith, admitted_probing cb times e)

-- With no record in between, an open breaker admits exactly one of a sequence of requests if some
-- request comes when the reset timeout has passed, and none otherwise.
pub admitted_open :
    (cb : CircuitBreaker) (times : List ℕ)
    → cb.state ≡ state_open
    → admitted cb times ≡ (if some_from (cb.last_failure + cb.reset_timeout) times then 1 else 0)
unfolding admitted allow
admitted_open cb [] e = refl
admitted_open cb (now ∷ times) e =
    ground (
      arith,
      admitted_open cb times e,
      admitted_probing (record cb { state = state_probing }) times,
    )

abbrev pub Early : ℕ → Call → Type 0
Early t (allows now) = now < t
Early t (records success now) = Unit

abbrev pub AllEarly : ℕ → List Call → Type 0
AllEarly t [] = Unit
AllEarly t (c ∷ cs) = Early t c × AllEarly t cs

-- Until the reset timeout has passed since the last failure, an open breaker stays as it is,
-- whatever is asked and recorded, and rejects the next request with `ErrCircuitOpen`.
pub run_early :
    (cb : CircuitBreaker) (cs : List Call) (now : ℕ)
    → cb.state ≡ state_open
    → AllEarly (cb.last_failure + cb.reset_timeout) cs
    → now < cb.last_failure + cb.reset_timeout
    → (run cb cs ≡ cb) × (allow now (run cb cs) ≡ (cb, some err_circuit_open))
unfolding run step allow record_outcome
run_early cb [] now e early lt = (refl, ground arith)
run_early cb (allows t ∷ cs) now e early lt = ground (arith, run_early cb cs now e)
run_early cb (records success t ∷ cs) now e early lt = ground (arith, run_early cb cs now e)

-- The failure count that a state stands for; `StateHalfOpen` is never stored.
abbrev pub Counts : State → ℕ → ℕ → Type 0
Counts state_closed failures threshold = failures < threshold
Counts state_open failures threshold = threshold ≤ failures
Counts state_half_open failures threshold = ⊥
Counts state_probing failures threshold = threshold ≤ failures

pub record IsSound (cb : CircuitBreaker) : Type 0 where
  pub counts : Counts cb.state cb.failures cb.threshold
  pub positive : 0 < cb.threshold

step-IsSound : (cb : CircuitBreaker) (c : Call) → IsSound cb → IsSound (step cb c)
unfolding step allow record_outcome
step-IsSound cb (allows now) v = ground arith
step-IsSound cb (records success now) v = ground arith

run-IsSound : (cb : CircuitBreaker) (cs : List Call) → IsSound cb → IsSound (run cb cs)
unfolding run
run-IsSound cb [] v = v
run-IsSound cb (c ∷ cs) v = run-IsSound (step cb c) cs (step-IsSound cb c v)

-- After any calls on a fresh breaker with a positive threshold, the failure count is below the
-- threshold if the breaker is closed and at or above it if it is open or probing, and the stored
-- state is never `StateHalfOpen`.
pub run-new_breaker-IsSound :
    (threshold reset_timeout : ℕ) (cs : List Call)
    → 0 < threshold
    → IsSound (run (new_breaker threshold reset_timeout) cs)
unfolding new_breaker
run-new_breaker-IsSound threshold reset_timeout cs pos =
    run-IsSound (new_breaker threshold reset_timeout) cs (record { counts = pos; positive = pos })

-- From every state, a request once the reset timeout has passed since the last failure and a
-- success recorded after it leave the breaker closed with no failure counted.
pub run_recovers :
    (cb : CircuitBreaker) (now later : ℕ)
    → cb.last_failure + cb.reset_timeout ≤ now
    → run cb (allows now ∷ records true later ∷ [])
      ≡ record cb { state = state_closed; failures = 0 }
unfolding run step allow record_outcome
run_recovers cb now later h = ground arith

-- A failure that is recorded while a probe is in flight, also by an older request, opens the
-- breaker again, and a second probe is admitted once the timeout has passed anew.
pub second_probe :
    (cb : CircuitBreaker) (now failed later : ℕ)
    → cb.state ≡ state_open
    → cb.last_failure + cb.reset_timeout ≤ now
    → failed + cb.reset_timeout ≤ later
    → ((allow now cb).1 ≡ none)
      × ((allow later (run cb (allows now ∷ records false failed ∷ []))).1 ≡ none)
unfolding run step allow record_outcome
second_probe cb now failed later e h k = ground arith
