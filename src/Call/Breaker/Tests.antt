-- ===== src/Call/Breaker/Tests.antt =====
-- The circuit breaker on concrete calls.
use chassis_go.Prelude.{ℕ, ◌≡◌, refl, Bool, true, false, List, [], ◌∷◌, if◌then◌else◌, leb, arith}
use chassis_go.Call.Breaker.{
  CircuitBreaker, state_closed, state_open, new_breaker, allow, record_outcome, run, step, Call,
  allows, records, get_state, state_half_open,
}
use chassis_go.Call.Breaker.Streaks.{recorded, longest_streak, new_breaker-opens}
use chassis_go.Call.Breaker.Probe.{admitted, admitted_open, run_recovers, some_from}

-- Opened by a failure at time 100; the timeout is 30.
abbrev opened : CircuitBreaker
opened = record {
  state = state_open;
  failures = 2;
  threshold = 2;
  reset_timeout = 30;
  last_failure = 100;
}

abbrev outcomes : List (Bool × ℕ)
outcomes = (false, 5) ∷ (true, 6) ∷ (false, 7) ∷ (false, 100) ∷ (true, 101) ∷ []

opened_by_outcomes : run (new_breaker 2 30) (recorded outcomes) ≡ opened
unfolding new_breaker allow record_outcome run step get_state
opened_by_outcomes = refl

probe_is_half_open : get_state (allow 130 opened).0 ≡ state_half_open
unfolding new_breaker allow record_outcome run step get_state
probe_is_half_open = refl

one_failure_counted : (record_outcome false 7 (new_breaker 2 30)).failures ≡ 1
unfolding new_breaker allow record_outcome run step get_state
one_failure_counted = refl

new_breaker-opens_example :
    (run (new_breaker 2 30) (recorded outcomes)).state
    ≡ (if leb 2 (longest_streak 0 outcomes) then state_open else state_closed)
new_breaker-opens_example = new_breaker-opens 2 30 outcomes (omega arith)

admitted_open_example :
    admitted opened (110 ∷ 131 ∷ 140 ∷ []) ≡ (if some_from 130 (110 ∷ 131 ∷ 140 ∷ []) then 1 else 0)
admitted_open_example = admitted_open opened (110 ∷ 131 ∷ 140 ∷ []) refl

abbrev early : List Call
early = allows 110 ∷ records true 111 ∷ records false 112 ∷ []

run_recovers_example :
    run opened (allows 130 ∷ records true 131 ∷ [])
    ≡ record opened { state = state_closed; failures = 0 }
run_recovers_example = run_recovers opened 130 131 (omega arith)
