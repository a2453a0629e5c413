-- ===== src/Call/Breaker/Streaks.antt =====
-- The closed breaker counts consecutive failures: when it opens, against the recorded history.
use Prim.Native.Nat.{max}
use chassis_go.Prelude.{
  ℕ, ◌+◌, ◌≤◌, ◌<◌, ◌≡◌, refl, Bool, true, false, leb, if◌then◌else◌, List, [], ◌∷◌, arith,
  Bool-cases, inl, inr,
}
use chassis_go.Call.Breaker.{
  CircuitBreaker, state_closed, state_open, new_breaker, record_outcome, Call, records, run, step,
}

-- Outcomes of requests with the time of each, oldest first.
abbrev pub recorded : List (Bool × ℕ) → List Call
recorded [] = []
recorded ((success, now) ∷ h) = records success now ∷ recorded h

-- The longest run of failures in the history, when `n` failures in a row precede it.
pub longest_streak : ℕ → List (Bool × ℕ) → ℕ
longest_streak n [] = n
longest_streak n ((true, _) ∷ h) = max n (longest_streak 0 h)
longest_streak n ((false, _) ∷ h) = longest_streak (n + 1) h

longest_streak-ge : (n : ℕ) (h : List (Bool × ℕ)) → n ≤ longest_streak n h
unfolding longest_streak
longest_streak-ge n [] = omega arith
longest_streak-ge n ((true, _) ∷ h) = omega arith
longest_streak-ge n ((false, _) ∷ h) = omega (arith, longest_streak-ge (n + 1) h)

-- An open breaker ignores every record.
run_open :
    (cb : CircuitBreaker) (h : List (Bool × ℕ)) → cb.state ≡ state_open → run cb (recorded h) ≡ cb
unfolding run step record_outcome
run_open cb [] e = refl
run_open cb ((success, now) ∷ h) e = ground (arith, run_open cb h e)

opens :
    (cb : CircuitBreaker) (h : List (Bool × ℕ))
    → cb.state ≡ state_closed
    → cb.failures < cb.threshold
    → (run cb (recorded h)).state
      ≡ (if leb cb.threshold (longest_streak cb.failures h) then state_open else state_closed)
unfolding run longest_streak step record_outcome
opens cb [] e lt = ground arith
opens cb ((true, now) ∷ h) e lt = ground (arith, opens (record cb { failures = 0 }) h)
opens cb ((false, now) ∷ h) e lt = elim (Bool-cases (leb cb.threshold (cb.failures + 1))) [
  | inl full ↦ ground (
    arith,
    run_open (record cb { failures = cb.failures + 1; last_failure = now; state = state_open }) h,
    longest_streak-ge (cb.failures + 1) h,
  )
  | inr room ↦
      ground (arith, opens (record cb { failures = cb.failures + 1; last_failure = now }) h)
]

-- A fresh breaker with a positive threshold is open after a history of recorded outcomes if some
-- run of consecutive failures in it reached the threshold, and closed otherwise.
pub new_breaker-opens :
    (threshold reset_timeout : ℕ) (h : List (Bool × ℕ))
    → 0 < threshold
    → (run (new_breaker threshold reset_timeout) (recorded h)).state
      ≡ (if leb threshold (longest_streak 0 h) then state_open else state_closed)
unfolding new_breaker
new_breaker-opens threshold reset_timeout h pos =
    opens (new_breaker threshold reset_timeout) h refl pos
