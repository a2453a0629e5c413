-- ===== src/Call/Retry/Attempts.antt =====
-- Which calls `Retrier.Do` makes and what it returns.
use chassis_go.Prelude.{
  ℕ, zero, suc, ◌+◌, ◌≤◌, ◌<◌, ◌≡◌, refl, Bool, true, Option, none, some, List, [], ◌∷◌, leb,
  if◌then◌else◌, arith, if_same,
}
use chassis_go.Call.Errors.{Error}
use chassis_go.Call.Retry.{
  Response, Outcome, answered, failed, Retrier, Env, Event, called, closed, slept, Answer,
  after_call, drain, attempts, do_attempts,
}

abbrev pub outcomes : List Event → List Outcome
outcomes [] = []
outcomes (called out ∷ es) = out ∷ outcomes es
outcomes (closed _ ∷ es) = outcomes es
outcomes (slept _ ∷ es) = outcomes es

abbrev pub calls : List Event → ℕ
calls [] = 0
calls (called _ ∷ es) = suc (calls es)
calls (closed _ ∷ es) = calls es
calls (slept _ ∷ es) = calls es

-- A network error or a server error (5xx) is worth another attempt.
abbrev pub retryable : Outcome → Bool
retryable (answered resp) = leb 500 resp.status
retryable (failed _ _) = true

-- The outcomes up to the first that is not retryable, `n` at most.
abbrev pub tries : {S : Type 0} → ℕ → (S → Outcome × S) → S → List Outcome
tries zero fn s = []
tries (suc n) fn s = let (out, s') = fn s in out ∷ (if retryable out then tries n fn s' else [])

-- What the caller is told of the last outcome.
abbrev pub verdict : List Outcome → Option Response × Option Error
verdict [] = (none, none)
verdict (answered resp ∷ []) = (some resp, none)
verdict (failed _ err ∷ []) = (none, some err)
verdict (_ ∷ out ∷ outs) = verdict (out ∷ outs)

module _ {S : Type 0} (r : Retrier) (env : Env S) where
  after_call-calls-le :
      (n attempt : ℕ) (out : Outcome) (s : S) (rest : Option Response → Answer S)
      → ((last : Option Response) → calls (rest last).trace ≤ n)
      → calls (after_call r env attempt out s rest).trace ≤ suc n
  unfolding after_call drain
  after_call-calls-le n attempt (answered resp) s rest h = ground (arith, h (some resp))
  after_call-calls-le n attempt (failed none err) s rest h = ground (arith, h none)
  after_call-calls-le n attempt (failed (some resp) err) s rest h = ground (arith, h (some resp))

  calls-attempts-le :
      (left attempt : ℕ) (last : Option Response) (s : S)
      → calls (attempts r env left attempt last s).trace ≤ left
  unfolding attempts
  calls-attempts-le zero attempt last s = omega arith
  calls-attempts-le (suc left) attempt last s = ground (
    arith,
    after_call-calls-le left attempt (env.fn s).0 (env.fn s).1
        (λ last'. attempts r env left (attempt + 1) last' (env.fn s).1)
        (λ last'. calls-attempts-le left (attempt + 1) last' (env.fn s).1),
  )

  -- `Do` calls the function at most `MaxAttempts` times, whatever the function and the context do.
  pub calls-do_attempts-le : (s : S) → calls (do_attempts r env s).trace ≤ r.max_attempts
  unfolding do_attempts
  calls-do_attempts-le s = calls-attempts-le r.max_attempts 0 none s

-- The context is not done before any attempt nor during any wait.
pub record IsUncancelled {S : Type 0} (env : Env S) : Type 0 where
  pub unexpired : (n : ℕ) → env.ctx_err n ≡ none
  pub waited : (n : ℕ) → env.wait n ≡ none

-- What `Do` is for: the outcomes that are called for, and the verdict of the last.
pub record Delivers {S : Type 0} (outs : List Outcome) (a : Answer S) : Type 0 where
  pub made : outcomes a.trace ≡ outs
  pub response : a.resp ≡ (verdict outs).0
  pub error : a.err ≡ (verdict outs).1

module _ {S : Type 0} (r : Retrier) (env : Env S) (un : IsUncancelled env) where
  -- The last attempt.
  after_last :
      (attempt : ℕ) (out : Outcome) (s : S)
      → attempt + 1 ≡ r.max_attempts
      → Delivers
          (out ∷ [])
          (after_call r env attempt out s (λ last. attempts r env zero (attempt + 1) last s))
  unfolding after_call drain attempts
  after_last attempt (answered resp) s e = ground arith
  after_last attempt (failed none err) s e = ground arith
  after_last attempt (failed (some resp) err) s e = ground arith

  after_other :
      (attempt : ℕ) (out : Outcome) (s : S) (rest : Option Response → Answer S) (o : Outcome)
      (outs : List Outcome)
      → attempt + 1 < r.max_attempts
      → ((last : Option Response) → Delivers (o ∷ outs) (rest last))
      → Delivers
          (out ∷ (if retryable out then o ∷ outs else []))
          (after_call r env attempt out s rest)
  unfolding after_call drain
  after_other attempt (answered resp) s rest o outs lt h =
      ground (arith, un.waited attempt, h (some resp))
  after_other attempt (failed none err) s rest o outs lt h =
      ground (arith, un.waited attempt, h none)
  after_other attempt (failed (some resp) err) s rest o outs lt h =
      ground (arith, un.waited attempt, h (some resp))

  attempts-Delivers :
      (left attempt : ℕ) (last : Option Response) (s : S)
      → attempt + suc left ≡ r.max_attempts
      → Delivers (tries (suc left) env.fn s) (attempts r env (suc left) attempt last s)
  unfolding attempts
  attempts-Delivers zero attempt last s e =
      rw (un.unexpired attempt, attempts, if_same)
        (after_last attempt (env.fn s).0 (env.fn s).1 (omega arith))
  attempts-Delivers (suc left) attempt last s e =
      rw (un.unexpired attempt, attempts)
        (after_other attempt (env.fn s).0 (env.fn s).1
          (λ last'. attempts r env (suc left) (attempt + 1) last' (env.fn s).1)
          (env.fn (env.fn s).1).0 _ (omega arith)
          (λ last'. attempts-Delivers left (attempt + 1) last' (env.fn s).1 (omega arith)))

  from_start :
      (n : ℕ) (s : S) → n ≡ r.max_attempts → Delivers (tries n env.fn s) (attempts r env n 0 none s)
  unfolding attempts
  from_start zero s e = record { made = refl; response = refl; error = refl }
  from_start (suc n) s e = attempts-Delivers n 0 none s (omega arith)

  -- While the context is not done, `Do` calls the function until the first outcome that is neither a
  -- network error nor a 5xx status, and at most `MaxAttempts` times; it returns the last response
  -- with a nil error, or no response with the last network error.
  pub do_attempts-Delivers :
      (s : S) → Delivers (tries r.max_attempts env.fn s) (do_attempts r env s)
  unfolding do_attempts
  do_attempts-Delivers s = from_start r.max_attempts s refl
