-- ===== src/Call/Retry/States.antt =====
-- What every loop of `Retrier.Do` keeps of the request function's state, and that it answers.
use mathlib.Core.Path.{subst}
use chassis_go.Prelude.{
  sym, ℕ, zero, suc, ◌+◌, ◌<◌, ◌≡◌, refl, Option, none, some, ◌⊎◌, inl, inr, arith, Option-cases,
}
use chassis_go.Call.Retry.{
  Response, Outcome, answered, failed, Retrier, Env, Answer, after_call, drain, attempts,
  do_attempts,
}

abbrev next_last : Outcome → Option Response
next_last (answered resp) = some resp
next_last (failed resp err) = resp

module _ {S : Type 0} (r : Retrier) (env : Env S) where
  after_call-state_cases :
      (attempt : ℕ) (out : Outcome) (s : S) (rest : Option Response → Answer S)
      → ((after_call r env attempt out s rest).state ≡ s)
        ⊎ ((after_call r env attempt out s rest).state ≡ (rest (next_last out)).state)
  unfolding after_call drain
  after_call-state_cases attempt (answered resp) s rest = ground arith
  after_call-state_cases attempt (failed resp err) s rest = ground arith

  attempts-state :
      (P : S → Type 0) (step : (s : S) → P s → P (env.fn s).1) (left attempt : ℕ)
      (last : Option Response) (s : S)
      → P s
      → P (attempts r env left attempt last s).state
  unfolding attempts
  attempts-state P step zero attempt last s p = p
  attempts-state P step (suc left) attempt last s p = elim (Option-cases (env.ctx_err attempt)) [
    | inr (e, h) ↦ rw (h, attempts) p
    | inl h ↦
        let s' = (env.fn s).1 in
        let rest = λ (last' : Option Response). attempts r env left (attempt + 1) last' s' in
        rw (h, attempts)
          (elim (after_call-state_cases attempt (env.fn s).0 s' rest) [
            | inl e ↦ subst P (sym e) (step s p)
            | inr e ↦
                subst P (sym e)
                  (attempts-state P step left (attempt + 1) (next_last (env.fn s).0) s' (step s p))
          ])
  ]

  -- What every call of the request function keeps of its state, `Do` keeps.
  pub do_attempts-state :
      (P : S → Type 0) (step : (s : S) → P s → P (env.fn s).1) (s : S)
      → P s
      → P (do_attempts r env s).state
  unfolding do_attempts
  do_attempts-state P step s p = attempts-state P step r.max_attempts 0 none s p

abbrev pub Replies : {S : Type 0} → Answer S → Type 0
Replies a = ¬ ((a.resp ≡ none) × (a.err ≡ none))

module _ {S : Type 0} (r : Retrier) (env : Env S) where
  after_last :
      (attempt : ℕ) (out : Outcome) (s : S)
      → attempt + 1 ≡ r.max_attempts
      → Replies (after_call r env attempt out s (λ last. attempts r env zero (attempt + 1) last s))
  unfolding after_call drain attempts
  after_last attempt (answered resp) s e = ground arith
  after_last attempt (failed resp err) s e = ground arith

  after_other :
      (attempt : ℕ) (out : Outcome) (s : S) (rest : Option Response → Answer S)
      → attempt + 1 < r.max_attempts
      → ((last : Option Response) → Replies (rest last))
      → Replies (after_call r env attempt out s rest)
  unfolding after_call drain
  after_other attempt (answered resp) s rest lt h = ground (arith, h (some resp))
  after_other attempt (failed resp err) s rest lt h = ground (arith, h resp)

  attempts-Replies :
      (left attempt : ℕ) (last : Option Response) (s : S)
      → attempt + suc left ≡ r.max_attempts
      → Replies (attempts r env (suc left) attempt last s)
  unfolding attempts
  attempts-Replies zero attempt last s e =
      ground (arith, after_last attempt (env.fn s).0 (env.fn s).1 (omega arith))
  attempts-Replies (suc left) attempt last s e = ground (
    arith,
    after_other attempt (env.fn s).0 (env.fn s).1
        (λ last'. attempts r env (suc left) (attempt + 1) last' (env.fn s).1) (omega arith)
        (λ last'. attempts-Replies left (attempt + 1) last' (env.fn s).1 (omega arith)),
  )

  from_start : (n : ℕ) (s : S) → n ≡ r.max_attempts → 0 < n → Replies (attempts r env n 0 none s)
  from_start zero s e pos = absurd (omega arith)
  from_start (suc n) s e pos = attempts-Replies n 0 none s (omega arith)

  -- With at least one attempt `Do` returns a response or an error.
  pub do_attempts-Replies : (s : S) → 0 < r.max_attempts → Replies (do_attempts r env s)
  unfolding do_attempts
  do_attempts-Replies s pos = from_start r.max_attempts s refl pos
