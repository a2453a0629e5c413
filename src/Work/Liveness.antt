-- ===== src/Work/Liveness.antt =====
-- `Map` always returns.
use chassis_go.Prelude.{
  ℕ, ◌+◌, ◌*◌, ◌-◌, ◌≤◌, ◌<◌, ◌≡◌, refl, List, [], ◌∷◌, length, length-append, arith, ◌⊎◌, inl, inr,
  Bool-cases, if◌then◌else◌, ltb, ap,
}
use chassis_go.Work.{
  Job, Pool, start, acquire, skip, complete, Step, acquired, skipped, completed, cancel, Reach,
  IsFinal,
}
use chassis_go.Work.Outcome.{next-le-total}

nil_of_length : (l : List ℕ) → length l ≤ 0 → l ≡ []
nil_of_length [] h = refl
nil_of_length (i ∷ l) h = absurd (omega arith)

module _ {R E : Type 0} (job : Job R E) where
  -- The steps that are left, at most.
  pub steps_left : Pool R E → ℕ
  steps_left p = 2 * (job.total - p.next) + length p.running + (if p.cancelled then 0 else 1)

  -- Every step of `Map` brings it nearer to its end, so no interleaving goes on for ever.
  pub Step-steps_left : {p q : Pool R E} → Step job p q → steps_left q < steps_left p
  unfolding steps_left acquire skip complete
  Step-steps_left (acquired p lt free) = omega arith
  Step-steps_left (skipped p lt done) = omega arith
  Step-steps_left (completed p before after i e) =
      omega (arith, ap length e, length-append before (i ∷ after), length-append before after)
  Step-steps_left (cancel p e) = ground arith

  pub data CanStep (p : Pool R E) : Type 0 where
    can : (q : Pool R E) → Step job p q → CanStep p

  finish_one : (p : Pool R E) (l : List ℕ) → p.running ≡ l → 0 < length l → CanStep p
  finish_one p [] e h = absurd (omega arith)
  finish_one p (i ∷ rest) e h = can _ (completed p [] rest i e)

  -- No deadlock: with at least one worker, a state that `Map` reaches is final or has a step.
  pub Reach-progress :
      {p : Pool R E} → 0 < job.workers → Reach job (start job) p → IsFinal job p ⊎ CanStep p
  Reach-progress {p} pos r = elim (Bool-cases (ltb p.next job.total)) [
    | inl more ↦ elim (Bool-cases (ltb (length p.running) job.workers)) [
      | inl free ↦ inr (can _ (acquired p (ground arith) (ground arith)))
      | inr full ↦ inr (finish_one p p.running refl (ground arith))
    ]
    | inr looped ↦ elim (Bool-cases (ltb 0 (length p.running))) [
      | inl busy ↦ inr (finish_one p p.running refl (ground arith))
      | inr idle ↦ inl (record {
        looped = ground (arith, next-le-total job r);
        waited = nil_of_length p.running (ground arith);
      })
    ]
  ]
