-- ===== src/Call/Retry/Bodies.antt =====
-- The response bodies that `Retrier.Do` closes.
use chassis_go.Prelude.{
  ℕ, zero, suc, ◌+◌, ◌<◌, ◌≡◌, refl, Option, none, some, List, [], ◌∷◌, ◌++◌, if◌then◌else◌, arith,
}
use chassis_go.Call.Retry.{
  Response, Outcome, answered, failed, Retrier, Env, Event, called, closed, slept, Answer,
  after_call, drain, attempts, do_attempts,
}

abbrev with_body : Option Response → List Response
with_body none = []
with_body (some resp) = if resp.body then resp ∷ [] else []

abbrev body_of : Outcome → List Response
body_of (answered resp) = resp ∷ []
body_of (failed resp _) = with_body resp

-- The responses with a body that the function returned, in order.
abbrev pub received : List Event → List Response
received [] = []
received (called out ∷ es) = body_of out ++ received es
received (closed _ ∷ es) = received es
received (slept _ ∷ es) = received es

-- The responses whose body was closed, in order.
abbrev pub closings : List Event → List Response
closings [] = []
closings (called _ ∷ es) = closings es
closings (closed resp ∷ es) = resp ∷ closings es
closings (slept _ ∷ es) = closings es

abbrev pub handed : Option Response → List Response
handed none = []
handed (some resp) = resp ∷ []

-- Each body was closed once, in order, but that of the response returned.
abbrev pub Accounts : {S : Type 0} → Answer S → Type 0
Accounts a = received a.trace ≡ closings a.trace ++ handed a.resp

module _ {S : Type 0} (r : Retrier) (env : Env S) where
  after_last :
      (attempt : ℕ) (out : Outcome) (s : S)
      → attempt + 1 ≡ r.max_attempts
      → Accounts (after_call r env attempt out s (λ last. attempts r env zero (attempt + 1) last s))
  unfolding after_call drain attempts
  after_last attempt (answered resp) s e = ground arith
  after_last attempt (failed none err) s e = ground arith
  after_last attempt (failed (some resp) err) s e = ground arith

  after_other :
      (attempt : ℕ) (out : Outcome) (s : S) (rest : Option Response → Answer S)
      → attempt + 1 < r.max_attempts
      → ((last : Option Response) → Accounts (rest last))
      → Accounts (after_call r env attempt out s rest)
  unfolding after_call drain
  after_other attempt (answered resp) s rest lt h = ground (arith, h (some resp))
  after_other attempt (failed none err) s rest lt h = ground (arith, h none)
  after_other attempt (failed (some resp) err) s rest lt h = ground (arith, h (some resp))

  attempts-Accounts :
      (left attempt : ℕ) (last : Option Response) (s : S)
      → attempt + suc left ≡ r.max_attempts
      → Accounts (attempts r env (suc left) attempt last s)
  unfolding attempts
  attempts-Accounts zero attempt last s e =
      ground (arith, after_last attempt (env.fn s).0 (env.fn s).1 (omega arith))
  attempts-Accounts (suc left) attempt last s e = ground (
    arith,
    after_other attempt (env.fn s).0 (env.fn s).1
        (λ last'. attempts r env (suc left) (attempt + 1) last' (env.fn s).1) (omega arith)
        (λ last'. attempts-Accounts left (attempt + 1) last' (env.fn s).1 (omega arith)),
  )

  from_start : (n : ℕ) (s : S) → n ≡ r.max_attempts → Accounts (attempts r env n 0 none s)
  unfolding attempts
  from_start zero s e = refl
  from_start (suc n) s e = attempts-Accounts n 0 none s (omega arith)

  -- No body leaks and none is closed twice, whatever the function and the context do: of the
  -- responses with a body that the function returned, `Do` closes each once, in order, but for the
  -- one that it returns, which comes last.
  pub do_attempts-Accounts :
      (s : S)
      → received (do_attempts r env s).trace
        ≡ closings (do_attempts r env s).trace ++ handed (do_attempts r env s).resp
  unfolding do_attempts
  do_attempts-Accounts s = from_start r.max_attempts s refl
