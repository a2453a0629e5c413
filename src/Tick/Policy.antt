-- ===== src/Tick/Policy.antt =====
-- Which errors end the ticking.
use chassis_go.Prelude.{
  ℕ, ◌+◌, ◌<◌, ◌≡◌, refl, Bool, true, false, Option, none, some, List, [], ◌∷◌, ℤ, ◌==◌,
  nat_comparable, if◌then◌else◌, arith, Bool-cases, inl, inr,
}
use chassis_go.Tick.{
  ErrorBehavior, skip, stop, Config, Round, done_first, done_in_jitter, fired, Run, refused,
  returned, waiting, is_positive, after_call, turn, loop, every,
}

module _ {E : Type 0} (fn : ℕ → Option E) where
  -- Of the calls before the number `n`, none has failed.
  abbrev Clean : ℕ → Type 0
  Clean n = (i : ℕ) → i < n → fn i ≡ none

  -- How a run may stand under the policy `stop`: no call has failed, but for the last, if the run has
  -- returned its error.
  abbrev pub Stopped : Run E → Type 0
  Stopped refused = Unit
  Stopped (waiting n) = Clean n
  Stopped (returned none n) = Clean n
  Stopped (returned (some e) n) = (k : ℕ) × (n ≡ k + 1) × (fn k ≡ some e) × Clean k

  Clean-suc : (n : ℕ) → Clean n → fn n ≡ none → Clean (n + 1)
  Clean-suc n c h i lt = elim (Bool-cases (i == n)) [
    | inl same ↦ let eq : i ≡ n = ground arith in rw eq h
    | inr other ↦ c i (ground arith)
  ]

  after_call-Stopped :
      (behavior : ErrorBehavior) (n : ℕ) (o : Option E) (rest : Run E)
      → behavior ≡ stop
      → fn n ≡ o
      → Clean n
      → (Clean (n + 1) → Stopped rest)
      → Stopped (after_call behavior o (n + 1) rest)
  unfolding after_call
  after_call-Stopped behavior n none rest s h c go = go (Clean-suc n c h)
  after_call-Stopped skip n (some e) rest s h c go = cc
  after_call-Stopped stop n (some e) rest s h c go = (n, refl, h, c)

  loop-Stopped :
      (cfg : Config) (rounds : List Round) (n : ℕ)
      → cfg.on_error ≡ stop
      → Clean n
      → Stopped (loop cfg fn rounds n)
  unfolding loop turn
  loop-Stopped cfg [] n s c = c
  loop-Stopped cfg (done_first ∷ rs) n s c = c
  loop-Stopped cfg (fired ∷ rs) n s c =
      after_call-Stopped cfg.on_error n (fn n) (loop cfg fn rs (n + 1)) s refl c
        (loop-Stopped cfg rs (n + 1) s)
  loop-Stopped cfg (done_in_jitter ∷ rs) n s c = elim (Bool-cases (is_positive cfg.jitter)) [
    | inl jitter ↦ rw jitter c
    | inr none_set ↦ rw none_set (
        after_call-Stopped cfg.on_error n (fn n) (loop cfg fn rs (n + 1)) s refl c
          (loop-Stopped cfg rs (n + 1) s))
  ]

  begun-Stopped :
      (immediate : Bool) (cfg : Config) (rounds : List Round)
      → cfg.on_error ≡ stop
      → Clean 0
      → Stopped (
          if immediate
          then after_call cfg.on_error (fn 0) 1 (loop cfg fn rounds 1)
          else loop cfg fn rounds 0)
  begun-Stopped true cfg rounds s clean =
      after_call-Stopped cfg.on_error 0 (fn 0) (loop cfg fn rounds 1) s refl clean
        (loop-Stopped cfg rounds 1 s)
  begun-Stopped false cfg rounds s clean = loop-Stopped cfg rounds 0 s clean

  -- Under the policy `Stop`, whatever the rounds, the ticking returns an error exactly at the first call
  -- that fails, and with its error: while it waits, and when it returns nil, no call has failed.
  pub every-Stopped :
      (interval : ℤ) (cfg : Config) (rounds : List Round)
      → cfg.on_error ≡ stop
      → Stopped (every interval cfg fn rounds)
  unfolding every
  every-Stopped interval cfg rounds s =
      let clean : Clean 0 = λ i lt. absurd (omega arith) in
      elim (Bool-cases (is_positive interval)) [
        | inr bad ↦ rw bad tt
        | inl good ↦ rw good (begun-Stopped cfg.immediate cfg rounds s clean)
      ]

  -- What a run may return under the policy `skip`: no error.
  abbrev pub NoError : Run E → Type 0
  NoError refused = Unit
  NoError (waiting n) = Unit
  NoError (returned o n) = o ≡ none

  after_call-NoError :
      (behavior : ErrorBehavior) (n : ℕ) (o : Option E) (rest : Run E)
      → behavior ≡ skip
      → NoError rest
      → NoError (after_call behavior o n rest)
  unfolding after_call
  after_call-NoError behavior n none rest s h = h
  after_call-NoError skip n (some e) rest s h = h
  after_call-NoError stop n (some e) rest s h = cc

  loop-NoError :
      (cfg : Config) (rounds : List Round) (n : ℕ)
      → cfg.on_error ≡ skip
      → NoError (loop cfg fn rounds n)
  unfolding loop turn
  loop-NoError cfg [] n s = tt
  loop-NoError cfg (done_first ∷ rs) n s = refl
  loop-NoError cfg (fired ∷ rs) n s =
      after_call-NoError cfg.on_error (n + 1) (fn n) (loop cfg fn rs (n + 1)) s
        (loop-NoError cfg rs (n + 1) s)
  loop-NoError cfg (done_in_jitter ∷ rs) n s = elim (Bool-cases (is_positive cfg.jitter)) [
    | inl jitter ↦ rw jitter refl
    | inr none_set ↦ rw none_set (
        after_call-NoError cfg.on_error (n + 1) (fn n) (loop cfg fn rs (n + 1)) s
          (loop-NoError cfg rs (n + 1) s))
  ]
