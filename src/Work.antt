-- ===== src/Work.antt =====
-- work/work.go: `Map`, whose goroutines run under a counting semaphore, and `Race`. A step relation
-- gives every interleaving of the loop, the workers and the cancellation of the context; spans only
-- report and are left out.
pub mod Outcome
pub mod Liveness
pub mod Racing
pub mod Tests
use Prim.Native.Nat.{max}
use chassis_go.Prelude.{
  ℕ, zero, suc, ◌+◌, ◌≤◌, ◌<◌, ◌≡◌, ◌==◌, nat_comparable, Bool, true, false, Option, none, some,
  List, [], ◌∷◌, ◌++◌, length, if◌then◌else◌,
}

-- What the call fixes: the number of items, the limit, what `fn` returns for each item, and the
-- error of the context.
pub record Job (R E : Type 0) : Type 0 where
  pub total : ℕ
  pub workers : ℕ
  pub zero_value : R
  pub fn : ℕ → R × Option E
  pub ctx_err : E

-- `Workers`.
pub clamp_workers : ℕ → ℕ
clamp_workers n = max 1 n

-- The job of `All`, which is that of `Map` without values.
pub all_job : {E : Type 0} → ℕ → ℕ → (ℕ → Option E) → E → Job Unit E
all_job total workers task ctx_err = record {
  total = total;
  workers = workers;
  zero_value = tt;
  fn = λ i. (tt, task i);
  ctx_err = ctx_err;
}

-- The slices `results` and `errs`, the loop's index, the items whose goroutines run, each of which
-- holds a slot of the semaphore, and whether the context is done.
pub record Pool (R E : Type 0) : Type 0 where
  pub next : ℕ
  pub running : List ℕ
  pub results : ℕ → R
  pub errs : ℕ → Option E
  pub cancelled : Bool

abbrev pub write : {A : Type 0} → (ℕ → A) → ℕ → A → ℕ → A
write f i a j = if i == j then a else f j

-- The loop that collects the failures, from index `i` on.
pub collect : {E : Type 0} → ℕ → ℕ → (ℕ → Option E) → List (ℕ × E)
collect zero i errs = []
collect (suc left) i errs =
    let rest = collect left (i + 1) errs in elim (errs i) [ none ↦ rest | some e ↦ (i, e) ∷ rest ]

module _ {R E : Type 0} where
  unfoldable pub start : Job R E → Pool R E
  start job = record {
    next = 0;
    running = [];
    results = λ i. job.zero_value;
    errs = λ i. none;
    cancelled = false;
  }

  -- The loop acquires a slot and starts the goroutine of the next item.
  unfoldable pub acquire : Pool R E → Pool R E
  acquire p = record p { next = p.next + 1; running = p.next ∷ p.running }

  -- The loop gives the next item the context's error.
  unfoldable pub skip : Job R E → Pool R E → Pool R E
  skip job p = record p { next = p.next + 1; errs = write p.errs p.next (some job.ctx_err) }

  -- The goroutine of an item writes its slots and releases the semaphore.
  unfoldable pub complete : Job R E → ℕ → List ℕ → Pool R E → Pool R E
  complete job i rest p =
      let (val, err) = job.fn i in
      record p { results = write p.results i val; errs = write p.errs i err; running = rest }

  pub data Step (job : Job R E) : Pool R E → Pool R E → Type 0 where
    acquired :
        (p : Pool R E)
        → p.next < job.total
        → length p.running < job.workers
        → Step job p (acquire p)
    skipped : (p : Pool R E) → p.next < job.total → p.cancelled ≡ true → Step job p (skip job p)
    completed :
        (p : Pool R E) (before after : List ℕ) (i : ℕ)
        → p.running ≡ before ++ i ∷ after
        → Step job p (complete job i (before ++ after) p)
    cancel : (p : Pool R E) → p.cancelled ≡ false → Step job p (record p { cancelled = true })

  pub data Reach (job : Job R E) (p : Pool R E) : Pool R E → Type 0 where
    here : Reach job p p
    next_step : {q r : Pool R E} → Reach job p q → Step job q r → Reach job p r

  -- `wg.Wait()` has returned, after the loop.
  pub record IsFinal (job : Job R E) (p : Pool R E) : Type 0 where
    pub looped : p.next ≡ job.total
    pub waited : p.running ≡ []

  -- The failures of `*Errors`; none is the nil error.
  pub failures : Job R E → Pool R E → List (ℕ × E)
  failures job p = collect job.total 0 p.errs

  -- `Race`, over the results in the order in which the channel delivers them: the value, if any,
  -- and the failures of the error; no failure is the nil error, also when there is no task.
  pub race : List (ℕ × R × Option E) → List (ℕ × E) → Option R × List (ℕ × E)
  race [] failed = (none, failed)
  race ((i, val, none) ∷ rest) failed = (some val, [])
  race ((i, val, some e) ∷ rest) failed = race rest (failed ++ (i, e) ∷ [])
