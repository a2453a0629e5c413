-- ===== src/Health/Verdict.antt =====
-- What the aggregate says of the checks, with and without a cancelled context.
use chassis_go.Prelude.{
  ℕ, zero, suc, ◌+◌, ◌≤◌, ◌<◌, ◌≡◌, refl, ap, sym, ◌∙◌, Bool, true, false, Option, none, some,
  if◌then◌else◌, List, [], ◌∷◌, length, arith,
}
use chassis_go.Work.{
  Job, Pool, start, skip, Step, acquired, skipped, completed, cancel, Reach, here, next_step,
  IsFinal,
}
use chassis_go.Work.Outcome.{final_uncancelled}
use chassis_go.Health.{
  Result, CheckResult, empty_result, run_check, entry_at, checks_job, add_check, gather, all_of,
  check_func, handler,
}

module _ {E : Type 0} (show : E → List ℕ) where
  -- The results and the errors of the checks, one by one.
  pub expected : List (List ℕ × Option E) → List Result × List (List ℕ × E)
  expected [] = ([], [])
  expected ((name, none) ∷ entries) =
      let (results, errs) = expected entries in
      (record { name = name; healthy = true; message = [] } ∷ results, errs)
  expected ((name, some e) ∷ entries) =
      let (results, errs) = expected entries in
      (record { name = name; healthy = false; message = show e } ∷ results, (name, e) ∷ errs)

  gather-eq :
      (left i j : ℕ) (f g : ℕ → CheckResult E)
      → ((k : ℕ) → k < left → f (i + k) ≡ g (j + k))
      → gather left i f ≡ gather left j g
  unfolding gather
  gather-eq zero i j f g h = refl
  gather-eq (suc left) i j f g h =
      let i0 : i + 0 ≡ i = omega arith in
      let j0 : j + 0 ≡ j = omega arith in
      let first : f i ≡ g j = ap f (sym i0) ∙ h 0 (omega arith) ∙ ap g j0 in
      let rest = gather-eq left (i + 1) (j + 1) f g (λ k lt.
        let i1 : i + 1 + k ≡ i + (k + 1) = omega arith in
        let j1 : j + (k + 1) ≡ j + 1 + k = omega arith in
        ap f i1 ∙ h (k + 1) (omega arith) ∙ ap g j1) in
      ap (λ cr. add_check cr (gather left (i + 1) f)) first ∙ ap (add_check (g j)) rest

  add_expected :
      (entry : List ℕ × Option E) (entries : List (List ℕ × Option E))
      → add_check (run_check show entry) (expected entries) ≡ expected (entry ∷ entries)
  unfolding expected add_check run_check
  add_expected (name, none) entries = refl
  add_expected (name, some e) entries = refl

  gather-expected :
      (entries : List (List ℕ × Option E))
      → gather (length entries) 0 (λ i. run_check show (entry_at entries i)) ≡ expected entries
  unfolding gather expected entry_at
  gather-expected [] = refl
  gather-expected (entry ∷ entries) =
      let crs : ℕ → CheckResult E = λ i. run_check show (entry_at (entry ∷ entries) i) in
      let after : ℕ → CheckResult E = λ i. run_check show (entry_at entries i) in
      let rest = gather-eq (length entries) 1 0 crs after (λ k lt.
        let k1 : 1 + k ≡ suc k = omega arith in
        let k0 : k ≡ 0 + k = omega arith in ap crs k1 ∙ ap after k0) in
      ap (add_check (run_check show entry)) (rest ∙ gather-expected entries)
      ∙ add_expected entry entries

  -- As long as the context is not cancelled, in every interleaving, `All` returns the result of each
  -- check in order, and exactly the errors of those that fail, each with the name of its check.
  pub all_of_uncancelled :
      (workers : ℕ) (ctx_err : E) (entries : List (List ℕ × Option E)) (p : Pool (CheckResult E) E)
      → Reach
          (checks_job show workers ctx_err entries)
          (start (checks_job show workers ctx_err entries))
          p
      → IsFinal (checks_job show workers ctx_err entries) p
      → p.cancelled ≡ false
      → all_of (checks_job show workers ctx_err entries) p ≡ expected entries
  unfolding all_of checks_job
  all_of_uncancelled workers ctx_err entries p r f undone =
      let job = checks_job show workers ctx_err entries in
      let after : ℕ → CheckResult E = λ i. run_check show (entry_at entries i) in
      gather-eq (length entries) 0 0 p.results after
        (λ k lt. (final_uncancelled job (0 + k) r f undone (omega arith)).0)
      ∙ gather-expected entries

  -- Whether every check passes.
  abbrev pub passes : List (List ℕ × Option E) → Bool
  passes [] = true
  passes ((name, none) ∷ entries) = passes entries
  passes ((name, some e) ∷ entries) = false

  -- The code of an answer.
  abbrev pub code_of : List Result × List (List ℕ × E) → ℕ
  code_of outcome = (handler outcome).1

  add_passing :
      (result : Result) (outcome : List Result × List (List ℕ × E))
      → code_of (result ∷ outcome.0, outcome.1) ≡ code_of outcome
  unfolding handler
  add_passing result (results, []) = refl
  add_passing result (results, e ∷ es) = refl

  no_errors : (outcome : List Result × List (List ℕ × E)) → outcome.1 ≡ [] → code_of outcome ≡ 200
  unfolding handler
  no_errors (results, []) h = refl
  no_errors (results, e ∷ es) h = cc

  code_of-expected :
      (entries : List (List ℕ × Option E))
      → code_of (expected entries) ≡ (if passes entries then 200 else 503)
  unfolding handler expected
  code_of-expected [] = refl
  code_of-expected ((name, some e) ∷ entries) = refl
  code_of-expected ((name, none) ∷ entries) =
      add_passing _ (expected entries) ∙ code_of-expected entries

  -- As long as the context is not cancelled, in every interleaving, the handler answers 200 if every
  -- check passes and 503 if one fails.
  pub handler_uncancelled :
      (workers : ℕ) (ctx_err : E) (entries : List (List ℕ × Option E)) (p : Pool (CheckResult E) E)
      → Reach
          (checks_job show workers ctx_err entries)
          (start (checks_job show workers ctx_err entries))
          p
      → IsFinal (checks_job show workers ctx_err entries) p
      → p.cancelled ≡ false
      → code_of (all_of (checks_job show workers ctx_err entries) p)
        ≡ (if passes entries then 200 else 503)
  handler_uncancelled workers ctx_err entries p r f undone =
      ap code_of (all_of_uncancelled workers ctx_err entries p r f undone)
      ∙ code_of-expected entries

  -- A cancelled pool of which the loop has skipped the first items.
  skipped_pool : Job (CheckResult E) E → ℕ → Pool (CheckResult E) E
  skipped_pool job zero = record (start job) { cancelled = true }
  skipped_pool job (suc n) = skip job (skipped_pool job n)

  skipped_is :
      (job : Job (CheckResult E) E) (n : ℕ)
      → ((skipped_pool job n).next ≡ n)
        × ((skipped_pool job n).cancelled ≡ true)
        × ((skipped_pool job n).running ≡ [])
        × ((skipped_pool job n).results ≡ λ i. job.zero_value)
  unfolding skipped_pool chassis_go.Work.skip chassis_go.Work.start
  skipped_is job zero = (refl, refl, refl, refl)
  skipped_is job (suc n) =
      let (at, done, idle, same) = skipped_is job n in (omega (arith, at), done, idle, same)

  -- How many checks are started on the way.
  pub started : {job : Job (CheckResult E) E} {p q : Pool (CheckResult E) E} → Reach job p q → ℕ
  started here = 0
  started (next_step r (acquired p lt free)) = started r + 1
  started (next_step r (skipped p lt done)) = started r
  started (next_step r (completed p before after i e)) = started r
  started (next_step r (cancel p e)) = started r

  skipped-Reach :
      (job : Job (CheckResult E) E) (n : ℕ)
      → n ≤ job.total
      → (r : Reach job (start job) (skipped_pool job n)) × (started r ≡ 0)
  unfolding skipped_pool chassis_go.Work.start started
  skipped-Reach job zero h = (next_step here (cancel (start job) refl), refl)
  skipped-Reach job (suc n) h =
      let (at, done, idle, same) = skipped_is job n in
      let (r, unstarted) = skipped-Reach job n (omega arith) in
      (next_step r (skipped (skipped_pool job n) (omega (arith, at)) done), unstarted)

  gather_zero :
      (left i : ℕ)
      → (gather {E = E} left i (λ i. record { result = empty_result; error = none })).1 ≡ []
  unfolding gather add_check
  gather_zero zero i = refl
  gather_zero (suc left) i = gather_zero left (i + 1)

  -- However the checks would turn out, there is an interleaving in which the context is cancelled, no
  -- check is started, and yet `CheckFunc` returns no error and the handler answers 200.
  pub handler_cancelled :
      (workers : ℕ) (ctx_err : E) (entries : List (List ℕ × Option E))
      → (p : Pool (CheckResult E) E) × (r : Reach
          (checks_job show workers ctx_err entries)
          (start (checks_job show workers ctx_err entries))
          p)
        × (p.cancelled ≡ true)
        × (started r ≡ 0)
        × IsFinal (checks_job show workers ctx_err entries) p
        × (check_func (checks_job show workers ctx_err entries) p ≡ [])
        × (code_of (all_of (checks_job show workers ctx_err entries) p) ≡ 200)
  unfolding check_func all_of checks_job
  handler_cancelled workers ctx_err entries =
      let job = checks_job show workers ctx_err entries in
      let (at, done, idle, same) = skipped_is job job.total in
      let (r, unstarted) = skipped-Reach job job.total (omega arith) in
      let none_failed = ap (λ f. (gather job.total 0 f).1) same ∙ gather_zero job.total 0 in
      (
        skipped_pool job job.total,
        r,
        done,
        unstarted,
        record { looped = at; waited = idle },
        none_failed,
        no_errors (all_of job (skipped_pool job job.total)) none_failed,
      )
