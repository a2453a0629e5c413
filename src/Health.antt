-- ===== src/Health.antt =====
-- health/health.go and health/handler.go: the checks run in parallel by `Map` of package work, and the
-- answer that is made of what they say. A check is what it returns; the map of checks is the list of
-- its names in sorted order; the encoding of the answer is a parameter.
pub mod Verdict
pub mod Tests
use chassis_go.Prelude.{
  ℕ, zero, suc, ◌+◌, Bool, true, false, Option, none, some, List, [], ◌∷◌, ◌++◌, length, text,
  if◌then◌else◌,
}
use chassis_go.Work.{Job, Pool}

-- `Result`; an error is in `message` as its text.
pub record Result : Type 0 where
  pub name : List ℕ
  pub healthy : Bool
  pub message : List ℕ

-- `checkResult`.
pub record CheckResult (E : Type 0) : Type 0 where
  pub result : Result
  pub error : Option E

abbrev pub empty_result : Result
empty_result = record { name = []; healthy = false; message = [] }

module _ {E : Type 0} where
  -- The function that `All` maps over the entries, on the text of an error.
  pub run_check : (E → List ℕ) → List ℕ × Option E → CheckResult E
  run_check show (name, none) = record {
    result = record { name = name; healthy = true; message = [] };
    error = none;
  }
  run_check show (name, some e) = record {
    result = record { name = name; healthy = false; message = show e };
    error = some e;
  }

  -- The entry at an index.
  pub entry_at : List (List ℕ × Option E) → ℕ → List ℕ × Option E
  entry_at [] i = ([], none)
  entry_at (entry ∷ entries) zero = entry
  entry_at (entry ∷ entries) (suc i) = entry_at entries i

  -- What `Map` is called with: no error of its own.
  pub checks_job : (E → List ℕ) → ℕ → E → List (List ℕ × Option E) → Job (CheckResult E) E
  unfolding run_check entry_at
  checks_job show workers ctx_err entries = record {
    total = length entries;
    workers = workers;
    zero_value = record { result = empty_result; error = none };
    fn = λ i. (run_check show (entry_at entries i), none);
    ctx_err = ctx_err;
  }

  -- A round of the loop over what `Map` returned, before the others.
  add_check : CheckResult E → List Result × List (List ℕ × E) → List Result × List (List ℕ × E)
  add_check cr (results, errs) =
      (cr.result ∷ results, elim cr.error [ none ↦ errs | some e ↦ (cr.result.name, e) ∷ errs ])

  -- The loop; the error of `Map` is not looked at.
  pub gather : ℕ → ℕ → (ℕ → CheckResult E) → List Result × List (List ℕ × E)
  unfolding add_check
  gather zero i crs = ([], [])
  gather (suc left) i crs = add_check (crs i) (gather left (i + 1) crs)

  -- `All`, when `Map` has returned; no error is the nil error of `errors.Join`.
  pub all_of : Job (CheckResult E) E → Pool (CheckResult E) E → List Result × List (List ℕ × E)
  all_of job p = gather job.total 0 p.results

  -- `CheckFunc`.
  pub check_func : Job (CheckResult E) E → Pool (CheckResult E) E → List (List ℕ × E)
  check_func job p = (all_of job p).1

  -- The status, the code and the results that the handler answers with.
  pub handler : List Result × List (List ℕ × E) → List ℕ × ℕ × List Result
  handler (results, []) = (text "healthy", 200, results)
  handler (results, e ∷ es) = (text "unhealthy", 503, results)

  -- The answer, on the encoded body; none is an error of the encoder.
  pub respond :
      (List ℕ × List Result → Option (List ℕ)) → List Result × List (List ℕ × E) → ℕ × List ℕ
  unfolding handler
  respond encode outcome =
      let (status, code, results) = handler outcome in
      elim (encode (status, results)) [
        | none ↦ (500, text "{\"status\":\"error\"}" ++ 10 ∷ [])
        | some body ↦ (code, body)
      ]
