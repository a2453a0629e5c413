-- ===== src/Work/Outcome.antt =====
-- What `Map` returns, whatever the interleaving.
use chassis_go.Prelude.{
  ℕ, zero, suc, ◌+◌, ◌≤◌, ◌<◌, ◌≡◌, refl, ◌==◌, nat_comparable, Bool, true, false, ◌||◌, Option,
  none, some, List, [], ◌∷◌, ◌++◌, length, length-append, arith, ◌⊎◌, ap, inl, inr, ◌∙◌, leb, ltb,
  ◌&&◌, lookup, if◌then◌else◌, Option-cases,
}
use chassis_go.Work.{
  Job, Pool, start, acquire, skip, complete, Step, acquired, skipped, completed, cancel, Reach,
  here, next_step, IsFinal, collect, failures,
}

abbrev among : ℕ → List ℕ → Bool
among i [] = false
among i (j ∷ l) = j == i || among i l

among-middle :
    (i j : ℕ) (before after : List ℕ)
    → among j (before ++ i ∷ after) ≡ (i == j || among j (before ++ after))
among-middle i j [] after = refl
among-middle i j (k ∷ before) after = ground (arith, among-middle i j before after)

module _ {R E : Type 0} (job : Job R E) where
  -- An item is settled when its slots hold what `fn` returned, or, once the context is done, the
  -- context's error.
  abbrev pub Settled : Pool R E → ℕ → Type 0
  Settled p i =
      ((p.results i ≡ (job.fn i).0) × (p.errs i ≡ (job.fn i).1))
      ⊎ ((p.cancelled ≡ true) × (p.errs i ≡ some job.ctx_err))

  record IsSound (p : Pool R E) : Type 0 where
    within : p.next ≤ job.total
    limited : length p.running ≤ job.workers
    settled : (i : ℕ) → i < p.next → among i p.running ≡ false → Settled p i

  Step-IsSound : {p q : Pool R E} → Step job p q → IsSound p → IsSound q
  unfolding acquire skip complete
  Step-IsSound (acquired p lt free) v = record {
    within = omega arith;
    limited = omega arith;
    settled = λ i h out. ground (arith, v.settled i);
  }
  Step-IsSound (skipped p lt done) v = record {
    within = omega arith;
    limited = v.limited;
    settled = λ i h out. ground (arith, v.settled i);
  }
  Step-IsSound (completed p before after i e) v = record {
    within = v.within;
    limited = omega (
      arith,
      ap length e,
      length-append before (i ∷ after),
      length-append before after,
      v.limited,
    );
    settled = λ j h out. ground (arith, v.settled j h, among-middle i j before after);
  }
  Step-IsSound (cancel p e) v = record {
    within = v.within;
    limited = v.limited;
    settled = λ i h out. ground (arith, v.settled i h out);
  }

  Reach-IsSound : {p : Pool R E} → Reach job (start job) p → IsSound p
  unfolding start
  Reach-IsSound here = record {
    within = omega arith;
    limited = omega arith;
    settled = λ i h out. absurd (omega arith);
  }
  Reach-IsSound (next_step r s) = Step-IsSound s (Reach-IsSound r)

  -- In every interleaving, at every moment, at most `workers` goroutines run.
  pub running-le-workers : {p : Pool R E} → Reach job (start job) p → length p.running ≤ job.workers
  running-le-workers r = (Reach-IsSound r).limited

  pub next-le-total : {p : Pool R E} → Reach job (start job) p → p.next ≤ job.total
  next-le-total r = (Reach-IsSound r).within

  -- When `Map` returns, in every interleaving and wherever the context was cancelled, each item's
  -- slots hold what `fn` returned for that item, or, only if the context is done, the item's error
  -- is that of the context.
  pub final-Settled :
      {p : Pool R E} (i : ℕ) → Reach job (start job) p → IsFinal job p → i < job.total → Settled p i
  final-Settled i r f h = (Reach-IsSound r).settled i (omega (arith, f.looped)) (rw f.waited refl)

  -- Failures in strictly ascending order of their indices, from `low` on and below `high`.
  abbrev pub Ascending : ℕ → ℕ → List (ℕ × E) → Type 0
  Ascending low high [] = Unit
  Ascending low high ((i, e) ∷ l) = (low ≤ i) × (i < high) × Ascending (i + 1) high l

  wider_range :
      (low up high : ℕ) (l : List (ℕ × E)) → low ≤ up → Ascending up high l → Ascending low high l
  wider_range low up high [] h a = tt
  wider_range low up high ((i, e) ∷ l) h a = (omega (arith, a.0), a.1, a.2)

  collect-Ascending :
      (left i high : ℕ) (errs : ℕ → Option E)
      → i + left ≤ high
      → Ascending i high (collect left i errs)
  unfolding collect
  collect-Ascending zero i high errs h = tt
  collect-Ascending (suc left) i high errs h =
      let rest = collect-Ascending left (i + 1) high errs (omega arith) in
      elim (Option-cases (errs i)) [
        | inl fine ↦ rw (fine, Ascending) (wider_range i (i + 1) high _ (omega arith) rest)
        | inr (e, bad) ↦ rw (bad, Ascending) (omega arith, omega arith, rest)
      ]

  lookup-collect :
      (left i j : ℕ) (errs : ℕ → Option E)
      → lookup j (collect left i errs) ≡ (if leb i j && ltb j (i + left) then errs j else none)
  unfolding collect lookup
  lookup-collect zero i j errs = ground arith
  lookup-collect (suc left) i j errs =
      ground (arith, lookup-collect left (i + 1) j errs, nat_comparable.same_iff i j)

  -- If the context is never done, then in every interleaving `Map` returns for each item the value
  -- that `fn` returned for it, and its failures have for each item the error that `fn` returned for
  -- it, if any, and for nothing else, in strictly ascending order of the indices.
  pub final_uncancelled :
      {p : Pool R E} (i : ℕ)
      → Reach job (start job) p
      → IsFinal job p
      → p.cancelled ≡ false
      → i < job.total
      → (p.results i ≡ (job.fn i).0)
        × (lookup i (failures job p) ≡ (job.fn i).1)
        × Ascending 0 job.total (failures job p)
  unfolding failures
  final_uncancelled {p} i r f undone h =
      let settled = final-Settled i r f h in
      (
        ground (arith, settled),
        lookup-collect job.total 0 i p.errs ∙ ground (arith, settled),
        collect-Ascending job.total 0 job.total p.errs (omega arith),
      )
