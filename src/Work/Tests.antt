-- ===== src/Work/Tests.antt =====
-- A job of two items on one worker, of which the second fails.
use chassis_go.Prelude.{
  ℕ, ◌+◌, ◌<◌, ◌≡◌, refl, false, Option, none, some, List, [], ◌∷◌, if◌then◌else◌, ◌==◌,
  nat_comparable, arith, lookup,
}
use chassis_go.Work.{
  Job, Pool, clamp_workers, start, acquire, complete, Step, acquired, completed, Reach, here,
  next_step, IsFinal, failures,
}
use chassis_go.Work.Outcome.{Ascending, final_uncancelled}

abbrev two_items : Job ℕ ℕ
two_items = record {
  total = 2;
  workers = clamp_workers 0;
  zero_value = 0;
  fn = λ i. (i + 10, if i == 1 then some 99 else none);
  ctx_err = 7;
}

abbrev running_first : Pool ℕ ℕ
running_first = acquire (start two_items)

abbrev done_first : Pool ℕ ℕ
done_first = complete two_items 0 [] running_first

abbrev running_second : Pool ℕ ℕ
running_second = acquire done_first

abbrev finished : Pool ℕ ℕ
finished = complete two_items 1 [] running_second

reached : Reach two_items (start two_items) finished
unfolding acquire complete start clamp_workers
reached =
    next_step
      (next_step
        (next_step (next_step here (acquired (start two_items) (omega arith) (omega arith)))
          (completed running_first [] [] 0 refl))
        (acquired done_first (omega arith) (omega arith)))
      (completed running_second [] [] 1 refl)

finished-IsFinal : IsFinal two_items finished
unfolding acquire complete start
finished-IsFinal = record { looped = refl; waited = refl }

start-Step : Step two_items (start two_items) running_first
unfolding acquire complete start clamp_workers
start-Step = acquired (start two_items) (omega arith) (omega arith)

pos_workers : 0 < two_items.workers
unfolding clamp_workers
pos_workers = omega arith

two_lt : 1 < 2
two_lt = omega arith

uncancelled : finished.cancelled ≡ false
unfolding acquire complete start
uncancelled = refl

final_uncancelled_example :
    (finished.results 1 ≡ (two_items.fn 1).0)
    × (lookup 1 (failures two_items finished) ≡ (two_items.fn 1).1)
    × Ascending two_items 0 2 (failures two_items finished)
final_uncancelled_example =
    final_uncancelled two_items 1 reached finished-IsFinal uncancelled two_lt

abbrev lost : List (ℕ × ℕ × ℕ)
lost = (1, 0, 5) ∷ []

abbrev later : List (ℕ × ℕ × Option ℕ)
later = (2, 3, none) ∷ []
