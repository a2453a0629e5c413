-- ===== src/Work/Racing.antt =====
-- What `Race` returns.
use chassis_go.Prelude.{ℕ, ◌≡◌, refl, Option, none, some, List, [], ◌∷◌, ◌++◌}
use mathlib.Core.List.{append-nil, append_assoc}
use chassis_go.Work.{race}

module _ {R E : Type 0} where
  -- The results of tasks that failed.
  abbrev pub failing : List (ℕ × R × E) → List (ℕ × R × Option E)
  failing [] = []
  failing ((i, val, e) ∷ l) = (i, val, some e) ∷ failing l

  abbrev pub failures_of : List (ℕ × R × E) → List (ℕ × E)
  failures_of [] = []
  failures_of ((i, val, e) ∷ l) = (i, e) ∷ failures_of l

  race_won :
      (lost : List (ℕ × R × E)) (i : ℕ) (val : R) (later : List (ℕ × R × Option E))
      (failed : List (ℕ × E))
      → race (failing lost ++ (i, val, none) ∷ later) failed ≡ (some val, [])
  unfolding race
  race_won [] i val later failed = refl
  race_won ((j, v, e) ∷ lost) i val later failed = race_won lost i val later (failed ++ (j, e) ∷ [])

  race_lost :
      (lost : List (ℕ × R × E)) (failed : List (ℕ × E))
      → race (failing lost) failed ≡ (none, failed ++ failures_of lost)
  unfolding race
  race_lost [] failed = rw append-nil
  race_lost ((j, v, e) ∷ lost) failed = rw (race_lost lost (failed ++ (j, e) ∷ []), append_assoc)

  -- `Race` returns the value of the first task to succeed, in the order in which the results arrive,
  -- however many tasks failed before; if every task fails, it returns all their failures in the
  -- order in which they arrived.
  pub race-failing :
      (lost : List (ℕ × R × E)) (i : ℕ) (val : R) (later : List (ℕ × R × Option E))
      → (race (failing lost ++ (i, val, none) ∷ later) [] ≡ (some val, []))
        × (race (failing lost) [] ≡ (none, failures_of lost))
  race-failing lost i val later = (race_won lost i val later [], race_lost lost [])
