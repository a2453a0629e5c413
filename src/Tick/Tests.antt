-- ===== src/Tick/Tests.antt =====
-- The third call fails.
use chassis_go.Prelude.{
  ℕ, refl, false, Option, none, some, [], ◌∷◌, pos, ◌==◌, nat_comparable, if◌then◌else◌,
}
use chassis_go.Tick.{Config, stop, fired, done_in_jitter, every}
use chassis_go.Tick.Policy.{Stopped, every-Stopped}

abbrev third_fails : ℕ → Option ℕ
third_fails n = if n == 2 then some 9 else none

abbrev stopping : Config
stopping = record { immediate = false; jitter = pos 0; on_error = stop }

every-Stopped_example :
    Stopped third_fails
      (every (pos 1) stopping third_fails (fired ∷ done_in_jitter ∷ fired ∷ fired ∷ []))
every-Stopped_example =
    every-Stopped third_fails (pos 1) stopping (fired ∷ done_in_jitter ∷ fired ∷ fired ∷ []) refl
