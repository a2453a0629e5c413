-- ===== src/Tick.antt =====
-- tick/tick.go: a function that is called on every tick. A round is what the selects of one turn of
-- the loop receive; the function is what its calls return, in their order.
pub mod Policy
pub mod Tests
use chassis_go.Prelude.{
  ℕ, zero, suc, ◌+◌, Bool, true, false, ltb, ◌&&◌, Option, none, some, List, [], ◌∷◌, ℤ, pos,
  negsuc, if◌then◌else◌,
}

pub data ErrorBehavior : Type 0 where
  skip stop : ErrorBehavior

-- `config`; the label is not read. The jitter is in nanoseconds.
pub record Config : Type 0 where
  pub immediate : Bool
  pub jitter : ℤ
  pub on_error : ErrorBehavior

-- `&config{onError: Skip}`.
abbrev pub default_config : Config
default_config = record { immediate = false; jitter = pos 0; on_error = skip }

-- The context is done, or the ticker fires, and during the jitter that follows the context is done or
-- the timer fires.
pub data Round : Type 0 where
  done_first done_in_jitter fired : Round

-- How a run stands: it refused its interval, it has returned, or it waits; with the number of calls.
pub data Run (E : Type 0) : Type 0 where
  refused : Run E
  returned : Option E → ℕ → Run E
  waiting : ℕ → Run E

pub is_positive : ℤ → Bool
is_positive (pos n) = ltb 0 n
is_positive (negsuc n) = false

module _ {E : Type 0} where
  -- What follows the call that makes the number of calls `n`.
  after_call : ErrorBehavior → Option E → ℕ → Run E → Run E
  after_call behavior none n rest = rest
  after_call skip (some e) n rest = rest
  after_call stop (some e) n rest = returned (some e) n

  -- One turn of the loop, when `n` calls have been made; `rest` goes on after one more.
  turn : Config → (ℕ → Option E) → Round → ℕ → Run E → Run E
  unfolding after_call is_positive
  turn cfg fn done_first n rest = returned none n
  turn cfg fn done_in_jitter n rest =
      if is_positive cfg.jitter
      then returned none n
      else after_call cfg.on_error (fn n) (n + 1) rest
  turn cfg fn fired n rest = after_call cfg.on_error (fn n) (n + 1) rest

  pub loop : Config → (ℕ → Option E) → List Round → ℕ → Run E
  unfolding turn
  loop cfg fn [] n = waiting n
  loop cfg fn (r ∷ rs) n = turn cfg fn r n (loop cfg fn rs (n + 1))

  -- `Every`, run on the rounds to come.
  pub every : ℤ → Config → (ℕ → Option E) → List Round → Run E
  unfolding loop
  every interval cfg fn rounds =
      if is_positive interval
      then (if cfg.immediate
          then after_call cfg.on_error (fn 0) 1 (loop cfg fn rounds 1)
          else loop cfg fn rounds 0)
      else refused
