-- ===== src/Call/Retry/Tests.antt =====
-- A server that fails twice and then answers.
use chassis_go.Prelude.{
  ℕ, zero, suc, ◌+◌, ◌*◌, ◌^◌, ◌/◌, ◌-◌, ◌≤◌, ◌≡◌, refl, ◌++◌, true, none, some, arith,
}
use chassis_go.Call.Errors.{external}
use chassis_go.Call.Retry.{
  Response, Outcome, answered, failed, Retrier, Env, do_attempts, backoff_delay, attempts,
  after_call, drain, doubled, half,
}
use chassis_go.Call.Retry.Attempts.{IsUncancelled, Delivers, do_attempts-Delivers, tries}
use chassis_go.Call.Retry.Bodies.{do_attempts-Accounts, received, closings, handed}
use chassis_go.Call.Retry.Backoff.{backoff_delay_bounds}

abbrev unavailable : Response
unavailable = record { id = 1; status = 503; body = true }

abbrev answer : Response
answer = record { id = 2; status = 200; body = true }

abbrev server : ℕ → Outcome
server zero = failed none (external 7)
server (suc zero) = answered unavailable
server (suc (suc n)) = answered answer

abbrev retrier : Retrier
retrier = record { max_attempts = 4; base_delay = 1000 }

abbrev env : Env ℕ
env = record {
  ctx_err = λ n. none;
  wait = λ n. none;
  rand = λ a n. n - 1;
  fn = λ s. (server s, suc s);
}

third_answer : (do_attempts retrier env 0).resp ≡ some answer
unfolding do_attempts attempts after_call drain
third_answer = refl

second_delay : backoff_delay retrier env.rand 1 ≡ 2999
unfolding backoff_delay doubled half
second_delay = refl

env-IsUncancelled : IsUncancelled env
env-IsUncancelled = record { unexpired = λ n. refl; waited = λ n. refl }

do_attempts-Delivers_example : Delivers (tries 4 env.fn 0) (do_attempts retrier env 0)
do_attempts-Delivers_example = do_attempts-Delivers retrier env env-IsUncancelled 0

do_attempts-Accounts_example :
    received (do_attempts retrier env 0).trace
    ≡ closings (do_attempts retrier env 0).trace ++ handed (do_attempts retrier env 0).resp
do_attempts-Accounts_example = do_attempts-Accounts retrier env 0

backoff_delay_bounds_example :
    (1000 * 2 ^ 3 ≤ backoff_delay retrier env.rand 3)
    × (backoff_delay retrier env.rand 3 ≤ 1000 * 2 ^ 3 + (1000 * 2 ^ 3 / 2 - 1))
backoff_delay_bounds_example =
    backoff_delay_bounds retrier env.rand 3 1000 (λ a n h. omega arith) refl (omega arith)
