-- ===== src/Health/Tests.antt =====
-- One check, which fails.
use chassis_go.Prelude.{ℕ, ◌≡◌, refl, true, false, text, Option, some, List, [], ◌∷◌, arith}
use chassis_go.Work.{
  Job, Pool, start, acquire, complete, acquired, completed, Reach, here, next_step, IsFinal,
}
use chassis_go.Health.{CheckResult, checks_job, all_of, check_func}
use chassis_go.Health.Verdict.{started, code_of, handler_uncancelled, handler_cancelled}

abbrev show : ℕ → List ℕ
show n = n ∷ []

abbrev failing : List (List ℕ × Option ℕ)
failing = (text "db", some 7) ∷ []

abbrev one_check : Job (CheckResult ℕ) ℕ
one_check = checks_job show 1 9 failing

abbrev running : Pool (CheckResult ℕ) ℕ
running = acquire (start one_check)

abbrev finished : Pool (CheckResult ℕ) ℕ
finished = complete one_check 0 [] running

reached : Reach one_check (start one_check) finished
unfolding start acquire complete checks_job
reached =
    next_step (next_step here (acquired (start one_check) (omega arith) (omega arith)))
      (completed running [] [] 0 refl)

finished-IsFinal : IsFinal one_check finished
unfolding start acquire complete checks_job
finished-IsFinal = record { looped = refl; waited = refl }

uncancelled : finished.cancelled ≡ false
unfolding start acquire complete
uncancelled = refl

handler_uncancelled_example : code_of show (all_of one_check finished) ≡ 503
handler_uncancelled_example =
    handler_uncancelled show 1 9 failing finished reached finished-IsFinal uncancelled

handler_cancelled_example :
    (p : Pool (CheckResult ℕ) ℕ) × (r : Reach one_check (start one_check) p) × (p.cancelled ≡ true)
    × (started show r ≡ 0)
    × IsFinal one_check p
    × (check_func one_check p ≡ [])
    × (code_of show (all_of one_check p) ≡ 200)
handler_cancelled_example = handler_cancelled show 1 9 failing
