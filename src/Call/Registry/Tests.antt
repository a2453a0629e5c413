-- ===== src/Call/Registry/Tests.antt =====
-- Two goroutines that ask for one breaker at once.
use mathlib.Core.List.{Mem, mem-cons_self}
use chassis_go.Prelude.{ℕ, String, ◌≡◌, refl, ◌↔◌, [], ◌∷◌, lookup, insert}
use chassis_go.Call.Breaker.{new_breaker}
use chassis_go.Call.Registry.{
  System, Registry, Missed, Reach, load_miss, stored, here, next, empty, finish,
}
use chassis_go.Call.Registry.Singleton.{Reach-singleton}

abbrev first : Missed
first = record { name = "db"; threshold = 2; reset_timeout = 30 }

abbrev second : Missed
second = record { name = "db"; threshold = 5; reset_timeout = 10 }

abbrev both_missed : System
both_missed = record empty { missed = second ∷ first ∷ [] }

abbrev both_done : System
both_done = finish first [] (finish second (first ∷ []) both_missed)

race : Reach empty both_done
unfolding lookup finish
race =
    next
      (next
        (next (next here (load_miss empty first refl))
          (load_miss (record empty { missed = first ∷ [] }) second refl))
        (stored both_missed [] (first ∷ []) second refl))
      (stored (finish second (first ∷ []) both_missed) [] [] first refl)

race_winners : both_done.returned ≡ ("db", 0) ∷ ("db", 0) ∷ []
unfolding lookup insert finish
race_winners = refl

won : Mem ("db", 0) both_done.returned
won = rw race_winners mem-cons_self

Reach-singleton_example : (◌≡◌ {A = String} "db" "db") ↔ (◌≡◌ {A = ℕ} 0 0)
Reach-singleton_example = Reach-singleton "db" "db" 0 0 race won won

abbrev two_names : Registry
two_names = record {
  breakers = ("db", 0) ∷ ("api", 1) ∷ [];
  heap = new_breaker 2 30 ∷ new_breaker 5 10 ∷ [];
}
