-- ===== src/Guard/Limiter/Tests.antt =====
-- A limiter of two tokens.
use chassis_go.Prelude.{
  ℕ, zero, suc, ◌+◌, ◌-◌, ◌≤◌, ◌<◌, ◌≡◌, ◌==◌, ◌↔◌, ◌⊎◌, refl, true, false, Bool, nat_comparable,
  text, Option, none, some, List, [], ◌∷◌, ◌++◌, lookup, ltb, arith,
}
use Prim.Native.Nat.{min}
use chassis_go.Guard.Limiter.{
  Floats, Bucket, Limiter, new_limiter, take_token, bucket_of, allow_key, allow_all,
}
use chassis_go.Guard.Limiter.Bounds.{IsValid, new_limiter-IsValid, allow_all-new_limiter}
use chassis_go.Guard.Limiter.Burst.{IsExact, repeated, count_admitted, burst_admits}

-- Numbers in the place of floats, with a window in which no token is refilled.
abbrev counted : Floats ℕ
counted = record {
  of_int = λ n. n;
  plus = λ a b. a + b;
  minus_one = λ a. a - 1;
  exceeds = λ a b. ltb b a;
  at_least_one = λ a. ltb 0 a;
  refill = λ elapsed. elapsed;
}

counted-IsExact : IsExact counted 2
counted-IsExact = record {
  plus_nothing = λ m h. omega arith;
  within = λ m h. ground arith;
  empty = ground arith;
  positive = λ m h. ground arith;
  pred = λ m h. omega arith;
}

abbrev new : Limiter ℕ ℕ
new = new_limiter 2 1

new-IsValid : IsValid counted new
new-IsValid = new_limiter-IsValid counted 2 1 (omega arith)

new-IsExact : IsExact counted new.rate
unfolding new_limiter
new-IsExact = counted-IsExact

untracked : lookup 7 new.table.items ≡ none
unfolding new_limiter lookup
untracked = refl

burst_admits_example : count_admitted (allow_all counted (repeated 5 9 7) new).0 ≡ min 5 new.rate
burst_admits_example = burst_admits counted 5 9 7 new new-IsValid new-IsExact untracked

abbrev two_keys : Limiter ℕ ℕ
two_keys = (allow_key counted 0 8 (new_limiter 2 3)).1

two_keys-IsValid : IsValid counted two_keys
unfolding allow_all
two_keys-IsValid = allow_all-new_limiter counted 2 3 ((0, 8) ∷ []) (omega arith)

abbrev half_empty : Bucket ℕ
half_empty = record { tokens = 1; last_fill = 0 }

seven_other : ◌==◌ {K = ℕ} 7 8 ≡ false
seven_other = refl

eight_kept : lookup 8 (allow_key counted 1 7 two_keys).1.table.items ≡ some half_empty
unfolding allow_key take_token chassis_go.Guard.Limiter.refilled bucket_of
    chassis_go.Guard.Limiter.touch chassis_go.Guard.Limiter.fresh new_limiter lookup
    chassis_go.Prelude.insert chassis_go.Recency.push_front chassis_go.Recency.make_room
eight_kept = refl
