-- ===== src/Cache/Tests.antt =====
-- A cache of two entries with a TTL.
use chassis_go.Prelude.{
  ℕ, ◌≡◌, refl, ◌==◌, nat_comparable, List, [], ◌∷◌, none, some, lookup, insert, take,
  if◌then◌else◌,
}
use chassis_go.Recency.{remove, push_front, make_room}
use chassis_go.Recency.Laws.{contains}
use chassis_go.Cache.{Cache, get, set, run, step, Op, gets, sets, new_cache, expiry}
use chassis_go.Cache.Valid.{IsValid}
use chassis_go.Cache.Reads.{run-new_cache-IsValid, get-set, found}

abbrev ops : List (Op ℕ ℕ)
ops = sets 10 1 100 ∷ sets 11 2 200 ∷ gets 12 1 ∷ []

abbrev two : Cache ℕ ℕ
two = run (new_cache 2 50) ops

two-IsValid : IsValid two
two-IsValid = run-new_cache-IsValid 2 50 ops

run-new_cache-IsValid_example : IsValid (run (new_cache {K = ℕ} {V = ℕ} 0 50) ops)
run-new_cache-IsValid_example = run-new_cache-IsValid 0 50 ops

get-set_example : (get 30 2 (set 20 3 300 two)).1 ≡ (
    if ◌==◌ {K = ℕ} 3 2
    then found 30 (some (record { value = 300; expires_at = expiry 20 two.ttl }))
    else if contains 2 (take two.max_size (3 ∷ remove 3 two.table.order))
    then (get 30 2 two).1
    else none)
get-set_example = get-set 20 30 3 2 300 two two-IsValid

ttl_kept : two.ttl ≡ 50
unfolding run step set get new_cache lookup push_front insert make_room
ttl_kept = refl
