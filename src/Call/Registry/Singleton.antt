-- ===== src/Call/Registry/Singleton.antt =====
-- Breakers are singletons by name, however the calls of `GetBreaker` interleave.
use mathlib.Core.List.{Mem}
use native.Mathlib.Nat.{ℕ_set}
use text.Mathlib.TextEquality.{eq_iff}
use chassis_go.Prelude.{
  ℕ, String, [], ◌∷◌, ◌++◌, Option, some, lookup, length, ◌≡◌, ◌<◌, ◌↔◌, arith, lookup-insert,
  lookup-erase, length-append, string_comparable, All, All-imp, All-mem,
}
use chassis_go.Call.Breaker.{new_breaker, CircuitBreaker}
use chassis_go.Call.Registry.{
  Registry, System, Step, Reach, load_hit, load_miss, stored, here, next, empty, finish,
  get_breaker, remove_breaker, load_or_store,
}

record IsConsistent (r : Registry) : Type 0 where
  fresh : (n : String) (p : ℕ) → lookup n r.breakers ≡ some p → p < length r.heap
  distinct :
      (n m : String) (p : ℕ) → lookup n r.breakers ≡ some p → lookup m r.breakers ≡ some p → n ≡ m

module _ (name : String) (cb : CircuitBreaker) (r : Registry) where
  lookup-load_or_store :
      lookup name (load_or_store name cb r).0.breakers ≡ some (load_or_store name cb r).1
  unfolding load_or_store
  lookup-load_or_store =
      ground (arith, lookup-insert name name (length r.heap) r.breakers, eq_iff name name)

  load_or_store_keeps :
      (n : String) (p : ℕ)
      → lookup n r.breakers ≡ some p
      → lookup n (load_or_store name cb r).0.breakers ≡ some p
  unfolding load_or_store
  load_or_store_keeps n p h =
      ground (arith, lookup-insert name n (length r.heap) r.breakers, eq_iff name n)

  load_or_store-IsConsistent : IsConsistent r → IsConsistent (load_or_store name cb r).0
  unfolding load_or_store
  load_or_store-IsConsistent v = record {
    fresh = λ n p h. ground (
      arith,
      lookup-insert name n (length r.heap) r.breakers,
      v.fresh n p,
      length-append r.heap (cb ∷ []),
    );
    distinct = λ n m p h k. ground (
      arith,
      lookup-insert name n (length r.heap) r.breakers,
      lookup-insert name m (length r.heap) r.breakers,
      eq_iff name n,
      eq_iff name m,
      v.distinct n m p,
      v.fresh n p,
      v.fresh m p,
    );
  }

option_set : IsSet (Option ℕ)
option_set = hlevel ℕ_set

abbrev Holds : Registry → String × ℕ → Type 0
Holds r answer = lookup answer.0 r.breakers ≡ some answer.1

record IsSound (s : System) : Type 0 where
  consistent : IsConsistent s.registry
  answers : All (Holds s.registry) s.returned

Mem-Holds :
    {s : System} {n : String} {p : ℕ}
    → IsSound s
    → Mem (n, p) s.returned
    → lookup n s.registry.breakers ≡ some p
Mem-Holds {s} v m = All-mem (Holds s.registry) (λ a. option_set _ _) s.returned v.answers m

Step-IsSound : {s t : System} → Step s t → IsSound s → IsSound t
unfolding finish
Step-IsSound (load_hit s name p e) v = record {
  consistent = v.consistent;
  answers = (e, v.answers);
}
Step-IsSound (load_miss s m e) v = record { consistent = v.consistent; answers = v.answers }
Step-IsSound (stored s before after m e) v =
    let cb : CircuitBreaker = new_breaker m.threshold m.reset_timeout in
    record {
      consistent = load_or_store-IsConsistent m.name cb s.registry v.consistent;
      answers = (
        lookup-load_or_store m.name cb s.registry,
        All-imp s.returned (λ a. load_or_store_keeps m.name cb s.registry a.0 a.1) v.answers,
      );
    }

Reach-IsSound : {s t : System} → IsSound s → Reach s t → IsSound t
Reach-IsSound v here = v
Reach-IsSound v (next r st) = Step-IsSound st (Reach-IsSound v r)

empty-IsSound : IsSound empty
unfolding lookup
empty-IsSound = record {
  consistent = record { fresh = λ n p h. cc; distinct = λ n m p h k. cc };
  answers = tt;
}

-- However many goroutines interleave their calls of `GetBreaker`, with no breaker removed: two
-- calls that have returned got the same breaker exactly if they asked for the same name.
pub Reach-singleton :
    {s : System} (n m : String) (p q : ℕ)
    → Reach empty s
    → Mem (n, p) s.returned
    → Mem (m, q) s.returned
    → (n ≡ m) ↔ (p ≡ q)
Reach-singleton {s} n m p q r a b =
    let sound : IsSound s = Reach-IsSound empty-IsSound r in
    let held_n = Mem-Holds sound a in
    let held_m = Mem-Holds sound b in
    (λ e. cc (e, held_n, held_m), λ e. sound.consistent.distinct n m p held_n (rw e held_m))

-- Once a breaker is removed, the next `GetBreaker` of that name, with no other call in between,
-- allocates a new closed breaker with the threshold and timeout asked for, and returns it.
pub get_breaker-remove_breaker :
    (name : String) (threshold reset_timeout : ℕ) (r : Registry)
    → ((get_breaker name threshold reset_timeout (remove_breaker name r)).1 ≡ length r.heap)
      × ((get_breaker name threshold reset_timeout (remove_breaker name r)).0.heap
          ≡ r.heap ++ new_breaker threshold reset_timeout ∷ [])
unfolding get_breaker remove_breaker load_or_store
get_breaker-remove_breaker name threshold reset_timeout r =
    ground (arith, lookup-erase name name r.breakers, eq_iff name name)
