-- ===== src/Cache/Reads.antt =====
-- What `Get` returns after the other methods, and which key a full cache gives up.
use mathlib.Core.Option
use chassis_go.Prelude.{
  ℕ, suc, ◌-◌, ◌≡◌, refl, Comparable, ◌==◌, if◌then◌else◌, Option, none, some, List, [], ◌∷◌,
  lookup, arith, Option-cases, inl, inr, take, lookup-insert, take_of_length-le, cons-take, sym,
  ◌≢◌,
}
use chassis_go.Recency.{remove, move_to_front, push_front, make_room}
use chassis_go.Recency.Laws.{contains, remove_absent, length-remove, contains_of_lookup}
use chassis_go.Cache.{
  Cache, Entry, get, set, expiry, new_cache, step, run, Op, gets, sets, deletes, prunes,
}
use chassis_go.Cache.Valid.{IsValid, get-IsValid, set-IsValid, delete-IsValid, roomy}
use chassis_go.Cache.Pruning.{live, prune-IsValid}

-- The value that `Get` would find in a lookup's entry.
abbrev pub found {κ} : {V : Type κ} → ℕ → Option (Entry V) → Option V
found now entry = Option.map (λ x. x.value) (live now entry)

module _ {ℓ κ} {K : Type ℓ} {V : Type κ} ⦃e : Comparable K⦄ where
  step-IsValid : (c : Cache K V) (op : Op K V) → IsValid c → IsValid (step c op)
  unfolding step
  step-IsValid c (gets now k) v = get-IsValid now k c v
  step-IsValid c (sets now k x) v = set-IsValid now k x c v
  step-IsValid c (deletes k) v = delete-IsValid k c v
  step-IsValid c (prunes now) v = prune-IsValid now c v

  run-IsValid : (c : Cache K V) (ops : List (Op K V)) → IsValid c → IsValid (run c ops)
  unfolding run
  run-IsValid c [] v = v
  run-IsValid c (op ∷ ops) v = run-IsValid (step c op) ops (step-IsValid c op v)

  -- After any calls on a cache that `New` made, with whatever size was asked for, the map and the
  -- recency list hold the same keys, each once, and at most `maxSize` of them.
  pub run-new_cache-IsValid :
      (max_size ttl : ℕ) (ops : List (Op K V)) → IsValid (run (new_cache {K = K} max_size ttl) ops)
  unfolding new_cache lookup contains
  run-new_cache-IsValid max_size ttl ops = run-IsValid (new_cache max_size ttl) ops fresh
    where
      fresh : IsValid (new_cache {K = K} {V = V} max_size ttl)
      fresh = record {
        tied = record { distinct = tt; unique = tt; same = λ k. refl; size = refl };
        bounded = omega arith;
        positive = ground arith;
      }

  get-found :
      (now : ℕ) (k : K) (c : Cache K V) → (get now k c).1 ≡ found now (lookup k c.table.items)
  unfolding get
  get-found now k c = ground arith

  -- `Set` moves its key to the front; the keys that no longer fit go, the least recently used first.
  pub order-set :
      (now : ℕ) (k : K) (x : V) (c : Cache K V)
      → IsValid c
      → (set now k x c).table.order ≡ take c.max_size (k ∷ remove k c.table.order)
  unfolding set push_front move_to_front
  order-set now k x c v = elim (Option-cases (lookup k c.table.items)) [
    | inl absent ↦
        let gone : remove k c.table.order ≡ c.table.order =
          remove_absent k c.table.order (ground (arith, v.tied.same k)) in
        let size : c.max_size ≡ suc (c.max_size - 1) = omega (arith, v.positive) in
        rw (absent, set, gone, (roomy c v).order)
          (cons-take (c.max_size - 1) c.max_size k c.table.order size)
    | inr (entry, here) ↦
        rw (here, set)
          (sym (
            take_of_length-le c.max_size (k ∷ remove k c.table.order) (
              omega (
                arith,
                length-remove k c.table.order v.tied.unique
                    (contains_of_lookup k c.table v.tied entry here),
                v.tied.size,
                v.bounded,
              ))))
  ]

  lookup-set_self :
      (now : ℕ) (k : K) (x : V) (c : Cache K V)
      → lookup k (set now k x c).table.items
        ≡ some (record { value = x; expires_at = expiry now c.ttl })
  unfolding set push_front move_to_front
  lookup-set_self now k x c = ground (
    arith,
    e.same_iff k k,
    lookup-insert k k entry c.table.items,
    lookup-insert k k entry (make_room c.max_size c.table).items,
  )
    where
      entry : Entry V
      entry = record { value = x; expires_at = expiry now c.ttl }

  lookup-set_old :
      (now : ℕ) (k j : K) (x : V) (c : Cache K V) (p : Entry V)
      → IsValid c
      → k ≢ j
      → lookup j (set now k x c).table.items ≡ some p
      → lookup j c.table.items ≡ some p
  unfolding set push_front move_to_front
  lookup-set_old now k j x c p v ne h = ground (
    arith,
    e.same_iff k j,
    lookup-insert k j entry c.table.items,
    lookup-insert k j entry (make_room c.max_size c.table).items,
    (roomy c v).old j p,
  )
    where
      entry : Entry V
      entry = record { value = x; expires_at = expiry now c.ttl }

  -- `Get` after `Set` on a valid cache: the key that was set has the new value until it expires; a
  -- key that is still among the `maxSize` most recently used has what it had before; any other key
  -- has nothing.
  pub get-set :
      (now later : ℕ) (k j : K) (x : V) (c : Cache K V)
      → IsValid c
      → (get later j (set now k x c)).1 ≡ (
          if k == j
          then found later (some (record { value = x; expires_at = expiry now c.ttl }))
          else if contains j (take c.max_size (k ∷ remove k c.table.order))
          then (get later j c).1
          else none)
  get-set now later k j x c v =
      let after = set now k x c in
      let tied = (set-IsValid now k x c v).tied in
      rw (get-found later j after, get-found later j c, ← order-set now k x c v)
        (elim (Option-cases (lookup j after.table.items)) [
          | inl gone ↦ ground (arith, e.same_iff k j, lookup-set_self now k x c, tied.same j)
          | inr (p, here) ↦ ground (
            arith,
            e.same_iff k j,
            lookup-set_self now k x c,
            tied.same j,
            lookup-set_old now k j x c p v,
          )
        ])
