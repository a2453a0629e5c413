-- ===== src/Cache/Pruning.antt =====
-- What `Prune` removes.
use chassis_go.Prelude.{
  ℕ, ◌+◌, ◌<◌, ◌≡◌, refl, Comparable, ◌==◌, Bool, true, false, if◌then◌else◌, Option, none, some,
  List, [], ◌∷◌, lookup, length, arith, Option-cases, Bool-cases, inl, inr, Distinct,
  nat_comparable,
}
use chassis_go.Recency.{Table, drop_key}
use chassis_go.Recency.Laws.{
  contains, Unique, IsTied, drop_key-IsTied, is_some, length-drop_key, lookup-drop_key,
}
use chassis_go.Cache.{Cache, Entry, prune, expired_keys, drop_keys, is_expired, len}
use chassis_go.Cache.Valid.{IsValid}

-- The entry of a lookup, unless it has expired.
abbrev pub live {κ} : {V : Type κ} → ℕ → Option (Entry V) → Option (Entry V)
live now none = none
live now (some entry) = if is_expired now entry then none else some entry

abbrev stale {κ} : {V : Type κ} → ℕ → Option (Entry V) → Bool
stale now none = false
stale now (some entry) = is_expired now entry

module _ {ℓ κ} {K : Type ℓ} {V : Type κ} ⦃e : Comparable K⦄ where
  contains-expired_keys :
      (now : ℕ) (k : K) (items : List (K × Entry V))
      → Distinct items
      → contains k (expired_keys now items) ≡ stale now (lookup k items)
  unfolding contains expired_keys lookup
  contains-expired_keys now k [] d = refl
  contains-expired_keys now k ((j, entry) ∷ items) d =
      ground (arith, contains-expired_keys now k items d.1, e.same_iff j k)

  expired_keys-Unique :
      (now : ℕ) (items : List (K × Entry V)) → Distinct items → Unique (expired_keys now items)
  unfolding expired_keys
  expired_keys-Unique now [] d = tt
  expired_keys-Unique now ((j, entry) ∷ items) d =
      ground (arith, expired_keys-Unique now items d.1, contains-expired_keys now j items d.1)

  lookup-drop_keys :
      (k : K) (ks : List K) (t : Table K (Entry V))
      → lookup k (drop_keys ks t).items ≡ (if contains k ks then none else lookup k t.items)
  unfolding contains drop_keys
  lookup-drop_keys k [] t = refl
  lookup-drop_keys k (j ∷ ks) t =
      ground (arith, lookup-drop_keys k ks (drop_key j t), lookup-drop_key j k t)

  -- Dropping keys that are there, each once.
  record Drops (ks : List K) (t u : Table K (Entry V)) : Type (ℓ ⊔ κ) where
    tied : IsTied u
    fewer : length u.items + length ks ≡ length t.items

  drop_keys-Drops :
      (ks : List K) (t : Table K (Entry V))
      → IsTied t
      → Unique ks
      → ((k : K) → contains k ks ≡ true → is_some (lookup k t.items) ≡ true)
      → Drops ks t (drop_keys ks t)
  unfolding contains drop_keys
  drop_keys-Drops [] t v u there = record { tied = v; fewer = omega arith }
  drop_keys-Drops (k ∷ ks) t v u there = elim (Option-cases (lookup k t.items)) [
    | inl absent ↦ absurd (ground (arith, there k, e.same_iff k k))
    | inr (entry, here) ↦
        let rest =
          drop_keys-Drops ks (drop_key k t) (drop_key-IsTied k t v entry here) u.1
            (λ j h. ground (arith, there j, lookup-drop_key k j t, e.same_iff k j)) in
        record {
          tied = rest.tied;
          fewer = omega (arith, rest.fewer, length-drop_key k t v entry here);
        }
  ]

  prune-Drops :
      (now : ℕ) (c : Cache K V)
      → IsValid c
      → Drops
          (expired_keys now c.table.items)
          c.table
          (drop_keys (expired_keys now c.table.items) c.table)
  prune-Drops now c v =
      let distinct = v.tied.distinct in
      drop_keys-Drops (expired_keys now c.table.items) c.table v.tied
        (expired_keys-Unique now c.table.items distinct)
        (λ k h. ground (arith, contains-expired_keys now k c.table.items distinct))

  pub prune-IsValid : (now : ℕ) (c : Cache K V) → IsValid c → IsValid (prune now c).0
  unfolding prune
  prune-IsValid now c v = elim (Bool-cases (c.ttl == 0)) [
    | inl off ↦ rw (off, prune) v
    | inr on ↦
        let d = prune-Drops now c v in
        rw (on, prune)
          (record {
            tied = d.tied;
            bounded = omega (arith, d.fewer, v.bounded);
            positive = v.positive;
          })
  ]

  -- With a TTL, `Prune` on a valid cache removes exactly the expired entries: a lookup of any key
  -- finds what it found before unless that has expired, and the number returned is the number of
  -- entries that are gone.
  pub prune-live :
      (now : ℕ) (c : Cache K V) (k : K)
      → IsValid c
      → 0 < c.ttl
      → (lookup k (prune now c).0.table.items ≡ live now (lookup k c.table.items))
        × (len (prune now c).0 + (prune now c).1 ≡ len c)
  unfolding prune len
  prune-live now c k v h =
      let d = prune-Drops now c v in
      ground (
        arith,
        d.fewer,
        lookup-drop_keys k (expired_keys now c.table.items) c.table,
        contains-expired_keys now k c.table.items v.tied.distinct,
      )
