-- ===== src/Cache/Valid.antt =====
-- The map and the list of the cache stay tied and within the size, under every method.
use chassis_go.Prelude.{
  ℕ, ◌-◌, ◌≤◌, ◌<◌, ◌≡◌, Comparable, none, some, lookup, insert, length, arith, length-take-le,
  Option-cases, Bool-cases, inl, inr, ap, length-insert_new, length-insert_old,
}
use chassis_go.Recency.{Table, move_to_front, drop_key, push_front, make_room}
use chassis_go.Recency.Laws.{
  IsTied, drop_key-IsTied, move_to_front-IsTied, push_front-IsTied, insert-IsTied, length-drop_key,
  contains_of_lookup,
}
use chassis_go.Recency.Eviction.{Keeps, make_room-Keeps}
use chassis_go.Cache.{Cache, Entry, get, set, delete, is_expired}

module _ {ℓ κ} {K : Type ℓ} {V : Type κ} ⦃e : Comparable K⦄ where
  -- The map and the list agree, and the cache is within its size.
  pub record IsValid (c : Cache K V) : Type (ℓ ⊔ κ) where
    pub tied : IsTied c.table
    pub bounded : length c.table.items ≤ c.max_size
    pub positive : 0 < c.max_size

  -- A table with no more entries than that of a valid cache.
  shrink :
      (c : Cache K V) (t : Table K (Entry V))
      → IsValid c
      → IsTied t
      → length t.items ≤ length c.table.items
      → IsValid (record c { table = t })
  shrink c t v tied h = record {
    tied = tied;
    bounded = omega (arith, v.bounded);
    positive = v.positive;
  }

  drop-IsValid :
      (k : K) (c : Cache K V) (entry : Entry V)
      → lookup k c.table.items ≡ some entry
      → IsValid c
      → IsValid (record c { table = drop_key k c.table })
  drop-IsValid k c entry here v =
      shrink c _ v (drop_key-IsTied k c.table v.tied entry here)
        (omega (arith, length-drop_key k c.table v.tied entry here))

  front-IsValid :
      (k : K) (c : Cache K V) (entry : Entry V)
      → lookup k c.table.items ≡ some entry
      → IsValid c
      → IsValid (record c { table = move_to_front k c.table })
  unfolding move_to_front
  front-IsValid k c entry here v =
      shrink c _ v
        (move_to_front-IsTied k c.table v.tied (contains_of_lookup k c.table v.tied entry here))
        (omega arith)

  pub get-IsValid : (now : ℕ) (k : K) (c : Cache K V) → IsValid c → IsValid (get now k c).0
  unfolding get
  get-IsValid now k c v = elim (Option-cases (lookup k c.table.items)) [
    | inl absent ↦ rw (absent, get) v
    | inr (entry, here) ↦ elim (Bool-cases (is_expired now entry)) [
      | inl past ↦ rw (here, get, past) (drop-IsValid k c entry here v)
      | inr live ↦ rw (here, get, live) (front-IsValid k c entry here v)
    ]
  ]

  pub delete-IsValid : (k : K) (c : Cache K V) → IsValid c → IsValid (delete k c)
  unfolding delete
  delete-IsValid k c v = elim (Option-cases (lookup k c.table.items)) [
    | inl absent ↦ rw (absent, delete) v
    | inr (entry, here) ↦ rw (here, delete) (drop-IsValid k c entry here v)
  ]

  -- The table that a new key is pushed on.
  pub roomy :
      (c : Cache K V) → IsValid c → Keeps (c.max_size - 1) c.table (make_room c.max_size c.table)
  roomy c v = make_room-Keeps c.max_size (c.max_size - 1) c.table (omega (arith, v.positive)) v.tied

  pub lookup-make_room :
      (k : K) (c : Cache K V)
      → IsValid c
      → lookup k c.table.items ≡ none
      → lookup k (make_room c.max_size c.table).items ≡ none
  lookup-make_room k c v absent =
      elim (Option-cases (lookup k (make_room c.max_size c.table).items)) [
        | inl none_left ↦ none_left
        | inr (entry, here) ↦ cc ((roomy c v).old k entry here)
      ]

  push-IsValid :
      (k : K) (entry : Entry V) (c : Cache K V)
      → IsValid c
      → lookup k c.table.items ≡ none
      → IsValid (record c { table = push_front k entry (make_room c.max_size c.table) })
  unfolding push_front
  push-IsValid k entry c v absent =
      let room = make_room c.max_size c.table in
      let kept = roomy c v in
      let new = lookup-make_room k c v absent in
      record {
        tied = push_front-IsTied k room kept.tied entry new;
        bounded = omega (
          arith,
          length-insert_new k entry room.items new,
          kept.tied.size,
          ap length kept.order,
          length-take-le (c.max_size - 1) c.table.order,
          v.positive,
        );
        positive = v.positive;
      }

  overwrite-IsValid :
      (k : K) (entry old : Entry V) (c : Cache K V)
      → IsValid c
      → lookup k c.table.items ≡ some old
      → IsValid (record c {
        table = move_to_front k (record c.table { items = insert k entry c.table.items });
      })
  unfolding move_to_front
  overwrite-IsValid k entry old c v here = record {
    tied =
        move_to_front-IsTied k _ (insert-IsTied k c.table v.tied entry old here)
          (contains_of_lookup k c.table v.tied old here);
    bounded = omega (arith, length-insert_old k entry c.table.items old here, v.bounded);
    positive = v.positive;
  }

  pub set-IsValid : (now : ℕ) (k : K) (x : V) (c : Cache K V) → IsValid c → IsValid (set now k x c)
  unfolding set
  set-IsValid now k x c v = elim (Option-cases (lookup k c.table.items)) [
    | inl absent ↦ rw (absent, set) (push-IsValid k _ c v absent)
    | inr (entry, here) ↦ rw (here, set) (overwrite-IsValid k _ entry c v here)
  ]
