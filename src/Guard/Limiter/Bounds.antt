-- ===== src/Guard/Limiter/Bounds.antt =====
-- The limiter tracks a bounded number of keys, and its buckets do not touch each other.
use chassis_go.Prelude.{
  ℕ, ◌-◌, ◌≤◌, ◌<◌, ◌≡◌, refl, Comparable, ◌==◌, false, Option, none, some, List, [], ◌∷◌, lookup,
  lookup-insert, length, arith, length-take-le, Option-cases, inl, inr, ap, length-insert_new,
  length-insert_old,
}
use chassis_go.Recency.{Table, move_to_front, push_front, make_room}
use chassis_go.Recency.Laws.{
  IsTied, move_to_front-IsTied, push_front-IsTied, insert-IsTied, contains_of_lookup,
}
use chassis_go.Recency.Eviction.{Keeps, make_room-Keeps}
use chassis_go.Guard.Limiter.{
  Floats, Bucket, Limiter, new_limiter, take_token, fresh, bucket_of, touch, allow_key, allow_all,
}

module _ {F : Type 0} (fl : Floats F) {K : Type 0} ⦃e : Comparable K⦄ where
  -- The map and the list agree, and no more keys are tracked than the limiter may.
  pub record IsValid (l : Limiter K F) : Type 0 where
    pub tied : IsTied l.table
    pub bounded : length l.table.items ≤ l.max_keys
    pub positive : 0 < l.max_keys

  module _ (l : Limiter K F) (v : IsValid l) (now : ℕ) (k : K) where
    roomy : Keeps (l.max_keys - 1) l.table (make_room l.max_keys l.table)
    roomy = make_room-Keeps l.max_keys (l.max_keys - 1) l.table (omega (arith, v.positive)) v.tied

    absent_still :
        lookup k l.table.items ≡ none → lookup k (make_room l.max_keys l.table).items ≡ none
    absent_still absent = elim (Option-cases (lookup k (make_room l.max_keys l.table).items)) [
      | inl gone ↦ gone
      | inr (b, here) ↦ cc (roomy.old k b here)
    ]

    -- After `touch`, the key is there, with its bucket, and the table is within its bound.
    record Touched (t : Table K (Bucket F)) : Type 0 where
      tied : IsTied t
      bounded : length t.items ≤ l.max_keys
      here : lookup k t.items ≡ some (bucket_of fl l.rate now (lookup k l.table.items))
      others :
          (j : K) (b : Bucket F)
          → k == j ≡ false
          → lookup j t.items ≡ some b
          → lookup j l.table.items ≡ some b

    touch-Touched :
        (found : Option (Bucket F))
        → lookup k l.table.items ≡ found
        → Touched (touch fl now k found l)
    unfolding touch push_front move_to_front bucket_of
    touch-Touched none absent =
        let room = make_room l.max_keys l.table in
        let b = fresh fl l.rate now in
        record {
          tied = push_front-IsTied k room roomy.tied b (absent_still absent);
          bounded = omega (
            arith,
            length-insert_new k b room.items (absent_still absent),
            roomy.tied.size,
            ap length roomy.order,
            length-take-le (l.max_keys - 1) l.table.order,
            v.positive,
          );
          here = ground (arith, lookup-insert k k b room.items, e.same_iff k k);
          others = λ j c other h. roomy.old j c (ground (arith, lookup-insert k j b room.items));
        }
    touch-Touched (some b) present = record {
      tied = move_to_front-IsTied k l.table v.tied (contains_of_lookup k l.table v.tied b present);
      bounded = v.bounded;
      here = rw present refl;
      others = λ j c other h. h;
    }

    touched : Touched (touch fl now k (lookup k l.table.items) l)
    touched = touch-Touched (lookup k l.table.items) refl

    pub allow_key-IsValid : IsValid (allow_key fl now k l).1
    unfolding allow_key
    allow_key-IsValid =
        let t = touch fl now k (lookup k l.table.items) l in
        let old = bucket_of fl l.rate now (lookup k l.table.items) in
        let new = (take_token fl l.rate now old).1 in
        record {
          tied = insert-IsTied k t touched.tied new old touched.here;
          bounded =
              omega (arith, touched.bounded, length-insert_old k new t.items old touched.here);
          positive = v.positive;
        }

    pub lookup-allow_key_own :
        lookup k (allow_key fl now k l).1.table.items
        ≡ some (take_token fl l.rate now (bucket_of fl l.rate now (lookup k l.table.items))).1
    unfolding allow_key
    lookup-allow_key_own =
        let t = touch fl now k (lookup k l.table.items) l in
        let new = (take_token fl l.rate now (bucket_of fl l.rate now (lookup k l.table.items))).1 in
        ground (arith, lookup-insert k k new t.items, e.same_iff k k)

    -- A call takes its token from the key's own bucket, a full one if the key is not tracked, and
    -- leaves the bucket that `take_token` gives; another key that is tracked after it has the bucket
    -- that it had before.
    pub lookup-allow_key :
        (j : K) (b : Bucket F)
        → k == j ≡ false
        → lookup j (allow_key fl now k l).1.table.items ≡ some b
        → ((allow_key fl now k l).0
            ≡ (take_token fl l.rate now (bucket_of fl l.rate now (lookup k l.table.items))).0)
          × (lookup k (allow_key fl now k l).1.table.items
              ≡ some
                  (take_token fl l.rate now (bucket_of fl l.rate now (lookup k l.table.items))).1)
          × (lookup j l.table.items ≡ some b)
    unfolding allow_key
    lookup-allow_key j b other h =
        let t = touch fl now k (lookup k l.table.items) l in
        let new = (take_token fl l.rate now (bucket_of fl l.rate now (lookup k l.table.items))).1 in
        (
          refl,
          lookup-allow_key_own,
          touched.others j b other (ground (arith, lookup-insert k j new t.items)),
        )

  allow_all-IsValid :
      (calls : List (ℕ × K)) (l : Limiter K F) → IsValid l → IsValid (allow_all fl calls l).1
  unfolding allow_all
  allow_all-IsValid [] l v = v
  allow_all-IsValid ((now, k) ∷ calls) l v =
      allow_all-IsValid calls (allow_key fl now k l).1 (allow_key-IsValid l v now k)

  pub new_limiter-IsValid : (rate max_keys : ℕ) → 0 < max_keys → IsValid (new_limiter rate max_keys)
  unfolding new_limiter lookup chassis_go.Recency.Laws.contains
  new_limiter-IsValid rate max_keys h = record {
    tied = record { distinct = tt; unique = tt; same = λ k. refl; size = refl };
    bounded = omega arith;
    positive = h;
  }

  -- Whatever calls follow, a limiter that may track some key keeps its map and its list in step, and
  -- never tracks more than `max_keys` keys.
  pub allow_all-new_limiter :
      (rate max_keys : ℕ) (calls : List (ℕ × K))
      → 0 < max_keys
      → IsValid (allow_all fl calls (new_limiter rate max_keys)).1
  allow_all-new_limiter rate max_keys calls h =
      allow_all-IsValid calls (new_limiter rate max_keys) (new_limiter-IsValid rate max_keys h)
