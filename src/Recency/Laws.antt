-- ===== src/Recency/Laws.antt =====
-- The map and the list of a table stay tied, and eviction makes room.
use chassis_go.Prelude.{
  ◌+◌, ◌≡◌, refl, Comparable, ◌==◌, Bool, true, false, ◌||◌, if◌then◌else◌, Option, none, some,
  List, [], ◌∷◌, lookup, insert, length, arith, Distinct, lookup-insert, lookup-erase, length-erase,
  length-insert_new, length-insert_old, erase-Distinct, insert-Distinct,
}
use chassis_go.Recency.{Table, remove, back, move_to_front, drop_key, push_front}

module _ {ℓ} {K : Type ℓ} ⦃e : Comparable K⦄ where
  unfoldable pub contains : K → List K → Bool
  contains k [] = false
  contains k (j ∷ o) = j == k || contains k o

  abbrev pub Unique : List K → Type 0
  Unique [] = Unit
  Unique (k ∷ o) = (contains k o ≡ false) × Unique o

  pub contains-remove :
      (k j : K) (o : List K) → contains j (remove k o) ≡ (if k == j then false else contains j o)
  unfolding contains remove
  contains-remove k j [] = ground arith
  contains-remove k j (i ∷ o) =
      ground (arith, contains-remove k j o, e.same_iff k j, e.same_iff i k, e.same_iff i j)

  pub remove_absent : (k : K) (o : List K) → contains k o ≡ false → remove k o ≡ o
  unfolding contains remove
  remove_absent k [] h = refl
  remove_absent k (i ∷ o) h = ground (arith, remove_absent k o)

  pub length-remove :
      (k : K) (o : List K) → Unique o → contains k o ≡ true → length (remove k o) + 1 ≡ length o
  unfolding contains remove
  length-remove k [] u h = cc
  length-remove k (i ∷ o) u h =
      ground (arith, length-remove k o u.1, remove_absent k o, e.same_iff i k)

  remove-Unique : (k : K) (o : List K) → Unique o → Unique (remove k o)
  unfolding remove
  remove-Unique k [] u = tt
  remove-Unique k (i ∷ o) u = ground (arith, remove-Unique k o u.1, contains-remove k i o)

  pub contains-back : (k : K) (o : List K) → back o ≡ some k → contains k o ≡ true
  unfolding contains back
  contains-back k [] h = cc
  contains-back k (i ∷ []) h = ground (arith, e.same_iff i k)
  contains-back k (i ∷ j ∷ o) h = ground (arith, contains-back k (j ∷ o) h)

  pub back_empty : (o : List K) → back o ≡ none → o ≡ []
  unfolding back
  back_empty [] h = refl
  back_empty (i ∷ []) h = cc
  back_empty (i ∷ j ∷ o) h = absurd (ground (arith, back_empty (j ∷ o) h))

abbrev pub is_some {ℓ} : {A : Type ℓ} → Option A → Bool
is_some none = false
is_some (some _) = true

module _ {ℓ κ} {K : Type ℓ} {P : Type κ} ⦃e : Comparable K⦄ where
  -- The map and the list hold the same keys, each once.
  pub record IsTied (t : Table K P) : Type (ℓ ⊔ κ) where
    pub distinct : Distinct t.items
    pub unique : Unique t.order
    pub same : (k : K) → contains k t.order ≡ is_some (lookup k t.items)
    pub size : length t.items ≡ length t.order

  module _ (k : K) (t : Table K P) (v : IsTied t) where
    pub move_to_front-IsTied : contains k t.order ≡ true → IsTied (move_to_front k t)
    unfolding move_to_front contains
    move_to_front-IsTied here = record {
      distinct = v.distinct;
      unique =
          ground
            (arith, contains-remove k k t.order, e.same_iff k k, remove-Unique k t.order v.unique);
      same = λ j. ground (arith, v.same j, v.same k, contains-remove k j t.order, e.same_iff k j);
      size = ground (arith, v.size, length-remove k t.order v.unique here);
    }

    pub drop_key-IsTied : (p : P) → lookup k t.items ≡ some p → IsTied (drop_key k t)
    unfolding drop_key
    drop_key-IsTied p h = record {
      distinct = erase-Distinct k t.items v.distinct;
      unique = remove-Unique k t.order v.unique;
      same = λ j. ground (arith, v.same j, contains-remove k j t.order, lookup-erase k j t.items);
      size = ground (
        arith,
        v.size,
        v.same k,
        length-remove k t.order v.unique,
        length-erase k t.items p v.distinct h,
      );
    }

    pub push_front-IsTied : (p : P) → lookup k t.items ≡ none → IsTied (push_front k p t)
    unfolding push_front contains
    push_front-IsTied p h = record {
      distinct = insert-Distinct k p t.items v.distinct;
      unique = ground (arith, v.same k, v.unique);
      same = λ j. ground (arith, v.same j, lookup-insert k j p t.items);
      size = ground (arith, v.size, length-insert_new k p t.items h);
    }

    pub insert-IsTied :
        (p q : P) → lookup k t.items ≡ some q → IsTied (record t { items = insert k p t.items })
    insert-IsTied p q h = record {
      distinct = insert-Distinct k p t.items v.distinct;
      unique = v.unique;
      same = λ j. ground (arith, v.same j, v.same k, lookup-insert k j p t.items, e.same_iff k j);
      size = ground (arith, v.size, length-insert_old k p t.items q h);
    }

    pub length-drop_key :
        (p : P) → lookup k t.items ≡ some p → length (drop_key k t).items + 1 ≡ length t.items
    unfolding drop_key
    length-drop_key p h = length-erase k t.items p v.distinct h

    pub contains_of_lookup : (p : P) → lookup k t.items ≡ some p → contains k t.order ≡ true
    contains_of_lookup p h = ground (arith, v.same k)

  pub lookup-drop_key :
      (k j : K) (t : Table K P)
      → lookup j (drop_key k t).items ≡ (if k == j then none else lookup j t.items)
  unfolding drop_key
  lookup-drop_key k j t = lookup-erase k j t.items
