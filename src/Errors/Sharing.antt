-- ===== src/Errors/Sharing.antt =====
-- A decorated error shares nothing that anyone else can see.
use mathlib.Core.List.{append-nil}
use chassis_go.Prelude.{
  ℕ, zero, suc, ◌<◌, ◌≡◌, refl, ap, sym, ◌∙◌, Comparable, ◌==◌, if◌then◌else◌, Option, none, some,
  List, [], ◌∷◌, ◌++◌, insert, lookup, lookup-insert, length, arith,
}
use chassis_go.Errors.{
  ServiceError, read, store_at, copy_into, clone, with_map, with_detail, with_details, with_type,
  with_cause, Decoration, detail, details_all, typed, wraps, decorate, details_in,
}

module _ {A : Type 0} where
  read-append :
      (store new : List (List A)) (i : ℕ) → i < length store → read (store ++ new) i ≡ read store i
  unfolding read
  read-append [] new i h = absurd (omega arith)
  read-append (m ∷ store) new zero h = refl
  read-append (m ∷ store) new (suc i) h = read-append store new i (omega arith)

  read_last : (store : List (List A)) (m : List A) → read (store ++ m ∷ []) (length store) ≡ m
  unfolding read
  read_last [] m = refl
  read_last (n ∷ store) m = read_last store m

  store_last :
      (store : List (List A)) (m n : List A)
      → store_at (store ++ m ∷ []) (length store) n ≡ store ++ n ∷ []
  unfolding store_at
  store_last [] m n = refl
  store_last (k ∷ store) m n = ap (◌∷◌ k) (store_last store m n)

abbrev pub or_else : {A : Type 0} → Option A → Option A → Option A
or_else none o = o
or_else (some a) o = some a

module _ {K V : Type 0} ⦃e : Comparable K⦄ where
  lookup-copy_into :
      (k : K) (from to : List (K × V))
      → lookup k (copy_into from to) ≡ or_else (lookup k from) (lookup k to)
  unfolding copy_into lookup
  lookup-copy_into k [] to = refl
  lookup-copy_into k ((j, v) ∷ from) to =
      ground (arith, lookup-insert j k v (copy_into from to), lookup-copy_into k from to)

  -- What a copy of the details starts from.
  copied : Option ℕ → List (List (K × V)) → List (K × V)
  copied none store = []
  copied (some i) store = copy_into (read store i) []

  -- The store grows at its end, and keeps what it held.
  abbrev Grows : List (List (K × V)) → List (List (K × V)) → Type 0
  Grows store after = (new : List (List (K × V))) × (after ≡ store ++ new)

  kept :
      (d : Option ℕ) (store new : List (List (K × V)))
      → ((i : ℕ) → d ≡ some i → i < length store)
      → elim d [ none ↦ [] | some i ↦ read (store ++ new) i ]
        ≡ elim d [ none ↦ [] | some i ↦ read store i ]
  kept none store new h = refl
  kept (some i) store new h = read-append store new i (h i refl)

  lookup-copied :
      (k : K) (d : Option ℕ) (store : List (List (K × V)))
      → lookup k (copied d store) ≡ lookup k (elim d [ none ↦ [] | some i ↦ read store i ])
  unfolding copied lookup
  lookup-copied k none store = refl
  lookup-copied k (some i) store = ground (arith, lookup-copy_into k (read store i) [])

  module _ {S E : Type 0} where
    -- The error with its own map at the end of the store.
    own :
        ServiceError S E
        → List (List (K × V))
        → List (K × V)
        → ServiceError S E × List (List (K × V))
    own err store m = (record err { details = some (length store) }, store ++ m ∷ [])

    with_details-own :
        (given : List (K × V)) (err : ServiceError S E) (d : Option ℕ) (store : List (List (K × V)))
        → with_details given (record err { details = d }) store
          ≡ own err store (copy_into given (copied d store))
    unfolding with_details clone with_map copied own copy_into
    with_details-own given err none store =
        rw (read_last store [], store_last store [] (copy_into given [])) refl
    with_details-own given err (some i) store =
        let m = copy_into (read store i) [] in
        rw (read_last store m, store_last store m (copy_into given m)) refl

    with_detail-own :
        (k : K) (v : V) (err : ServiceError S E) (d : Option ℕ) (store : List (List (K × V)))
        → with_detail k v (record err { details = d }) store
          ≡ own err store (insert k v (copied d store))
    unfolding with_detail clone with_map copied own
    with_detail-own k v err none store =
        rw (read_last store [], store_last store [] (insert k v [])) refl
    with_detail-own k v err (some i) store =
        let m = copy_into (read store i) [] in
        rw (read_last store m, store_last store m (insert k v m)) refl

    clone-Grows :
        (err : ServiceError S E) (d : Option ℕ) (store : List (List (K × V)))
        → Grows store (clone (record err { details = d }) store).1
    unfolding clone
    clone-Grows err none store = ([], sym (append-nil store))
    clone-Grows err (some i) store = (_, refl)

    decorate-Grows :
        (decoration : Decoration K V S E) (err : ServiceError S E) (store : List (List (K × V)))
        → Grows store (decorate decoration err store).1
    unfolding decorate with_type with_cause own
    decorate-Grows (detail k v) err store =
        (_, ap (λ r. r.1) (with_detail-own k v err err.details store))
    decorate-Grows (details_all given) err store =
        (_, ap (λ r. r.1) (with_details-own given err err.details store))
    decorate-Grows (typed u) err store = clone-Grows err err.details store
    decorate-Grows (wraps x) err store = clone-Grows err err.details store

    -- The address of an error's map, if it has one, is in the store.
    abbrev pub IsStored : ServiceError S E → List (List (K × V)) → Type 0
    IsStored err store = (i : ℕ) → err.details ≡ some i → i < length store

    -- No decorator changes the details of an error that exists already: not those of the error it
    -- is called on, nor those of any other.
    pub details_in-decorate :
        (decoration : Decoration K V S E) (err other : ServiceError S E)
        (store : List (List (K × V)))
        → IsStored other store
        → details_in other (decorate decoration err store).1 ≡ details_in other store
    details_in-decorate decoration err other store h =
        let (new, e) = decorate-Grows decoration err store in rw e (kept other.details store new h)

    lookup-own :
        (k : K) (err : ServiceError S E) (store : List (List (K × V))) (m : List (K × V))
        → lookup k (details_in (own err store m).0 (own err store m).1) ≡ lookup k m
    unfolding own
    lookup-own k err store m = rw (read_last store m) refl

    -- `WithDetails` gives the error the given details, and those it had for the other keys;
    -- `WithDetail` gives it the one detail.
    pub lookup-with_details :
        (given : List (K × V)) (key k : K) (value : V) (err : ServiceError S E)
        (store : List (List (K × V)))
        → (lookup k (details_in (with_details given err store).0 (with_details given err store).1)
            ≡ or_else (lookup k given) (lookup k (details_in err store)))
          × (lookup k
                (details_in (with_detail key value err store).0 (with_detail key value err store).1)
              ≡ (if key == k then some value else lookup k (details_in err store)))
    lookup-with_details given key k value err store = (
      ap (λ r. lookup k (details_in r.0 r.1)) (with_details-own given err err.details store)
          ∙ lookup-own k err store _
          ∙ rw
              (
                lookup-copy_into k given (copied err.details store),
                lookup-copied k err.details store,
              )
              refl,
      ap (λ r. lookup k (details_in r.0 r.1)) (with_detail-own key value err err.details store)
          ∙ lookup-own k err store _
          ∙ rw
              (
                lookup-insert key k value (copied err.details store),
                lookup-copied k err.details store,
              )
              refl,
    )
