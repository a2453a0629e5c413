-- ===== src/Webhook/Log.antt =====
-- The log of deliveries is bounded, and loses only its oldest entry.
use chassis_go.Prelude.{
  ℕ, zero, suc, ◌+◌, ◌≤◌, ◌<◌, ◌≡◌, refl, ap, sym, ◌∙◌, true, false, ltb, ◌==◌, ◌||◌, Comparable,
  text_comparable, Option, none, some, List, [], ◌∷◌, ◌++◌, length, length-append, lookup, insert,
  erase, lookup-insert, insert-Distinct, length-insert_new, if◌then◌else◌, arith, Bool-cases,
  Option-cases, inl, inr,
}
use mathlib.Core.Path.{subst}
use chassis_go.Recency.{Table, remove, drop_key}
use chassis_go.Recency.Laws.{
  contains, Unique, IsTied, is_some, drop_key-IsTied, length-drop_key, remove_absent,
}
use chassis_go.Webhook.{Delivery, Sender, drop_oldest, evict_over, register, max_deliveries}

module _ {ℓ} {K : Type ℓ} ⦃e : Comparable K⦄ where
  contains-append : (j k : K) (o : List K) → contains j (o ++ k ∷ []) ≡ (contains j o || k == j)
  unfolding contains
  contains-append j k [] = ground arith
  contains-append j k (i ∷ o) = ground (arith, contains-append j k o)

  append-Unique : (k : K) (o : List K) → contains k o ≡ false → Unique o → Unique (o ++ k ∷ [])
  unfolding contains
  append-Unique k [] h u = (refl, tt)
  append-Unique k (i ∷ o) h u = (
    ground (arith, contains-append i k o, e.same_iff i k, e.same_iff k i),
    append-Unique k o (ground arith) u.1,
  )

first_of : List (List ℕ) → Option (List ℕ)
first_of [] = none
first_of (id ∷ ids) = some id

module _ {E : Type 0} where
  -- The map and the order of a sender.
  abbrev pub table : Sender E → Table (List ℕ) (Delivery E)
  table s = record { items = s.deliveries; order = s.order }

  append-IsTied :
      (id : List ℕ) (d : Delivery E) (s : Sender E)
      → IsTied (table s)
      → lookup id s.deliveries ≡ none
      → IsTied
          (table (record s { deliveries = insert id d s.deliveries; order = s.order ++ id ∷ [] }))
  append-IsTied id d s v h = record {
    distinct = insert-Distinct id d s.deliveries v.distinct;
    unique = append-Unique id s.order (ground (arith, v.same id)) v.unique;
    same = λ j.
        ground (arith, v.same j, lookup-insert id j d s.deliveries, contains-append j id s.order);
    size =
        ground
          (arith, v.size, length-insert_new id d s.deliveries h, length-append s.order (id ∷ []));
  }

  drop_oldest_table :
      (s : Sender E) (id : List ℕ) (ids : List (List ℕ))
      → s.order ≡ id ∷ ids
      → IsTied (table s)
      → table (drop_oldest s) ≡ drop_key id (table s)
  unfolding drop_oldest drop_key remove
  drop_oldest_table s id ids o v =
      let absent : contains id ids ≡ false = (rw o at v.unique).0 in
      let here : (id == id) ≡ true = (text_comparable.same_iff id id).1 refl in
      rw (o, here, remove_absent id ids absent) refl

  -- One round is enough when there is one too many at most.
  evict_over_once :
      (fuel max : ℕ) (s : Sender E)
      → length s.deliveries ≤ max + 1
      → length (drop_oldest s).deliveries + 1 ≡ length s.deliveries
      → evict_over (suc fuel) max s ≡ (if ltb max (length s.deliveries) then drop_oldest s else s)
  unfolding evict_over
  evict_over_once zero max s h g = refl
  evict_over_once (suc fuel) max s h g = ground arith

  stored_first :
      (t : Table (List ℕ) (Delivery E)) (first : List ℕ) (rest : List (List ℕ))
      → IsTied t
      → t.order ≡ first ∷ rest
      → (p : Delivery E) × (lookup first t.items ≡ some p)
  unfolding contains
  stored_first t first rest v o =
      let here : (first == first) ≡ true = (text_comparable.same_iff first first).1 refl in
      let at : is_some (lookup first t.items) ≡ true =
        sym (v.same first) ∙ ap (contains first) o ∙ ap (λ b. b || contains first rest) here in
      elim (Option-cases (lookup first t.items)) [
        | inl h ↦ absurd (ground arith)
        | inr found ↦ found
      ]

  evict_over_room :
      (fuel max : ℕ) (s : Sender E) → length s.deliveries ≤ max → evict_over fuel max s ≡ s
  unfolding evict_over
  evict_over_room zero max s h = refl
  evict_over_room (suc fuel) max s h = ground arith

  abbrev added : List ℕ → Delivery E → Sender E → Sender E
  added id d s = record s { deliveries = insert id d s.deliveries; order = s.order ++ id ∷ [] }

  -- The map and the order hold the same ids, each once, and no more than the bound.
  abbrev pub IsLog : Sender E → Type 0
  IsLog s = IsTied (table s) × (length s.deliveries ≤ max_deliveries)

  -- The oldest id, of a log that is full.
  pub leaving : Sender E → Option (List ℕ)
  unfolding first_of
  leaving s = if ltb (length s.deliveries) max_deliveries then none else first_of s.order

  -- What a sender loses of its deliveries.
  abbrev pub without : Option (List ℕ) → List (List ℕ × Delivery E) → List (List ℕ × Delivery E)
  without none m = m
  without (some id) m = erase id m

  module _ (id : List ℕ) (d : Delivery E) (s : Sender E) (v : IsLog s)
      (fresh : lookup id s.deliveries ≡ none) where
    register_room : length s.deliveries < max_deliveries → register id d s ≡ added id d s
    unfolding register
    register_room room =
        evict_over_room (length (s.order ++ id ∷ [])) max_deliveries (added id d s)
          (ground (arith, length-insert_new id d s.deliveries fresh))

    -- A full log with its first id, which goes.
    register_full :
        (first : List ℕ) (rest : List (List ℕ))
        → length s.deliveries ≡ max_deliveries
        → s.order ≡ first ∷ rest
        → (table (register id d s) ≡ drop_key first (table (added id d s)))
          × IsLog (register id d s)
    unfolding register
    register_full first rest full o =
        let tied = append-IsTied id d s v.0 fresh in
        let size = length-insert_new id d s.deliveries fresh in
        let order : s.order ++ id ∷ [] ≡ first ∷ (rest ++ id ∷ []) = rw o refl in
        let dropped = drop_oldest_table (added id d s) first (rest ++ id ∷ []) order tied in
        let (p, stored) = stored_first (table (added id d s)) first (rest ++ id ∷ []) tied order in
        let less = length-drop_key first (table (added id d s)) tied p stored in
        let kept = drop_key-IsTied first (table (added id d s)) tied p stored in
        let room = ap (λ t. length t.items + 1) dropped ∙ less in
        let ran =
          evict_over_once (length (rest ++ id ∷ [])) max_deliveries (added id d s) (ground arith)
            room in
        let once : register id d s ≡ drop_oldest (added id d s) =
          ap (λ o. evict_over (length o) max_deliveries (added id d s)) order
          ∙ ran
          ∙ ground arith in
        (
          ap table once ∙ dropped,
          subst (λ t. IsTied t × (length t.items ≤ max_deliveries)) (sym (ap table once ∙ dropped))
              (kept, ground arith),
        )

    stored_is :
        (order : List (List ℕ))
        → s.order ≡ order
        → length s.deliveries ≡ max_deliveries
        → ((register id d s).deliveries ≡ without (first_of s.order) (insert id d s.deliveries))
          × IsLog (register id d s)
    unfolding first_of drop_key
    stored_is [] o full =
        let none_left : length s.order ≡ 0 = ap length o in
        let ten = v.0.size in absurd (ground arith)
    stored_is (first ∷ rest) o full =
        let (same, log) = register_full first rest full o in
        (
          ap (λ t. t.items) same
              ∙ ap (λ l. without (first_of l) (insert id d s.deliveries)) (sym o),
          log,
        )

    -- `Send` registers a new id in a valid log by adding it and, when the log was full, losing the
    -- oldest of its ids and no other; the log is valid again: it holds 10000 deliveries at most, and its
    -- map and its order have the same ids, each once.
    pub register-IsLog :
        ((register id d s).deliveries ≡ without (leaving s) (insert id d s.deliveries))
        × IsLog (register id d s)
    unfolding leaving
    register-IsLog = elim (Bool-cases (ltb (length s.deliveries) max_deliveries)) [
      | inl room ↦
          let same = register_room (ground arith) in
          let size = length-insert_new id d s.deliveries fresh in
          rw same (rw room (refl, (append-IsTied id d s v.0 fresh, ground arith)))
      | inr full ↦ let (kept, log) = stored_is s.order refl (ground arith) in rw full (kept, log)
    ]
