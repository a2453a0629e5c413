-- ===== src/Recency/Eviction.antt =====
-- Eviction makes room by dropping the least recently used keys, and no others.
use chassis_go.Prelude.{
  ℕ, zero, suc, ◌-◌, ◌≤◌, ◌≡◌, Comparable, some, List, [], ◌∷◌, lookup, length, ltb, arith,
  lookup-erase, take, take_of_length-le, take-take, length-take-le, sym, ap, ◌∙◌, Option-cases,
  Bool-cases, inl, inr,
}
use chassis_go.Recency.{Table, remove, back, drop_key, evict, evict_loop, make_room}
use chassis_go.Recency.Laws.{contains, Unique, contains-back, back_empty, IsTied, drop_key-IsTied}

module _ {ℓ} {K : Type ℓ} ⦃e : Comparable K⦄ where
  -- To remove the last key is to keep all but one.
  remove-back :
      (k : K) (n : ℕ) (o : List K)
      → Unique o
      → back o ≡ some k
      → length o ≡ suc n
      → remove k o ≡ take n o
  unfolding remove back contains
  remove-back k n [] u b h = cc
  remove-back k n (i ∷ []) u b h = ground (arith, e.same_iff i k)
  remove-back k zero (i ∷ j ∷ o) u b h = absurd (omega arith)
  remove-back k (suc n) (i ∷ j ∷ o) u b h =
      ground (arith, e.same_iff i k, contains-back k (j ∷ o) b, remove-back k n (j ∷ o) u.1 b)

module _ {ℓ κ} {K : Type ℓ} {P : Type κ} ⦃e : Comparable K⦄ where
  -- What `u` keeps of `t`: its first `n` keys, with what they map to.
  pub record Keeps (n : ℕ) (t u : Table K P) : Type (ℓ ⊔ κ) where
    pub tied : IsTied u
    pub order : u.order ≡ take n t.order
    pub old : (k : K) (p : P) → lookup k u.items ≡ some p → lookup k t.items ≡ some p

  evict-Keeps : (n : ℕ) (t : Table K P) → IsTied t → length t.items ≡ suc n → Keeps n t (evict t)
  unfolding evict drop_key
  evict-Keeps n t v h = elim (Option-cases (back t.order)) [
    | inl b ↦ absurd (ground (arith, back_empty t.order b, v.size))
    | inr (k, b) ↦ elim (Option-cases (lookup k t.items)) [
      | inl absent ↦ absurd (ground (arith, v.same k, contains-back k t.order b))
      | inr (p, here) ↦
          rw (b, evict)
            (record {
              tied = drop_key-IsTied k t v p here;
              order = remove-back k n t.order v.unique b (ground (arith, v.size));
              old = λ j q g. ground (arith, lookup-erase k j t.items);
            })
    ]
  ]

  Keeps-all : (n : ℕ) (t : Table K P) → IsTied t → length t.items ≤ n → Keeps n t t
  Keeps-all n t v h = record {
    tied = v;
    order = sym (take_of_length-le n t.order (omega (arith, v.size)));
    old = λ k p g. g;
  }

  Keeps-trans : (n m : ℕ) (t u w : Table K P) → n ≤ m → Keeps m t u → Keeps n u w → Keeps n t w
  Keeps-trans n m t u w h a b = record {
    tied = b.tied;
    order = b.order ∙ ap (take n) a.order ∙ take-take n m t.order h;
    old = λ k p g. a.old k p (b.old k p g);
  }

  evict_loop-Keeps :
      (fuel n : ℕ) (t : Table K P)
      → IsTied t
      → length t.items ≤ fuel
      → Keeps n t (evict_loop fuel (suc n) t)
  unfolding evict_loop
  evict_loop-Keeps zero n t v h = Keeps-all n t v (omega arith)
  evict_loop-Keeps (suc fuel) n t v h = elim (Bool-cases (ltb (length t.items) (suc n))) [
    | inl room ↦ rw room (Keeps-all n t v (ground arith))
    | inr full ↦
        let m : ℕ = length t.items - 1 in
        let here : length t.items ≡ suc m = ground arith in
        let one = evict-Keeps m t v here in
        rw full (
          Keeps-trans n m t (evict t) _ (ground arith) one (
            evict_loop-Keeps fuel n (evict t) one.tied
              (omega (arith, one.tied.size, ap length one.order, length-take-le m t.order))))
  ]

  -- With a fuel of as many rounds as the map has entries, the loop that makes room for one more key
  -- among `max` ends with room: it keeps the `max - 1` most recently used keys, in order, and what
  -- they map to.
  pub make_room-Keeps :
      (max n : ℕ) (t : Table K P) → max ≡ suc n → IsTied t → Keeps n t (make_room max t)
  unfolding make_room
  make_room-Keeps max n t e v = rw e (evict_loop-Keeps (length t.items) n t v (omega arith))
