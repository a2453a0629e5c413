-- ===== src/Guard/Limiter/Burst.antt =====
-- A burst of calls for one key at one moment.
use chassis_go.Prelude.{
  ℕ, zero, suc, ◌+◌, ◌-◌, ◌≤◌, ◌≡◌, refl, Comparable, Bool, true, false, if◌then◌else◌, none, List,
  [], ◌∷◌, lookup, arith, ap,
}
use Prim.Native.Nat.{min}
use chassis_go.Guard.Limiter.{
  Floats, Bucket, Limiter, refilled, take_token, fresh, bucket_of, allow_key, allow_all,
}
use chassis_go.Guard.Limiter.Bounds.{IsValid, allow_key-IsValid, lookup-allow_key_own}

-- What the floats do on the integers up to the rate, which they represent exactly.
pub record IsExact {F : Type 0} (fl : Floats F) (rate : ℕ) : Type 0 where
  pub plus_nothing : (m : ℕ) → m ≤ rate → fl.plus (fl.of_int m) (fl.refill 0) ≡ fl.of_int m
  pub within : (m : ℕ) → m ≤ rate → fl.exceeds (fl.of_int m) (fl.of_int rate) ≡ false
  pub empty : fl.at_least_one (fl.of_int 0) ≡ false
  pub positive : (m : ℕ) → suc m ≤ rate → fl.at_least_one (fl.of_int (suc m)) ≡ true
  pub pred : (m : ℕ) → suc m ≤ rate → fl.minus_one (fl.of_int (suc m)) ≡ fl.of_int m

abbrev pub repeated : {K : Type 0} → ℕ → ℕ → K → List (ℕ × K)
repeated zero now k = []
repeated (suc n) now k = (now, k) ∷ repeated n now k

abbrev pub count_admitted : List Bool → ℕ
count_admitted [] = 0
count_admitted (ok ∷ oks) = (if ok then 1 else 0) + count_admitted oks

abbrev has_token : ℕ → Bool
has_token zero = false
has_token (suc m) = true

abbrev spent : ℕ → ℕ
spent zero = 0
spent (suc m) = m

spent-le : (m : ℕ) → spent m ≤ m
spent-le zero = omega arith
spent-le (suc m) = omega arith

one_and_rest : (n m : ℕ) → (if has_token m then 1 else 0) + min n (spent m) ≡ min (suc n) m
one_and_rest n zero = omega arith
one_and_rest n (suc m) = omega arith

module _ {F : Type 0} (fl : Floats F) where
  abbrev holding : ℕ → ℕ → Bucket F
  holding m now = record { tokens = fl.of_int m; last_fill = now }

  refilled_now :
      (rate now m : ℕ)
      → IsExact fl rate
      → m ≤ rate
      → refilled fl rate now (holding m now) ≡ fl.of_int m
  unfolding refilled
  refilled_now rate now m x h =
      let still : now - now ≡ 0 = omega arith in rw (still, x.plus_nothing m h, x.within m h) refl

  take_token_now :
      (rate now m : ℕ)
      → IsExact fl rate
      → m ≤ rate
      → take_token fl rate now (holding m now) ≡ (has_token m, holding (spent m) now)
  unfolding take_token
  take_token_now rate now zero x h = rw (refilled_now rate now zero x h, x.empty) refl
  take_token_now rate now (suc m) x h =
      rw (refilled_now rate now (suc m) x h, x.positive m h, x.pred m h) refl

  module _ {K : Type 0} ⦃e : Comparable K⦄ where
    -- One call of a key whose bucket holds `m` tokens, at the moment of its last refill.
    module _ (now m : ℕ) (k : K) (l : Limiter K F) (x : IsExact fl l.rate) (h : m ≤ l.rate)
        (b : bucket_of fl l.rate now (lookup k l.table.items) ≡ holding m now) where
      taken :
          take_token fl l.rate now (bucket_of fl l.rate now (lookup k l.table.items))
          ≡ (has_token m, holding (spent m) now)
      taken = rw b (take_token_now l.rate now m x h)

      allowed_held : (allow_key fl now k l).0 ≡ has_token m
      unfolding allow_key
      allowed_held = ap (λ r. r.0) taken

      bucket_held :
          IsValid fl l
          → bucket_of fl
              (allow_key fl now k l).1.rate
              now
              (lookup k (allow_key fl now k l).1.table.items)
            ≡ holding (spent m) now
      unfolding bucket_of
      bucket_held v = rw (lookup-allow_key_own fl l v now k, bucket_of) (ap (λ r. r.1) taken)

      allow_key-IsExact : IsExact fl (allow_key fl now k l).1.rate
      unfolding allow_key
      allow_key-IsExact = x

      within_next : spent m ≤ (allow_key fl now k l).1.rate
      unfolding allow_key
      within_next = omega (arith, h, spent-le m)

    burst_held :
        (n now m : ℕ) (k : K) (l : Limiter K F)
        → IsValid fl l
        → IsExact fl l.rate
        → m ≤ l.rate
        → bucket_of fl l.rate now (lookup k l.table.items) ≡ holding m now
        → count_admitted (allow_all fl (repeated n now k) l).0 ≡ min n m
    unfolding allow_all
    burst_held zero now m k l v x h b = omega arith
    burst_held (suc n) now m k l v x h b =
        let next = (allow_key fl now k l).1 in
        let rest =
          burst_held n now (spent m) k next (allow_key-IsValid fl l v now k)
            (allow_key-IsExact now m k l x h b) (within_next now m k l x h b)
            (bucket_held now m k l x h b v) in
        let first : (allow_key fl now k l).0 ≡ has_token m = allowed_held now m k l x h b in
        rw (first, rest) (one_and_rest n m)

    -- From a limiter that does not track a key, a burst of calls for the key at one moment admits as
    -- many as the rate, and no more.
    pub burst_admits :
        (n now : ℕ) (k : K) (l : Limiter K F)
        → IsValid fl l
        → IsExact fl l.rate
        → lookup k l.table.items ≡ none
        → count_admitted (allow_all fl (repeated n now k) l).0 ≡ min n l.rate
    unfolding bucket_of fresh
    burst_admits n now k l v x absent =
        burst_held n now l.rate k l v x (omega arith) (rw absent refl)
