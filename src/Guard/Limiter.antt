-- ===== src/Guard/Limiter.antt =====
-- guard/ratelimit.go: one token bucket per key, in a map and a `container/list` that bound the number
-- of keys. Times are in nanoseconds on the monotonic clock; float64 is a parameter.
pub mod Bounds
pub mod Burst
pub mod Tests
use chassis_go.Prelude.{
  ℕ, ◌-◌, Comparable, Bool, true, false, if◌then◌else◌, Option, none, some, List, [], ◌∷◌, lookup,
  insert,
}
use chassis_go.Recency.{Table, move_to_front, push_front, make_room}

-- The operations on float64 that the code uses; `refill` is the quotient of the elapsed time and the
-- window, times the rate.
pub record Floats (F : Type 0) : Type 0 where
  pub of_int : ℕ → F
  pub plus : F → F → F
  pub minus_one : F → F
  pub exceeds : F → F → Bool
  pub at_least_one : F → Bool
  pub refill : ℕ → F

pub record Bucket (F : Type 0) : Type 0 where
  pub tokens : F
  pub last_fill : ℕ

pub record Limiter (K F : Type 0) : Type 0 where
  pub table : Table K (Bucket F)
  pub rate : ℕ
  pub max_keys : ℕ

pub new_limiter : {K F : Type 0} → ℕ → ℕ → Limiter K F
new_limiter rate max_keys = record {
  table = record { items = []; order = [] };
  rate = rate;
  max_keys = max_keys;
}

module _ {F : Type 0} (fl : Floats F) where
  -- The refill, up to the rate.
  pub refilled : ℕ → ℕ → Bucket F → F
  refilled rate now b =
      let tokens = fl.plus b.tokens (fl.refill (now - b.last_fill)) in
      if fl.exceeds tokens (fl.of_int rate) then fl.of_int rate else tokens

  -- A token, if there is one.
  pub take_token : ℕ → ℕ → Bucket F → Bool × Bucket F
  take_token rate now b =
      let tokens = refilled rate now b in
      if fl.at_least_one tokens
      then (true, record { tokens = fl.minus_one tokens; last_fill = now })
      else (false, record { tokens = tokens; last_fill = now })

  pub fresh : ℕ → ℕ → Bucket F
  fresh rate now = record { tokens = fl.of_int rate; last_fill = now }

  pub bucket_of : ℕ → ℕ → Option (Bucket F) → Bucket F
  bucket_of rate now none = fresh rate now
  bucket_of rate now (some b) = b

  module _ {K : Type 0} ⦃e : Comparable K⦄ where
    -- The entry of the key moves to the front, or room is made and a full bucket is pushed.
    pub touch : ℕ → K → Option (Bucket F) → Limiter K F → Table K (Bucket F)
    touch now k none l = push_front k (fresh l.rate now) (make_room l.max_keys l.table)
    touch now k (some b) l = move_to_front k l.table

    -- `allow`, on the time and the key. The bucket is changed through its pointer.
    pub allow_key : ℕ → K → Limiter K F → Bool × Limiter K F
    allow_key now k l =
        let found = lookup k l.table.items in
        let t = touch now k found l in
        let (ok, b) = take_token l.rate now (bucket_of l.rate now found) in
        (ok, record l { table = record t { items = insert k b t.items } })

    -- The results of a sequence of calls, and the limiter after them.
    pub allow_all : List (ℕ × K) → Limiter K F → List Bool × Limiter K F
    allow_all [] l = ([], l)
    allow_all ((now, k) ∷ calls) l =
        let (ok, next) = allow_key now k l in
        let (oks, last) = allow_all calls next in (ok ∷ oks, last)
