-- ===== src/Cache.antt =====
-- cache/cache.go: the TTL and LRU cache. Each method holds the mutex, so it is one atomic step. Times
-- are nanoseconds, and `none` is Go's zero time; a TTL of 0 is the source's "no TTL".
pub mod Valid
pub mod Reads
pub mod Pruning
pub mod Tests
use chassis_go.Prelude.{
  ℕ, ◌+◌, Comparable, ◌==◌, nat_comparable, Bool, true, false, if◌then◌else◌, Option, none, some,
  List, [], ◌∷◌, lookup, insert, length, ltb,
}
use chassis_go.Recency.{Table, move_to_front, drop_key, push_front, make_room}

pub record Entry {κ} (V : Type κ) : Type κ where
  pub value : V
  pub expires_at : Option ℕ

pub record Cache {ℓ κ} (K : Type ℓ) (V : Type κ) : Type (ℓ ⊔ κ) where
  pub table : Table K (Entry V)
  pub max_size : ℕ
  pub ttl : ℕ

-- `New`, with the options' size and TTL.
pub new_cache {ℓ κ} : {K : Type ℓ} {V : Type κ} → ℕ → ℕ → Cache K V
new_cache max_size ttl = record {
  table = record { items = []; order = [] };
  max_size = if ltb max_size 1 then 1 else max_size;
  ttl = ttl;
}

-- `!e.expiresAt.IsZero() && now.After(e.expiresAt)`.
is_past : ℕ → Option ℕ → Bool
is_past now none = false
is_past now (some t) = ltb t now

abbrev is_expired {κ} : {V : Type κ} → ℕ → Entry V → Bool
is_expired now entry = is_past now entry.expires_at

-- The `expiresAt` of an entry that is set now.
pub expiry : ℕ → ℕ → Option ℕ
expiry now ttl = if ltb 0 ttl then some (now + ttl) else none

module _ {ℓ κ} {K : Type ℓ} {V : Type κ} ⦃e : Comparable K⦄ where
  -- `Get`.
  pub get : ℕ → K → Cache K V → Cache K V × Option V
  unfolding is_past
  get now k c = elim (lookup k c.table.items) [
    | none ↦ (c, none)
    | some entry ↦
        if is_expired now entry
        then (record c { table = drop_key k c.table }, none)
        else (record c { table = move_to_front k c.table }, some entry.value)
  ]

  -- `Set`.
  pub set : ℕ → K → V → Cache K V → Cache K V
  unfolding expiry
  set now k v c =
      let entry : Entry V = record { value = v; expires_at = expiry now c.ttl } in
      elim (lookup k c.table.items) [
        | some _ ↦ record c {
          table = move_to_front k (record c.table { items = insert k entry c.table.items });
        }
        | none ↦ record c { table = push_front k entry (make_room c.max_size c.table) }
      ]

  -- `Delete`.
  pub delete : K → Cache K V → Cache K V
  delete k c = elim (lookup k c.table.items) [
    | none ↦ c
    | some _ ↦ record c { table = drop_key k c.table }
  ]

  -- `Len`.
  pub len : Cache K V → ℕ
  len c = length c.table.items

  -- The first loop of `Prune`: the keys of the expired entries.
  expired_keys : ℕ → List (K × Entry V) → List K
  unfolding is_past
  expired_keys now [] = []
  expired_keys now ((k, entry) ∷ items) =
      let rest = expired_keys now items in if is_expired now entry then k ∷ rest else rest

  -- The second.
  drop_keys : List K → Table K (Entry V) → Table K (Entry V)
  drop_keys [] t = t
  drop_keys (k ∷ ks) t = drop_keys ks (drop_key k t)

  -- `Prune`.
  pub prune : ℕ → Cache K V → Cache K V × ℕ
  prune now c =
      let expired = expired_keys now c.table.items in
      if c.ttl == 0
      then (c, 0)
      else (record c { table = drop_keys expired c.table }, length expired)

pub data Op {ℓ κ} (K : Type ℓ) (V : Type κ) : Type (ℓ ⊔ κ) where
  gets : ℕ → K → Op K V
  sets : ℕ → K → V → Op K V
  deletes : K → Op K V
  prunes : ℕ → Op K V

module _ {ℓ κ} {K : Type ℓ} {V : Type κ} ⦃e : Comparable K⦄ where
  pub step : Cache K V → Op K V → Cache K V
  step c (gets now k) = (get now k c).0
  step c (sets now k v) = set now k v c
  step c (deletes k) = delete k c
  step c (prunes now) = (prune now c).0

  pub run : Cache K V → List (Op K V) → Cache K V
  run c [] = c
  run c (op ∷ ops) = run (step c op) ops
