-- ===== src/Recency.antt =====
-- A Go map beside a `container/list`, as package cache and the rate limiter of package guard keep
-- them: the map holds what belongs to a key, the list the keys, the most recently used in front. A
-- list element is named by its key, which stands in the list at most once.
pub mod Laws
pub mod Eviction
use chassis_go.Prelude.{
  ℕ, zero, suc, ◌+◌, Comparable, ◌==◌, Bool, true, false, ◌||◌, if◌then◌else◌, Option, none, some,
  List, [], ◌∷◌, lookup, erase, insert, length, ltb,
}

pub record Table {ℓ κ} (K : Type ℓ) (P : Type κ) : Type (ℓ ⊔ κ) where
  pub items : List (K × P)
  pub order : List K

module _ {ℓ} {K : Type ℓ} ⦃e : Comparable K⦄ where
  -- `list.Remove` of the element of a key.
  unfoldable pub remove : K → List K → List K
  remove k [] = []
  remove k (j ∷ o) = let rest = remove k o in if j == k then rest else j ∷ rest

  -- `list.Back`.
  unfoldable pub back : List K → Option K
  back [] = none
  back (k ∷ []) = some k
  back (k ∷ j ∷ o) = back (j ∷ o)

module _ {ℓ κ} {K : Type ℓ} {P : Type κ} ⦃e : Comparable K⦄ where
  -- `MoveToFront` of the element of a key.
  unfoldable pub move_to_front : K → Table K P → Table K P
  move_to_front k t = record t { order = k ∷ remove k t.order }

  -- The map entry and the list element of a key, both gone.
  unfoldable pub drop_key : K → Table K P → Table K P
  drop_key k t = record { items = erase k t.items; order = remove k t.order }

  -- `PushFront` of a new key, and its map entry.
  unfoldable pub push_front : K → P → Table K P → Table K P
  push_front k p t = record { items = insert k p t.items; order = k ∷ t.order }

  -- The least recently used key goes.
  unfoldable pub evict : Table K P → Table K P
  unfolding drop_key
  evict t = elim (back t.order) [ none ↦ t | some k ↦ drop_key k t ]

  -- `for len(items) >= max { evict() }`, with fuel.
  evict_loop : ℕ → ℕ → Table K P → Table K P
  evict_loop zero max t = t
  evict_loop (suc fuel) max t =
      let rest = evict_loop fuel max (evict t) in if ltb (length t.items) max then t else rest

  -- As much fuel as the map has entries.
  unfoldable pub make_room : ℕ → Table K P → Table K P
  unfolding evict_loop
  make_room max t = evict_loop (length t.items) max t
