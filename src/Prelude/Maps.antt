-- ===== src/Prelude/Maps.antt =====
-- Go's maps as association lists over keys with a `==`.
use Prim.Native.Nat.{◌+◌}
use mathlib.Core.Path.{◌≡◌, refl}
use mathlib.Core.List.{List, [], ◌∷◌}
use mathlib.Core.Option.{Option, none, some}
use native.Mathlib.Omega.{arith}
use chassis_go.Prelude.Lists.{length}
use chassis_go.Prelude.Tests.{Comparable, ◌==◌, if◌then◌else◌}

module _ {ℓ κ} {K : Type ℓ} {V : Type κ} ⦃c : Comparable K⦄ where
  -- `m[k]`, with the `ok` of the comma form.
  unfoldable pub lookup : K → List (K × V) → Option V
  lookup k [] = none
  lookup k (entry ∷ m) = if entry.0 == k then some entry.1 else lookup k m

  -- `m[k] = v`
  unfoldable pub insert : K → V → List (K × V) → List (K × V)
  insert k v [] = (k, v) ∷ []
  insert k v (entry ∷ m) =
      let rest = insert k v m in if entry.0 == k then (k, v) ∷ m else entry ∷ rest

  -- `delete(m, k)`
  unfoldable pub erase : K → List (K × V) → List (K × V)
  erase k [] = []
  erase k (entry ∷ m) = let rest = erase k m in if entry.0 == k then rest else entry ∷ rest

  pub lookup-erase :
      (gone k : K) (m : List (K × V))
      → lookup k (erase gone m) ≡ (if gone == k then none else lookup k m)
  unfolding lookup erase
  lookup-erase gone k [] = ground arith
  lookup-erase gone k (entry ∷ m) = ground (
    arith,
    lookup-erase gone k m,
    c.same_iff gone k,
    c.same_iff entry.0 gone,
    c.same_iff entry.0 k,
  )

  pub lookup-insert :
      (new k : K) (v : V) (m : List (K × V))
      → lookup k (insert new v m) ≡ (if new == k then some v else lookup k m)
  unfolding lookup insert
  lookup-insert new k v [] = refl
  lookup-insert new k v (entry ∷ m) = ground (
    arith,
    lookup-insert new k v m,
    c.same_iff new k,
    c.same_iff entry.0 new,
    c.same_iff entry.0 k,
  )

  -- No key twice.
  abbrev pub Distinct : List (K × V) → Type κ
  Distinct [] = Unit
  Distinct ((k, v) ∷ m) = (lookup k m ≡ none) × Distinct m

  pub erase_absent : (k : K) (m : List (K × V)) → lookup k m ≡ none → erase k m ≡ m
  unfolding lookup erase
  erase_absent k [] h = refl
  erase_absent k ((i, w) ∷ m) h = ground (arith, erase_absent k m)

  pub length-erase :
      (k : K) (m : List (K × V)) (v : V)
      → Distinct m
      → lookup k m ≡ some v
      → length (erase k m) + 1 ≡ length m
  unfolding lookup erase
  length-erase k [] v d h = cc
  length-erase k ((i, w) ∷ m) v d h =
      ground (arith, c.same_iff i k, erase_absent k m, length-erase k m v d.1)

  pub length-insert_new :
      (k : K) (v : V) (m : List (K × V)) → lookup k m ≡ none → length (insert k v m) ≡ length m + 1
  unfolding lookup insert
  length-insert_new k v [] h = omega arith
  length-insert_new k v ((i, w) ∷ m) h = ground (arith, length-insert_new k v m)

  pub length-insert_old :
      (k : K) (v : V) (m : List (K × V)) (w : V)
      → lookup k m ≡ some w
      → length (insert k v m) ≡ length m
  unfolding lookup insert
  length-insert_old k v [] w h = cc
  length-insert_old k v ((i, u) ∷ m) w h = ground (arith, length-insert_old k v m w)

  pub erase-Distinct : (k : K) (m : List (K × V)) → Distinct m → Distinct (erase k m)
  unfolding erase
  erase-Distinct k [] d = tt
  erase-Distinct k ((i, w) ∷ m) d =
      ground (arith, erase-Distinct k m d.1, lookup-erase k i m, c.same_iff k i, c.same_iff i k)

  pub insert-Distinct : (k : K) (v : V) (m : List (K × V)) → Distinct m → Distinct (insert k v m)
  unfolding insert lookup
  insert-Distinct k v [] d = (refl, tt)
  insert-Distinct k v ((i, w) ∷ m) d =
      ground
        (arith, insert-Distinct k v m d.1, lookup-insert k i v m, c.same_iff k i, c.same_iff i k)
