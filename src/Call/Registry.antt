-- ===== src/Call/Registry.antt =====
-- call/breaker.go: `breakers`, the registry of breakers by name (a `sync.Map`), `GetBreaker` and
-- `RemoveBreaker`. A pointer is an index into the heap of the breakers ever made.
pub mod Singleton
pub mod Tests
use chassis_go.Prelude.{
  ℕ, String, List, [], ◌∷◌, ◌++◌, Option, none, some, lookup, insert, erase, string_comparable,
  length, ◌≡◌,
}
use chassis_go.Call.Breaker.{CircuitBreaker, new_breaker}

pub record Registry : Type 0 where
  pub breakers : List (String × ℕ)
  pub heap : List CircuitBreaker

-- `breakers.LoadOrStore(name, cb)`, where `cb` is a new breaker: the pointer that the map holds
-- afterwards. A breaker that loses stays on the heap, with no one to use it.
load_or_store : String → CircuitBreaker → Registry → Registry × ℕ
load_or_store name cb r = elim (lookup name r.breakers) [
  | some p ↦ (record r { heap = r.heap ++ cb ∷ [] }, p)
  | none ↦ (
    record { breakers = insert name (length r.heap) r.breakers; heap = r.heap ++ cb ∷ [] },
    length r.heap,
  )
]

-- `GetBreaker`, when no other call runs in between.
pub get_breaker : String → ℕ → ℕ → Registry → Registry × ℕ
unfolding load_or_store
get_breaker name threshold reset_timeout r = elim (lookup name r.breakers) [
  | some p ↦ (r, p)
  | none ↦ load_or_store name (new_breaker threshold reset_timeout) r
]

-- `RemoveBreaker`.
pub remove_breaker : String → Registry → Registry
remove_breaker name r = record r { breakers = erase name r.breakers }

-- A call of `GetBreaker` that has missed in `Load` and has yet to run `LoadOrStore`.
pub record Missed : Type 0 where
  pub name : String
  pub threshold : ℕ
  pub reset_timeout : ℕ

-- Calls of `GetBreaker` from many goroutines: those between their two steps, and what the finished
-- ones returned.
pub record System : Type 0 where
  pub registry : Registry
  pub missed : List Missed
  pub returned : List (String × ℕ)

pub finish : Missed → List Missed → System → System
unfolding load_or_store
finish m rest s =
    let (r, p) = load_or_store m.name (new_breaker m.threshold m.reset_timeout) s.registry in
    record { registry = r; missed = rest; returned = (m.name, p) ∷ s.returned }

pub data Step : System → System → Type 0 where
  load_hit :
      (s : System) (name : String) (p : ℕ)
      → lookup name s.registry.breakers ≡ some p
      → Step s (record s { returned = (name, p) ∷ s.returned })
  load_miss :
      (s : System) (m : Missed)
      → lookup m.name s.registry.breakers ≡ none
      → Step s (record s { missed = m ∷ s.missed })
  stored :
      (s : System) (before after : List Missed) (m : Missed)
      → s.missed ≡ before ++ m ∷ after
      → Step s (finish m (before ++ after) s)

pub data Reach (s : System) : System → Type 0 where
  here : Reach s s
  next : {t u : System} → Reach s t → Step t u → Reach s u

abbrev pub empty : System
empty = record { registry = record { breakers = []; heap = [] }; missed = []; returned = [] }
