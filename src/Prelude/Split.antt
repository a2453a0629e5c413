-- ===== src/Prelude/Split.antt =====
-- Texts that are split at a byte, as `strings.Split` and `strings.Cut` do.
use Prim.Native.Nat.{ℕ}
use mathlib.Core.Path.{◌≡◌, refl, ap}
use mathlib.Core.Logic.{◌≢◌, inl, inr}
use mathlib.Core.Bool.{Bool, false, ◌||◌}
use mathlib.Core.List.{List, [], ◌∷◌, ◌++◌}
use native.Mathlib.Omega.{arith}
use chassis_go.Prelude.Tests.{◌==◌, nat_comparable, if◌then◌else◌, Bool-cases}
use chassis_go.Prelude.Lists.{All}

-- A byte before the first part.
abbrev pub add_byte : ℕ → List (List ℕ) → List (List ℕ)
add_byte c [] = (c ∷ []) ∷ []
add_byte c (part ∷ parts) = (c ∷ part) ∷ parts

-- `strings.Split`, at a separator of one byte.
unfoldable pub split_on : ℕ → List ℕ → List (List ℕ)
split_on sep [] = [] ∷ []
split_on sep (c ∷ s) = let rest = split_on sep s in if c == sep then [] ∷ rest else add_byte c rest

-- `strings.Join`.
abbrev pub join_on : ℕ → List (List ℕ) → List ℕ
join_on sep [] = []
join_on sep (x ∷ []) = x
join_on sep (x ∷ y ∷ ys) = x ++ sep ∷ join_on sep (y ∷ ys)

abbrev pub has_byte : ℕ → List ℕ → Bool
has_byte b [] = false
has_byte b (c ∷ s) = c == b || has_byte b s

-- The parts of a text: without the separator, and the text when they are joined by it.
abbrev pub IsSplit : ℕ → List ℕ → List (List ℕ) → Type 0
IsSplit sep s parts = (join_on sep parts ≡ s) × All (λ part. has_byte sep part ≡ false) parts

separator-IsSplit :
    (sep : ℕ) (s : List ℕ) (parts : List (List ℕ))
    → (parts ≢ [])
    → IsSplit sep s parts
    → IsSplit sep (sep ∷ s) ([] ∷ parts)
separator-IsSplit sep s [] some_part split = absurd (some_part refl)
separator-IsSplit sep s (x ∷ xs) some_part (joined, plain) =
    (ap (λ t. sep ∷ t) joined, (refl, plain))

add_byte-IsSplit :
    (sep c : ℕ) (s : List ℕ) (parts : List (List ℕ))
    → (c == sep) ≡ false
    → IsSplit sep s parts
    → IsSplit sep (c ∷ s) (add_byte c parts)
add_byte-IsSplit sep c s [] other (joined, plain) = (ap (λ t. c ∷ t) joined, (ground arith, tt))
add_byte-IsSplit sep c s (x ∷ []) other (joined, plain) =
    (ap (λ t. c ∷ t) joined, (ground (arith, plain.0), tt))
add_byte-IsSplit sep c s (x ∷ y ∷ ys) other (joined, plain) =
    (ap (λ t. c ∷ t) joined, (ground (arith, plain.0), plain.1))

add_byte-some : (c : ℕ) (parts : List (List ℕ)) → add_byte c parts ≢ []
add_byte-some c [] = λ e. cc
add_byte-some c (x ∷ xs) = λ e. cc

split_on-some : (sep : ℕ) (s : List ℕ) → split_on sep s ≢ []
unfolding split_on
split_on-some sep [] = λ e. cc
split_on-some sep (c ∷ s) = elim (Bool-cases (c == sep)) [
  | inl same ↦ rw same (λ e. cc)
  | inr other ↦ rw other (add_byte-some c (split_on sep s))
]

pub split_on-IsSplit : (sep : ℕ) (s : List ℕ) → IsSplit sep s (split_on sep s)
unfolding split_on
split_on-IsSplit sep [] = (refl, (refl, tt))
split_on-IsSplit sep (c ∷ s) =
    let rest = split_on-IsSplit sep s in
    elim (Bool-cases (c == sep)) [
      | inl same ↦
          let eq : c ≡ sep = (nat_comparable.same_iff c sep).0 same in
          rw (same, eq) (separator-IsSplit sep s (split_on sep s) (split_on-some sep s) rest)
      | inr other ↦ rw other (add_byte-IsSplit sep c s (split_on sep s) other rest)
    ]
