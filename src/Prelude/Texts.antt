-- ===== src/Prelude/Texts.antt =====
-- Texts that the code walks, as lists of their bytes or code points.
use Prim.Native.Nat.{ℕ}
use Prim.Native.Char.{code}
use Prim.Native.String.{String}
use mathlib.Core.Path.{◌≡◌, refl}
use mathlib.Core.Logic.{◌↔◌}
use mathlib.Core.Bool.{Bool, true, false, ◌&&◌}
use mathlib.Core.List.{List, [], ◌∷◌, ◌++◌}
use native.Mathlib.Omega.{arith}
use chassis_go.Prelude.Tests.{Comparable, ◌==◌, nat_comparable}

-- The code points of a literal.
abbrev pub text : String → List ℕ
text String.[] = []
text (String.◌∷◌ ch rest) = code ch ∷ text rest

unfoldable pub same_text : List ℕ → List ℕ → Bool
same_text [] [] = true
same_text [] (y ∷ ys) = false
same_text (x ∷ xs) [] = false
same_text (x ∷ xs) (y ∷ ys) = x == y && same_text xs ys

pub same_text_iff : (xs ys : List ℕ) → (same_text xs ys ≡ true) ↔ (xs ≡ ys)
unfolding same_text
same_text_iff [] [] = ground arith
same_text_iff [] (y ∷ ys) = ground arith
same_text_iff (x ∷ xs) [] = ground arith
same_text_iff (x ∷ xs) (y ∷ ys) = ground (arith, same_text_iff xs ys)

instance abbrev pub text_comparable : Comparable (List ℕ)
text_comparable = record { same = same_text; same_iff = same_text_iff }

-- `strings.HasPrefix`, on the text and then the prefix.
unfoldable pub has_prefix : List ℕ → List ℕ → Bool
has_prefix s [] = true
has_prefix [] (p ∷ ps) = false
has_prefix (x ∷ xs) (p ∷ ps) = x == p && has_prefix xs ps

pub has_prefix-append : (p s : List ℕ) → has_prefix (p ++ s) p ≡ true
unfolding has_prefix
has_prefix-append [] s = ground arith
has_prefix-append (x ∷ p) s = ground (arith, has_prefix-append p s)

pub prefix_rest : (s p : List ℕ) → has_prefix s p ≡ true → (rest : List ℕ) × (s ≡ p ++ rest)
unfolding has_prefix
prefix_rest s [] h = (s, refl)
prefix_rest [] (x ∷ p) h = cc
prefix_rest (y ∷ s) (x ∷ p) h =
    let (rest, e) = prefix_rest s p (ground arith) in (rest, ground arith)
