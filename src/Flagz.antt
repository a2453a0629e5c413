-- ===== src/Flagz.antt =====
-- Package flagz: feature flags (flagz/flagz.go) and the sources of their values (flagz/sources.go).
-- Texts are lists of bytes. Span events only report and are left out.
pub mod Rollout
pub mod Layers
pub mod Tests
use Prim.Native.Nat.{bit_xor}
use chassis_go.Prelude.{
  ℤ, pos, negsuc, ℕ, ◌+◌, ◌*◌, ◌%◌, ◌^◌, Bool, true, false, ◌==◌, ◌&&◌, ltb, leb, nat_comparable,
  text_comparable, text, Option, none, some, List, [], ◌∷◌, ◌++◌, lookup, insert, if◌then◌else◌,
}

-- `Source`: what `Lookup` returns, none if it is not ok.
abbrev pub Source : Type 0
Source = List ℕ → Option (List ℕ)

-- `Context`, less the attributes, which nothing reads.
pub record Context : Type 0 where
  pub user_id : List ℕ
  pub percent : ℤ

-- `fnv.New32a` and its `Write`.
abbrev offset32 : ℕ
offset32 = 2166136261

abbrev prime32 : ℕ
prime32 = 16777619

write_hash : ℕ → List ℕ → ℕ
write_hash h [] = h
write_hash h (c ∷ s) = write_hash (bit_xor h c * prime32 % 2 ^ 32) s

-- `consistentBucket`.
pub consistent_bucket : List ℕ → List ℕ → ℕ
unfolding write_hash
consistent_bucket name user_id =
    write_hash (write_hash (write_hash offset32 name) (0 ∷ [])) user_id % 100

-- `ok && value == "true"`.
is_true : Option (List ℕ) → Bool
is_true none = false
is_true (some value) = value == text "true"

-- `Enabled`.
pub enabled : Source → List ℕ → Bool
unfolding is_true
enabled source name = is_true (source name)

-- The gate of the percentage.
pub passes_gate : ℕ → ℤ → Bool
passes_gate bucket (negsuc n) = false
passes_gate bucket (pos n) = if leb n 0 then false else if leb 100 n then true else ltb bucket n

-- `EnabledFor`.
pub enabled_for : Source → List ℕ → Context → Bool
unfolding is_true passes_gate
enabled_for source name ctx =
    if is_true (source name)
    then passes_gate (consistent_bucket name ctx.user_id) ctx.percent
    else false

-- `Variant`.
pub variant : Source → List ℕ → List ℕ → List ℕ
variant source name default_val = elim (source name) [ none ↦ default_val | some value ↦ value ]

-- The `Lookup` of a map source.
pub from_map : List (List ℕ × List ℕ) → Source
from_map m name = lookup name m

-- The `Lookup` of a multi source: the sources from the last to the first.
pub multi : List Source → Source
multi [] name = none
multi (source ∷ sources) name = elim (multi sources name) [
  | some value ↦ some value
  | none ↦ source name
]
