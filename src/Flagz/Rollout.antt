-- ===== src/Flagz/Rollout.antt =====
-- How a flag rolls out as its percentage grows.
use Prim.Native.Nat.{bit_xor}
use chassis_go.Prelude.{
  ℤ, pos, negsuc, ℕ, ◌*◌, ◌%◌, ◌^◌, ◌≤◌, ◌≡◌, refl, ap, sym, ◌∙◌, Bool, true, false, ◌&&◌, ltb,
  List, [], ◌∷◌, ◌++◌, arith,
}
use chassis_go.Flagz.{
  write_hash, Source, Context, consistent_bucket, enabled, passes_gate, enabled_for,
}

abbrev pub at_percent : List ℕ → ℤ → Context
at_percent user_id p = record { user_id = user_id; percent = p }

-- To raise the percentage never takes a flag from a user who has it.
pub enabled_for_mono :
    (source : Source) (name user_id : List ℕ) (p q : ℕ)
    → p ≤ q
    → enabled_for source name (at_percent user_id (pos p)) ≡ true
    → enabled_for source name (at_percent user_id (pos q)) ≡ true
unfolding enabled_for passes_gate
enabled_for_mono source name user_id p q h e = ground arith

-- FNV-1a of a text, on 32 bits.
abbrev pub fnv1a : List ℕ → ℕ → ℕ
fnv1a [] h = h
fnv1a (c ∷ s) h = fnv1a s (bit_xor h c * 16777619 % 2 ^ 32)

-- `bucket < percent`, of integers.
abbrev pub below : ℕ → ℤ → Bool
below bucket (pos n) = ltb bucket n
below bucket (negsuc n) = false

write_hash-append : (s t : List ℕ) (h : ℕ) → fnv1a (s ++ t) h ≡ write_hash (write_hash h s) t
unfolding write_hash
write_hash-append [] [] h = refl
write_hash-append [] (c ∷ t) h = write_hash-append [] t (bit_xor h c * 16777619 % 2 ^ 32)
write_hash-append (c ∷ s) t h = write_hash-append s t (bit_xor h c * 16777619 % 2 ^ 32)

consistent_bucket-fnv1a :
    (name user_id : List ℕ)
    → consistent_bucket name user_id ≡ fnv1a (name ++ 0 ∷ user_id) 2166136261 % 100
unfolding consistent_bucket write_hash
consistent_bucket-fnv1a name user_id =
    ap (λ h. h % 100) (sym (write_hash-append name (0 ∷ user_id) 2166136261))

passes_gate-below :
    (hash : ℕ) (percent : ℤ) → passes_gate (hash % 100) percent ≡ below (hash % 100) percent
unfolding passes_gate
passes_gate-below hash (negsuc n) = refl
passes_gate-below hash (pos n) = ground arith

-- At every percentage, whatever its sign and size, a user has a flag exactly if the flag is on and the
-- FNV-1a hash of the flag's name, a zero byte and the user's id, modulo 100, is below the percentage.
pub enabled_for-percent :
    (source : Source) (name user_id : List ℕ) (percent : ℤ)
    → enabled_for source name (at_percent user_id percent)
      ≡ (enabled source name && below (fnv1a (name ++ 0 ∷ user_id) 2166136261 % 100) percent)
unfolding enabled_for enabled
enabled_for-percent source name user_id percent =
    let hash = fnv1a (name ++ 0 ∷ user_id) 2166136261 in
    let gate : passes_gate (consistent_bucket name user_id) percent ≡ below (hash % 100) percent =
      ap (λ b. passes_gate b percent) (consistent_bucket-fnv1a name user_id)
      ∙ passes_gate-below hash percent in
    ground (arith, gate)
