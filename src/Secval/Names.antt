-- ===== src/Secval/Names.antt =====
-- What a safe file name looks like.
use chassis_go.Prelude.{
  ℕ, ◌≡◌, ◌≢◌, refl, Bool, true, ◌==◌, ◌&&◌, not, nat_comparable, text_comparable, List, [], ◌∷◌,
  arith, All, Bool-cases, inl, inr,
}
use chassis_go.Secval.{
  is_uncontrolled, is_unseparating, is_safe, keep_if, is_edge, trim_front, trim_back, collapse,
  or_unnamed, safe_filename,
}

abbrev pub AllSafe : List ℕ → Type 0
AllSafe = All (λ c. is_safe c ≡ true)

keep_if-AllSafe : (s : List ℕ) → AllSafe (keep_if is_safe s)
unfolding keep_if
keep_if-AllSafe [] = tt
keep_if-AllSafe (c ∷ s) = elim (Bool-cases (is_safe c)) [
  | inl safe ↦ rw (safe, All) (safe, keep_if-AllSafe s)
  | inr other ↦ rw (other, All) (keep_if-AllSafe s)
]

trim_front-AllSafe : (s : List ℕ) → AllSafe s → AllSafe (trim_front s)
unfolding trim_front
trim_front-AllSafe [] h = tt
trim_front-AllSafe (c ∷ s) h = elim (Bool-cases (is_edge c)) [
  | inl edge ↦ rw (edge, All) (trim_front-AllSafe s h.1)
  | inr other ↦ rw (other, All) h
]

trim_back-AllSafe : (s : List ℕ) → AllSafe s → AllSafe (trim_back s)
unfolding trim_back
trim_back-AllSafe [] h = tt
trim_back-AllSafe (c ∷ s) h = elim (Bool-cases (is_edge c && trim_back s == [])) [
  | inl edge ↦ rw (edge, All) tt
  | inr other ↦ rw (other, All) (h.0, trim_back-AllSafe s h.1)
]

collapse-AllSafe : (s : List ℕ) → AllSafe s → AllSafe (collapse s)
unfolding collapse
collapse-AllSafe [] h = tt
collapse-AllSafe (c ∷ []) h = h
collapse-AllSafe (c ∷ d ∷ s) h = elim (Bool-cases (c == 32 && d == 32)) [
  | inl twice ↦ rw (twice, All) (collapse-AllSafe (d ∷ s) h.1)
  | inr other ↦ rw (other, All) (h.0, collapse-AllSafe (d ∷ s) h.1)
]

-- No dot and no space stands in front.
abbrev pub starts_inside : List ℕ → Bool
starts_inside [] = true
starts_inside (c ∷ s) = not (c == b'.') && not (c == 32)

trim_front-starts : (s : List ℕ) → starts_inside (trim_front s) ≡ true
unfolding trim_front is_edge
trim_front-starts [] = refl
trim_front-starts (c ∷ s) = ground (arith, trim_front-starts s)

trim_back-starts : (s : List ℕ) → starts_inside s ≡ true → starts_inside (trim_back s) ≡ true
unfolding trim_back is_edge
trim_back-starts [] h = refl
trim_back-starts (c ∷ s) h = ground arith

collapse-starts : (s : List ℕ) → starts_inside s ≡ true → starts_inside (collapse s) ≡ true
unfolding collapse
collapse-starts [] h = refl
collapse-starts (c ∷ []) h = h
collapse-starts (c ∷ d ∷ s) h = ground arith

unnamed :
    (s : List ℕ)
    → AllSafe s
    → starts_inside s ≡ true
    → AllSafe (or_unnamed s) × (starts_inside (or_unnamed s) ≡ true) × (or_unnamed s ≢ [])
unfolding or_unnamed is_safe
unnamed [] h g = ((refl, (refl, (refl, (refl, (refl, (refl, (refl, tt))))))), refl, λ e. cc)
unnamed (c ∷ s) h g = (h, g, λ e. cc)

-- Whatever the input, the file name is not empty, has only letters, digits, spaces and `-_.` in it,
-- so no path separator, and begins with neither a dot nor a space, so is neither hidden nor "..".
pub safe_filename-AllSafe :
    (s : List ℕ)
    → AllSafe (safe_filename s) × (starts_inside (safe_filename s) ≡ true) × (safe_filename s ≢ [])
unfolding safe_filename
safe_filename-AllSafe s =
    let kept = keep_if is_unseparating (keep_if is_uncontrolled s) in
    let cleaned = keep_if is_safe kept in
    let trimmed = trim_back (trim_front cleaned) in
    unnamed (collapse trimmed)
      (collapse-AllSafe trimmed (
        trim_back-AllSafe (trim_front cleaned) (trim_front-AllSafe cleaned (keep_if-AllSafe kept))))
      (collapse-starts trimmed (trim_back-starts (trim_front cleaned) (trim_front-starts cleaned)))
