-- ===== src/Config/Constraints.antt =====
-- What the constraints of a field's tag ask of its value.
use mathlib.Core.List.{Mem, mem-cons_self, mem-cons_of_mem}
use mathlib.Core.Path.{subst}
use chassis_go.Prelude.{
  ℕ, ◌≡◌, refl, ap, ◌⊎◌, inl, inr, Bool, true, false, ◌==◌, nat_comparable, text_comparable, text,
  is_empty, Option, none, some, List, [], ◌∷◌, ◌++◌, All, IsSplit, has_byte, split_on,
  split_on-IsSplit, arith, Bool-cases,
}
use chassis_go.Config.{
  Value, Ops, Panic, cons_first, cut_equals, one_of, check_minimum, check_maximum, check_pattern,
  check_part, or_next, check_parts, validate_field,
}

-- A text before and after its first `=`; nothing is after it if there is none.
abbrev pub IsCut : List ℕ → List ℕ × List ℕ → Type 0
IsCut s (key, value) =
    (has_byte b'=' key ≡ false) × ((s ≡ key ++ b'=' ∷ value) ⊎ ((s ≡ key) × (value ≡ [])))

cons_first-IsCut :
    (c : ℕ) (s : List ℕ) (cut : List ℕ × List ℕ)
    → (c == b'=') ≡ false
    → IsCut s cut
    → IsCut (c ∷ s) (cons_first c cut)
unfolding cons_first
cons_first-IsCut c s (key, value) other (plain, inl joined) =
    (ground arith, inl (ap (λ t. c ∷ t) joined))
cons_first-IsCut c s (key, value) other (plain, inr (whole, blank)) =
    (ground arith, inr (ap (λ t. c ∷ t) whole, blank))

cut_equals-IsCut : (s : List ℕ) → IsCut s (cut_equals s)
unfolding cut_equals
cut_equals-IsCut [] = (refl, inr (refl, refl))
cut_equals-IsCut (c ∷ s) = elim (Bool-cases (c == b'=')) [
  | inl same ↦ let eq : c ≡ b'=' = ground arith in rw (same, eq) (refl, inl refl)
  | inr other ↦ rw other (cons_first-IsCut c s (cut_equals s) other (cut_equals-IsCut s))
]

one_of-Mem : (s : List ℕ) (ts : List (List ℕ)) → one_of s ts ≡ true → Mem s ts
unfolding one_of
one_of-Mem s [] h = cc
one_of-Mem s (t ∷ ts) h = elim (Bool-cases (t == s)) [
  | inl same ↦
      let eq : t ≡ s = (text_comparable.same_iff t s).0 same in
      subst (λ u. Mem u (t ∷ ts)) eq mem-cons_self
  | inr other ↦ mem-cons_of_mem t (one_of-Mem s ts (ground arith))
]

module _ {F D : Type 0} (ops : Ops F D) where
  -- A value meets a constraint: the number of `min` is not above it, that of `max` not below it, it is
  -- among the words of `oneof`, or the pattern of `pattern` matches it. Other keys ask nothing.
  pub data Holds (v : Value F D) (key value : List ℕ) : Type 0 where
    at_least :
        (m : F)
        → key ≡ text "min"
        → ops.parse_float value ≡ some m
        → ops.less (ops.as_float v) m ≡ false
        → Holds v key value
    at_most :
        (m : F)
        → key ≡ text "max"
        → ops.parse_float value ≡ some m
        → ops.less m (ops.as_float v) ≡ false
        → Holds v key value
    listed : key ≡ text "oneof" → Mem (ops.show v) (ops.words value) → Holds v key value
    matched :
        (matches : List ℕ → Bool)
        → key ≡ text "pattern"
        → ops.matcher value ≡ some matches
        → matches (ops.show v) ≡ true
        → Holds v key value
    unasked :
        (key == text "min") ≡ false
        → (key == text "max") ≡ false
        → (key == text "oneof") ≡ false
        → (key == text "pattern") ≡ false
        → Holds v key value

  -- One of the parts between the commas.
  abbrev pub MeetsPart : Value F D → List ℕ → Type 0
  MeetsPart v part = (cut : List ℕ × List ℕ) × IsCut (ops.trim_space part) cut × Holds v cut.0 cut.1

  -- A tag that is empty, or whose parts between the commas are all met.
  abbrev pub Meets : Value F D → List ℕ → Type 0
  Meets v tag =
      (is_empty tag ≡ true)
      ⊎ ((parts : List (List ℕ)) × IsSplit b',' tag parts × All (MeetsPart v) parts)

  minimum_fine :
      (v : Value F D) (o : Option F)
      → check_minimum ops v o ≡ none
      → (m : F) × (o ≡ some m) × (ops.less (ops.as_float v) m ≡ false)
  unfolding check_minimum
  minimum_fine v none h = cc
  minimum_fine v (some m) h = (m, refl, ground arith)

  maximum_fine :
      (v : Value F D) (o : Option F)
      → check_maximum ops v o ≡ none
      → (m : F) × (o ≡ some m) × (ops.less m (ops.as_float v) ≡ false)
  unfolding check_maximum
  maximum_fine v none h = cc
  maximum_fine v (some m) h = (m, refl, ground arith)

  pattern_fine :
      (v : Value F D) (o : Option (List ℕ → Bool))
      → check_pattern ops v o ≡ none
      → (matches : List ℕ → Bool) × (o ≡ some matches) × (matches (ops.show v) ≡ true)
  unfolding check_pattern
  pattern_fine v none h = cc
  pattern_fine v (some matches) h = (matches, refl, ground arith)

  check_part-Holds :
      (v : Value F D) (key value : List ℕ)
      → check_part ops v (key, value) ≡ none
      → Holds v key value
  unfolding check_part
  check_part-Holds v key value h = elim (Bool-cases (key == text "min")) [
    | inl minimum ↦
        let (m, parsed, fine) = minimum_fine v (ops.parse_float value) (rw minimum at h) in
        at_least m ((text_comparable.same_iff key (text "min")).0 minimum) parsed fine
    | inr no_min ↦ elim (Bool-cases (key == text "max")) [
      | inl maximum ↦
          let (m, parsed, fine) =
            maximum_fine v (ops.parse_float value) (rw (no_min, maximum) at h) in
          at_most m ((text_comparable.same_iff key (text "max")).0 maximum) parsed fine
      | inr no_max ↦ elim (Bool-cases (key == text "oneof")) [
        | inl words ↦
            listed ((text_comparable.same_iff key (text "oneof")).0 words)
              (one_of-Mem (ops.show v) (ops.words value) (ground arith))
        | inr no_words ↦ elim (Bool-cases (key == text "pattern")) [
          | inl pattern_key ↦
              let (matches, compiled, fine) =
                pattern_fine v (ops.matcher value)
                  (rw (no_min, no_max, no_words, pattern_key) at h) in
              matched matches ((text_comparable.same_iff key (text "pattern")).0 pattern_key)
                compiled fine
          | inr no_pattern ↦ unasked no_min no_max no_words no_pattern
        ]
      ]
    ]
  ]

  or_next_fine : (a b : Option Panic) → or_next ops a b ≡ none → (a ≡ none) × (b ≡ none)
  unfolding or_next
  or_next_fine none b h = (refl, h)
  or_next_fine (some p) b h = cc

  check_parts-MeetsPart :
      (v : Value F D) (parts : List (List ℕ))
      → check_parts ops v parts ≡ none
      → All (MeetsPart v) parts
  unfolding check_parts
  check_parts-MeetsPart v [] h = tt
  check_parts-MeetsPart v (part ∷ parts) h =
      let s = ops.trim_space part in
      let (here, rest) =
        or_next_fine (check_part ops v (cut_equals s)) (check_parts ops v parts) h in
      (
        (
          cut_equals s,
          cut_equals-IsCut s,
          check_part-Holds v (cut_equals s).0 (cut_equals s).1 here,
        ),
        check_parts-MeetsPart v parts rest,
      )

  pub validate_field-Meets :
      (v : Value F D) (tag : List ℕ) → validate_field ops v tag ≡ none → Meets v tag
  unfolding validate_field
  validate_field-Meets v tag h = elim (Bool-cases (is_empty tag)) [
    | inl blank ↦ inl blank
    | inr given ↦ inr (
      split_on b',' tag,
      split_on-IsSplit b',' tag,
      check_parts-MeetsPart v (split_on b',' tag) (rw given at h),
    )
  ]
