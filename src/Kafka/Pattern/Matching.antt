-- ===== src/Kafka/Pattern/Matching.antt =====
-- What a pattern matches, and what it subscribes to.
use mathlib.Core.List.{append_assoc}
use chassis_go.Prelude.{
  ℕ, true, ◌≡◌, ◌≢◌, ◌↔◌, ◌⊎◌, inl, inr, refl, sym, ap, ◌∙◌, ◌==◌, nat_comparable, text_comparable,
  same_text, same_text_iff, List, [], ◌∷◌, ◌++◌, has_prefix-append, prefix_rest, arith, Bool-cases,
  length, length-append,
}
use chassis_go.Kafka.Pattern.{ends_open, trim_open, trim_wildcard, match_pattern, pattern_to_topic}

ends_open-wildcard : (stem : List ℕ) → ends_open (stem ++ b'>' ∷ []) ≡ true
unfolding ends_open
ends_open-wildcard [] = refl
ends_open-wildcard (x ∷ []) = refl
ends_open-wildcard (x ∷ y ∷ stem) = ends_open-wildcard (y ∷ stem)

trim_open-wildcard : (stem : List ℕ) → trim_open (stem ++ b'>' ∷ []) ≡ stem
unfolding trim_open
trim_open-wildcard [] = refl
trim_open-wildcard (x ∷ []) = refl
trim_open-wildcard (x ∷ y ∷ stem) = ap (◌∷◌ x) (trim_open-wildcard (y ∷ stem))

ends_open_stem : (p : List ℕ) → ends_open p ≡ true → p ≡ trim_open p ++ b'>' ∷ []
unfolding ends_open trim_open
ends_open_stem [] h = cc
ends_open_stem (x ∷ []) h = ground arith
ends_open_stem (x ∷ y ∷ p) h = ap (◌∷◌ x) (ends_open_stem (y ∷ p) h)

-- The pattern is a stem followed by ">", and the subject begins with the stem.
abbrev pub Covers : List ℕ → List ℕ → Type 0
Covers pattern subject =
    (stem : List ℕ) × (rest : List ℕ) × (pattern ≡ stem ++ b'>' ∷ []) × (subject ≡ stem ++ rest)

matched :
    (pattern subject : List ℕ)
    → match_pattern pattern subject ≡ true
    → (pattern ≡ subject) ⊎ Covers pattern subject
unfolding match_pattern
matched pattern subject h = elim (Bool-cases (pattern == subject)) [
  | inl same ↦ inl ((same_text_iff pattern subject).0 same)
  | inr other ↦
      let open_end : ends_open pattern ≡ true = ground arith in
      let (rest, e) = prefix_rest subject (trim_open pattern) (ground arith) in
      inr (trim_open pattern, rest, ends_open_stem pattern open_end, e)
]

matches :
    (pattern subject : List ℕ)
    → (pattern ≡ subject) ⊎ Covers pattern subject
    → match_pattern pattern subject ≡ true
unfolding match_pattern
matches pattern subject (inl e) = ground (arith, same_text_iff pattern subject)
matches pattern subject (inr (stem, rest, p, s)) =
    rw (p, s)
      (ground
        (arith, ends_open-wildcard stem, trim_open-wildcard stem, has_prefix-append stem rest))

-- A pattern matches a subject exactly if it is the subject, or if it is a stem followed by ">" and
-- the subject begins with the stem.
pub match_pattern_iff :
    (pattern subject : List ℕ)
    → (match_pattern pattern subject ≡ true) ↔ ((pattern ≡ subject) ⊎ Covers pattern subject)
match_pattern_iff pattern subject = (matched pattern subject, matches pattern subject)

trim_wildcard-append : (stem : List ℕ) → trim_wildcard (stem ++ b'.' ∷ b'>' ∷ []) ≡ stem
unfolding trim_wildcard same_text
trim_wildcard-append [] = refl
trim_wildcard-append (x ∷ []) = ground arith
trim_wildcard-append (x ∷ y ∷ []) = ground (arith, trim_wildcard-append (y ∷ []))
trim_wildcard-append (x ∷ y ∷ z ∷ stem) = ground (arith, trim_wildcard-append (y ∷ z ∷ stem))

longer : (s t : List ℕ) → s ≢ s ++ b'.' ∷ t
longer s t e = absurd (omega (arith, ap length e, length-append s (b'.' ∷ t)))

ends_open-dot : (stem : List ℕ) → ends_open (stem ++ b'.' ∷ b'>' ∷ []) ≡ true
unfolding ends_open
ends_open-dot [] = refl
ends_open-dot (x ∷ []) = refl
ends_open-dot (x ∷ y ∷ stem) = ends_open-dot (y ∷ stem)

-- A wildcard pattern "stem.>" matches every subject below the stem, but the topic that it is
-- subscribed to, the stem, is not the topic that any of these subjects is published to.
pub pattern_to_topic_misses :
    (stem rest : List ℕ)
    → (match_pattern (stem ++ b'.' ∷ b'>' ∷ []) (stem ++ b'.' ∷ rest) ≡ true)
      × (pattern_to_topic (stem ++ b'.' ∷ b'>' ∷ []) ≢ stem ++ b'.' ∷ rest)
unfolding pattern_to_topic
pattern_to_topic_misses stem rest = (
  matches (stem ++ b'.' ∷ b'>' ∷ []) (stem ++ b'.' ∷ rest) (
      inr (
        stem ++ b'.' ∷ [],
        rest,
        sym (append_assoc stem (b'.' ∷ []) (b'>' ∷ [])),
        sym (append_assoc stem (b'.' ∷ []) rest),
      )),
  λ e. longer stem rest (sym (trim_wildcard-append stem) ∙ (rw (ends_open-dot stem) at e)),
)
