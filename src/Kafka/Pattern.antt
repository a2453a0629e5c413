-- ===== src/Kafka/Pattern.antt =====
-- kafkakit/subscriber.go: subject patterns, and the topics that a pattern is subscribed to. The
-- prefix and suffix functions of package strings are those of texts as lists of bytes.
pub mod Matching
use chassis_go.Prelude.{
  ℕ, Bool, true, false, ◌==◌, nat_comparable, text_comparable, List, [], ◌∷◌, has_prefix,
  if◌then◌else◌,
}

-- `strings.HasSuffix(p, ">")`.
unfoldable pub ends_open : List ℕ → Bool
ends_open [] = false
ends_open (x ∷ []) = x == b'>'
ends_open (x ∷ y ∷ p) = ends_open (y ∷ p)

-- `strings.TrimSuffix(p, ">")`.
trim_open : List ℕ → List ℕ
trim_open [] = []
trim_open (x ∷ []) = if x == b'>' then [] else x ∷ []
trim_open (x ∷ y ∷ p) = x ∷ trim_open (y ∷ p)

-- `strings.TrimSuffix(p, ".>")`.
trim_wildcard : List ℕ → List ℕ
trim_wildcard [] = []
trim_wildcard (x ∷ p) =
    let rest = trim_wildcard p in if (x ∷ p) == (b'.' ∷ b'>' ∷ []) then [] else x ∷ rest

-- `matchPattern`.
pub match_pattern : List ℕ → List ℕ → Bool
unfolding ends_open trim_open
match_pattern pattern subject =
    if pattern == subject
    then true
    else if ends_open pattern
    then has_prefix subject (trim_open pattern)
    else false

-- `patternToTopic`.
pub pattern_to_topic : List ℕ → List ℕ
unfolding ends_open trim_wildcard
pattern_to_topic pattern = if ends_open pattern then trim_wildcard pattern else pattern
