-- ===== src/Deploy/EnvFile.antt =====
-- deploy/deploy.go: the environment files and `LoadEnv`.
pub mod Lines
pub mod Loading
use chassis_go.Prelude.{
  ℕ, zero, suc, ◌+◌, Bool, true, false, leb, ◌==◌, ◌&&◌, ◌||◌, not, nat_comparable, text_comparable,
  text, is_empty, has_prefix, Option, none, some, List, [], ◌∷◌, ◌++◌, lookup, insert,
  if◌then◌else◌,
}
use chassis_go.Deploy.{Texts, Deploy, System}

-- `strings.Cut(line, "=")`; none if there is no separator.
pub cut_equals : List ℕ → Option (List ℕ × List ℕ)
cut_equals [] = none
cut_equals (c ∷ s) =
    let rest = cut_equals s in
    if c == b'=' then some ([], s) else elim rest [ none ↦ none | some (k, v) ↦ some (c ∷ k, v) ]

-- All but the last byte, and the last byte, of a text that has one.
unfoldable pub split_last : ℕ → List ℕ → List ℕ × ℕ
split_last c [] = ([], c)
split_last c (d ∷ s) = let (front, final) = split_last d s in (c ∷ front, final)

-- The strip of surrounding quotes.
pub strip_quotes : List ℕ → List ℕ
unfolding split_last
strip_quotes [] = []
strip_quotes (q ∷ []) = q ∷ []
strip_quotes (q ∷ c ∷ s) =
    let (front, final) = split_last c s in
    if (q == b'"' && final == b'"') || (q == 39 && final == 39) then front else q ∷ c ∷ s

-- A pair that a line gives, put into the map.
pub add_pair : Option (List ℕ × List ℕ) → Texts → Texts
add_pair none vars = vars
add_pair (some (k, v)) vars = insert k v vars

-- `for k, v := range vars { merged[k] = v }`.
pub merge : Texts → Texts → Texts
merge [] merged = merged
merge ((k, v) ∷ vars) merged = merge vars (insert k v merged)

-- The environment after the look-up of a variable and, unless it exists, its setting.
put_missing : Option (List ℕ) → Option Texts → Texts → Texts
put_missing (some _) _ env = env
put_missing none none env = env
put_missing none (some next) env = next

module _ (sys : System) where
  -- The pair of a line: none for a blank line, a comment, or a line without `=`.
  pair_of : Option (List ℕ × List ℕ) → Option (List ℕ × List ℕ)
  unfolding strip_quotes
  pair_of none = none
  pair_of (some (k, v)) = some (sys.trim_space k, strip_quotes (sys.trim_space v))

  pub parse_line : List ℕ → Option (List ℕ × List ℕ)
  unfolding pair_of
  parse_line s =
      let line = sys.trim_space s in
      if is_empty line || has_prefix line (text "#") then none else pair_of (cut_equals line)

  pub parse_lines : List (List ℕ) → Texts → Texts
  unfolding add_pair
  parse_lines [] vars = vars
  parse_lines (s ∷ ss) vars = parse_lines ss (add_pair (parse_line s) vars)

  vars_of : Option (List ℕ) → Texts
  vars_of none = []
  vars_of (some content) = parse_lines (sys.lines content) []

  -- `parseEnvFile`.
  pub parse_env_file : List ℕ → Texts
  unfolding vars_of
  parse_env_file path = vars_of (sys.read_file path)

  set_missing : List ℕ → List ℕ → Texts → Texts
  unfolding put_missing
  set_missing k v env = put_missing (lookup k env) (sys.setenv k v env) env

  -- The loop that sets what the environment does not have.
  pub apply_vars : Texts → Texts → Texts
  unfolding set_missing
  apply_vars [] env = env
  apply_vars ((k, v) ∷ vars) env = apply_vars vars (set_missing k v env)

  -- `LoadEnv`.
  pub load_env : Deploy → Texts → Texts
  unfolding apply_vars
  load_env d env =
      let config = parse_env_file (sys.join d.dir (text "config.env")) in
      let secrets = parse_env_file (sys.join d.dir (text "secrets.env")) in
      if d.found then apply_vars (merge secrets (merge config [])) env else env
