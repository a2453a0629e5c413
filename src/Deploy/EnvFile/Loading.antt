-- ===== src/Deploy/EnvFile/Loading.antt =====
-- Where the value of a variable comes from.
use chassis_go.Prelude.{
  ℕ, ◌≡◌, refl, ap, ◌∙◌, true, ◌==◌, text_comparable, text, Option, none, some, List, [], ◌∷◌,
  lookup, insert, lookup-insert, Distinct, insert-Distinct, if◌then◌else◌, arith, Bool-cases, inl,
  inr, Bool, false, not, ◌&&◌, is_empty, nat_comparable,
}
use chassis_go.Phasekit.{contains_byte}
use chassis_go.Deploy.{Texts, Deploy, System}
use chassis_go.Deploy.EnvFile.{
  merge, put_missing, set_missing, apply_vars, load_env, add_pair, parse_line, parse_lines, vars_of,
  parse_env_file,
}

-- The first value that there is.
abbrev pub or_else : Option (List ℕ) → Option (List ℕ) → Option (List ℕ)
or_else none other = other
or_else (some v) other = some v

-- The last value of a key that is assigned more than once.
last_of : List ℕ → Texts → Option (List ℕ)
last_of k [] = none
last_of k ((j, v) ∷ vars) = or_else (last_of k vars) (if j == k then some v else none)

or_else_assoc : (a b c : Option (List ℕ)) → or_else a (or_else b c) ≡ or_else (or_else a b) c
or_else_assoc none b c = refl
or_else_assoc (some v) b c = refl

or_else-none : (a : Option (List ℕ)) → or_else a none ≡ a
or_else-none none = refl
or_else-none (some v) = refl

last_of-lookup : (k : List ℕ) (vars : Texts) → Distinct vars → last_of k vars ≡ lookup k vars
unfolding last_of lookup
last_of-lookup k [] d = refl
last_of-lookup k ((j, v) ∷ vars) d =
    ground (arith, last_of-lookup k vars d.1, text_comparable.same_iff j k)

lookup-merge :
    (k : List ℕ) (vars merged : Texts)
    → lookup k (merge vars merged) ≡ or_else (last_of k vars) (lookup k merged)
unfolding merge last_of
lookup-merge k [] merged = refl
lookup-merge k ((j, v) ∷ vars) merged =
    lookup-merge k vars (insert j v merged)
    ∙ ap (or_else (last_of k vars)) (lookup-insert j k v merged)
    ∙ ground
        (arith, or_else_assoc (last_of k vars) (if j == k then some v else none) (lookup k merged))

merge-Distinct : (vars merged : Texts) → Distinct merged → Distinct (merge vars merged)
unfolding merge
merge-Distinct [] merged d = d
merge-Distinct ((k, v) ∷ vars) merged d =
    merge-Distinct vars (insert k v merged) (insert-Distinct k v merged d)

-- Whether a variable can have this name and value.
abbrev pub can_set : List ℕ → List ℕ → Bool
can_set key value =
    not (is_empty key)
    && not (contains_byte b'=' key)
    && not (contains_byte 0 key)
    && not (contains_byte 0 value)

-- The value, if there is one that a variable of this name can have.
abbrev pub settable : List ℕ → Option (List ℕ) → Option (List ℕ)
settable key none = none
settable key (some v) = if can_set key v then some v else none

module _ (sys : System) where
  -- `os.Setenv` on Unix: it refuses a key that is empty or has `=` or the byte 0, and a value that
  -- has the byte 0; otherwise it sets the variable that it is given, and changes no other.
  pub record IsSetter : Type 0 where
    pub refuses :
        (key value : List ℕ) (env : Texts)
        → can_set key value ≡ false
        → sys.setenv key value env ≡ none
    pub succeeds :
        (key value : List ℕ) (env : Texts)
        → can_set key value ≡ true
        → (next : Texts) × (sys.setenv key value env ≡ some next)
    pub sets :
        (key value : List ℕ) (env next : Texts) (k : List ℕ)
        → sys.setenv key value env ≡ some next
        → lookup k next ≡ (if key == k then some value else lookup k env)

  lookup-set_missing :
      (k j v : List ℕ) (env : Texts)
      → IsSetter
      → lookup k (set_missing sys j v env)
        ≡ or_else (lookup k env) (if j == k then settable k (some v) else none)
  unfolding set_missing put_missing
  lookup-set_missing k j v env s = elim (Bool-cases (can_set j v)) [
    | inl allowed ↦
        let (next, done) = s.succeeds j v env allowed in
        ground (arith, s.sets j v env next k done, text_comparable.same_iff j k, allowed, done)
    | inr refused ↦
        let kept = s.refuses j v env refused in
        ground (arith, text_comparable.same_iff j k, refused, kept)
  ]

  lookup-apply_vars :
      (k : List ℕ) (vars env : Texts)
      → IsSetter
      → Distinct vars
      → lookup k (apply_vars sys vars env) ≡ or_else (lookup k env) (settable k (lookup k vars))
  unfolding apply_vars lookup
  lookup-apply_vars k [] env s d = ground arith
  lookup-apply_vars k ((j, v) ∷ vars) env s d =
      lookup-apply_vars k vars (set_missing sys j v env) s d.1
      ∙ ap (λ o. or_else o (settable k (lookup k vars))) (lookup-set_missing k j v env s)
      ∙ ground (arith, text_comparable.same_iff j k, d.0)

  add_pair-Distinct :
      (pair : Option (List ℕ × List ℕ)) (vars : Texts)
      → Distinct vars
      → Distinct (add_pair pair vars)
  unfolding add_pair
  add_pair-Distinct none vars d = d
  add_pair-Distinct (some (k, v)) vars d = insert-Distinct k v vars d

  parse_lines-Distinct :
      (ss : List (List ℕ)) (vars : Texts) → Distinct vars → Distinct (parse_lines sys ss vars)
  unfolding parse_lines
  parse_lines-Distinct [] vars d = d
  parse_lines-Distinct (s ∷ ss) vars d =
      parse_lines-Distinct ss (add_pair (parse_line sys s) vars)
        (add_pair-Distinct (parse_line sys s) vars d)

  vars_of-Distinct : (content : Option (List ℕ)) → Distinct (vars_of sys content)
  unfolding vars_of
  vars_of-Distinct none = tt
  vars_of-Distinct (some content) = parse_lines-Distinct (sys.lines content) [] tt

  parse_env_file-Distinct : (path : List ℕ) → Distinct (parse_env_file sys path)
  unfolding parse_env_file
  parse_env_file-Distinct path = vars_of-Distinct (sys.read_file path)

  -- The variables of one of the two files of a directory.
  abbrev pub file_vars : Deploy → List ℕ → Texts
  file_vars d name = parse_env_file sys (sys.join d.dir name)

  -- With a directory that was found, `LoadEnv` leaves of each variable the value that the environment
  -- has; if it has none, that of secrets.env, or, if secrets.env has none, that of config.env, provided
  -- that a variable of that name can have that value.
  pub lookup-load_env :
      (d : Deploy) (env : Texts) (k : List ℕ)
      → IsSetter
      → d.found ≡ true
      → lookup k (load_env sys d env)
        ≡ or_else (lookup k env) (
            settable k (
              or_else
                (lookup k (file_vars d (text "secrets.env")))
                (lookup k (file_vars d (text "config.env")))))
  unfolding load_env lookup
  lookup-load_env d env k s here =
      let config = file_vars d (text "config.env") in
      let secrets = file_vars d (text "secrets.env") in
      let from_config : lookup k (merge config []) ≡ lookup k config =
        lookup-merge k config []
        ∙ ap (λ o. or_else o none) (last_of-lookup k config (parse_env_file-Distinct _))
        ∙ or_else-none (lookup k config) in
      let from_both : lookup k (merge secrets (merge config []))
          ≡ or_else (lookup k secrets) (lookup k config) =
        lookup-merge k secrets (merge config [])
        ∙ ap (λ o. or_else o (lookup k (merge config [])))
            (last_of-lookup k secrets (parse_env_file-Distinct _))
        ∙ ap (or_else (lookup k secrets)) from_config in
      let once : Distinct (merge secrets (merge config [])) =
        merge-Distinct secrets (merge config []) (merge-Distinct config [] tt) in
      rw here (
        lookup-apply_vars k (merge secrets (merge config [])) env s once
        ∙ ap (λ o. or_else (lookup k env) (settable k o)) from_both)
