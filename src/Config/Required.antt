-- ===== src/Config/Required.antt =====
-- What a struct holds once it is loaded.
use mathlib.Core.Path.{subst}
use chassis_go.Prelude.{
  ℕ, ◌≡◌, refl, ap, sym, ◌∙◌, ◌⊎◌, inl, inr, Bool, true, false, ◌==◌, text_comparable, text,
  is_empty, Option, none, some, List, [], ◌∷◌, ◌++◌, map, lookup, ℤ, parse_int64, IsSplit, split_on,
  split_on-IsSplit, arith, Bool-cases, if◌then◌else◌,
}
use chassis_go.Config.{
  Kind, duration, strings, string, integer, float, boolean, other, Tags, Field, unexported, struct,
  plain, Fields, no_fields, and_field, Value, of_duration, of_texts, of_text, of_integer, of_float,
  of_boolean, Ops, Panic, Loaded, untouched, loaded, panicked, as_value, or_nothing, raw_of,
  trim_all, set_field, validate_field, checked, set_value, load_field, go_on, then_fields, load_one,
  load_fields,
}
use chassis_go.Config.Constraints.{Meets, validate_field-Meets}

-- The fields of a struct and of the structs in it, in their order, each with its tags if it is
-- exported.
mutual
  pub leaves : Fields → List (Option Tags)
  leaves no_fields = []
  leaves (and_field f fs) = leaves_of f ++ leaves fs

  pub leaves_of : Field → List (Option Tags)
  leaves_of unexported = none ∷ []
  leaves_of (struct fields) = leaves fields
  leaves_of (plain tags) = some tags ∷ []

empty_text : (s : List ℕ) → is_empty s ≡ true → s ≡ []
empty_text [] h = refl
empty_text (c ∷ s) h = cc

valued_by :
    {A F D : Type 0} (f : A → Value F D) (o : Option A) (v : Value F D)
    → as_value f o ≡ some v
    → (a : A) × (o ≡ some a) × (f a ≡ v)
unfolding as_value
valued_by f none v h = cc
valued_by f (some a) v h = (a, refl, ground arith)

module _ {F D : Type 0} (ops : Ops F D) where
  -- A text is read as a value of a type.
  pub data Reads : Kind → List ℕ → Value F D → Type 0 where
    read_duration :
        (raw : List ℕ) (d : D)
        → ops.parse_duration raw ≡ some d
        → Reads duration raw (of_duration d)
    read_texts :
        (raw : List ℕ) (parts : List (List ℕ))
        → IsSplit b',' raw parts
        → Reads strings raw (of_texts (map ops.trim_space parts))
    read_text : (raw : List ℕ) → Reads string raw (of_text raw)
    read_integer :
        (raw : List ℕ) (n : ℤ) → parse_int64 raw ≡ some n → Reads integer raw (of_integer n)
    read_float :
        (raw : List ℕ) (x : F) → ops.parse_float raw ≡ some x → Reads float raw (of_float x)
    read_boolean :
        (raw : List ℕ) (b : Bool) → ops.parse_bool raw ≡ some b → Reads boolean raw (of_boolean b)

  trim_all-map : (ss : List (List ℕ)) → trim_all ops ss ≡ map ops.trim_space ss
  unfolding trim_all
  trim_all-map [] = refl
  trim_all-map (s ∷ ss) = ap (λ ts. ops.trim_space s ∷ ts) (trim_all-map ss)

  set_field-Reads :
      (kind : Kind) (raw : List ℕ) (v : Value F D)
      → set_field ops kind raw ≡ some v
      → Reads kind raw v
  unfolding set_field
  set_field-Reads duration raw v h =
      let (d, parsed, same) = valued_by of_duration (ops.parse_duration raw) v h in
      subst (Reads duration raw) same (read_duration raw d parsed)
  set_field-Reads strings raw v h =
      let split = split_on b',' raw in
      let same : of_texts (trim_all ops split) ≡ v = ground arith in
      let trimmed : of_texts (map ops.trim_space split) ≡ of_texts (trim_all ops split) =
        ap of_texts (sym (trim_all-map split)) in
      subst (Reads strings raw) (trimmed ∙ same) (read_texts raw split (split_on-IsSplit b',' raw))
  set_field-Reads string raw v h =
      let same : of_text raw ≡ v = ground arith in subst (Reads string raw) same (read_text raw)
  set_field-Reads integer raw v h =
      let (n, parsed, same) = valued_by of_integer (parse_int64 raw) v h in
      subst (Reads integer raw) same (read_integer raw n parsed)
  set_field-Reads float raw v h =
      let (x, parsed, same) = valued_by of_float (ops.parse_float raw) v h in
      subst (Reads float raw) same (read_float raw x parsed)
  set_field-Reads boolean raw v h =
      let (b, parsed, same) = valued_by of_boolean (ops.parse_bool raw) v h in
      subst (Reads boolean raw) same (read_boolean raw b parsed)
  set_field-Reads other raw v h = cc

module _ {F D : Type 0} (ops : Ops F D) (env : List (List ℕ × List ℕ)) where
  -- The text of a field: that of its variable, or, if the variable does not exist or is empty, the
  -- default, or else nothing.
  abbrev pub TextOf : Tags → List ℕ → Type 0
  TextOf tags raw =
      ((lookup tags.env_key env ≡ some raw) × (is_empty raw ≡ false))
      ⊎ (((lookup tags.env_key env ≡ none) ⊎ (lookup tags.env_key env ≡ some []))
          × ((tags.default ≡ some raw) ⊎ ((tags.default ≡ none) × (raw ≡ []))))

  -- What a field is given. One that is left as it is has no variable, or its text is empty and it is
  -- not required; any other has the value that its text is read as, which meets its constraints.
  abbrev pub Filled : Tags → Loaded F D → Type 0
  Filled tags untouched = (tags.env_key ≡ []) ⊎ ((tags.required ≡ text "false") × TextOf tags [])
  Filled tags (loaded v) =
      (raw : List ℕ) × TextOf tags raw
      × (is_empty raw ≡ false)
      × Reads ops tags.kind raw v
      × Meets ops v tags.validate
  Filled tags (panicked p) = ⊥

  abbrev pub OneFilled : Option Tags → Loaded F D → Type 0
  OneFilled none l = l ≡ untouched
  OneFilled (some tags) l = Filled tags l

  -- One by one.
  abbrev pub AllFilled : List (Option Tags) → List (Loaded F D) → Type 0
  AllFilled [] [] = Unit
  AllFilled [] (l ∷ ls) = ⊥
  AllFilled (t ∷ ts) [] = ⊥
  AllFilled (t ∷ ts) (l ∷ ls) = OneFilled t l × AllFilled ts ls

  AllFilled-append :
      (ts us : List (Option Tags)) (ls ms : List (Loaded F D))
      → AllFilled ts ls
      → AllFilled us ms
      → AllFilled (ts ++ us) (ls ++ ms)
  AllFilled-append [] us [] ms a b = b
  AllFilled-append [] us (l ∷ ls) ms a b = absurd a
  AllFilled-append (t ∷ ts) us [] ms a b = absurd a
  AllFilled-append (t ∷ ts) us (l ∷ ls) ms a b = (a.0, AllFilled-append ts us ls ms a.1 b)

  default_text :
      (o : Option (List ℕ)) → (o ≡ some (or_nothing o)) ⊎ ((o ≡ none) × (or_nothing o ≡ []))
  unfolding or_nothing
  default_text none = inr (refl, refl)
  default_text (some s) = inl refl

  text_from :
      (tags : Tags) (o : Option (List ℕ))
      → lookup tags.env_key env ≡ o
      → TextOf tags (if is_empty (or_nothing o) then or_nothing tags.default else or_nothing o)
  unfolding or_nothing
  text_from tags none e = inr (inl e, default_text tags.default)
  text_from tags (some []) e = inr (inr e, default_text tags.default)
  text_from tags (some (c ∷ s)) e = inl (e, refl)

  raw_of-TextOf : (tags : Tags) → TextOf tags (raw_of tags env)
  unfolding raw_of
  raw_of-TextOf tags = text_from tags (lookup tags.env_key env) refl

  abbrev is_panicked : Loaded F D → Bool
  is_panicked (panicked p) = true
  is_panicked _ = false

  checked-Filled :
      (tags : Tags) (v : Value F D) (o : Option Panic)
      → Reads ops tags.kind (raw_of tags env) v
      → is_empty (raw_of tags env) ≡ false
      → validate_field ops v tags.validate ≡ o
      → is_panicked (checked ops v o) ≡ false
      → Filled tags (checked ops v o)
  unfolding checked
  checked-Filled tags v none reads given valid h =
      (raw_of tags env, raw_of-TextOf tags, given, reads, validate_field-Meets ops v _ valid)
  checked-Filled tags v (some p) reads given valid h = cc

  set_value-Filled :
      (tags : Tags) (o : Option (Value F D))
      → set_field ops tags.kind (raw_of tags env) ≡ o
      → is_empty (raw_of tags env) ≡ false
      → is_panicked (set_value ops tags o) ≡ false
      → Filled tags (set_value ops tags o)
  unfolding set_value
  set_value-Filled tags none e given h = cc
  set_value-Filled tags (some v) e given h =
      checked-Filled tags v (validate_field ops v tags.validate)
        (set_field-Reads ops tags.kind (raw_of tags env) v e) given refl h

  load_field-Filled :
      (tags : Tags)
      → is_panicked (load_field ops tags env) ≡ false
      → Filled tags (load_field ops tags env)
  unfolding load_field
  load_field-Filled tags h = elim (Bool-cases (is_empty tags.env_key)) [
    | inl unkeyed ↦ rw unkeyed (inl (empty_text tags.env_key unkeyed))
    | inr keyed ↦ elim (Bool-cases (is_empty (raw_of tags env))) [
      | inl blank ↦ elim (Bool-cases (tags.required == text "false")) [
        | inl optional ↦
            let nothing = empty_text (raw_of tags env) blank in
            rw (keyed, blank, optional)
              (inr (
                (text_comparable.same_iff tags.required (text "false")).0 optional,
                subst (TextOf tags) nothing (raw_of-TextOf tags),
              ))
        | inr needed ↦ absurd (ground arith)
      ]
      | inr given ↦
          let value = set_field ops tags.kind (raw_of tags env) in
          let whole : set_value ops tags value ≡ load_field ops tags env = rw (keyed, given) refl in
          subst (Filled tags) whole
            (set_value-Filled tags value refl given (ap is_panicked whole ∙ h))
    ]
  ]

  go_on_fine :
      (l : Loaded F D)
      → (go_on ops l ([], none)).1 ≡ none
      → (is_panicked l ≡ false) × ((go_on ops l ([], none)).0 ≡ l ∷ [])
  unfolding go_on
  go_on_fine (panicked p) h = cc
  go_on_fine untouched h = (refl, refl)
  go_on_fine (loaded v) h = (refl, refl)

  then_fields_fine :
      (a b : List (Loaded F D) × Option Panic)
      → (then_fields ops a b).1 ≡ none
      → (a.1 ≡ none) × (b.1 ≡ none) × ((then_fields ops a b).0 ≡ a.0 ++ b.0)
  unfolding then_fields
  then_fields_fine (before, some p) b h = cc
  then_fields_fine (before, none) (after, o) h = (refl, h, refl)

  mutual
    unfolding load_one load_fields leaves

    load_fields-AllFilled :
        (fs : Fields)
        → (load_fields ops fs env).1 ≡ none
        → AllFilled (leaves fs) (load_fields ops fs env).0
    load_fields-AllFilled no_fields h = tt
    load_fields-AllFilled (and_field f fs) h =
        let first = load_one ops f env in
        let rest = load_fields ops fs env in
        let (fine, others, joined) = then_fields_fine first rest h in
        subst (AllFilled (leaves_of f ++ leaves fs)) (sym joined) (
          AllFilled-append (leaves_of f) (leaves fs) first.0 rest.0 (load_one-AllFilled f fine)
            (load_fields-AllFilled fs others))

    load_one-AllFilled :
        (f : Field) → (load_one ops f env).1 ≡ none → AllFilled (leaves_of f) (load_one ops f env).0
    load_one-AllFilled unexported h = (refl, tt)
    load_one-AllFilled (struct fields) h = load_fields-AllFilled fields h
    load_one-AllFilled (plain tags) h =
        let (fine, alone) = go_on_fine (load_field ops tags env) h in
        subst (AllFilled (some tags ∷ [])) (sym alone) (load_field-Filled tags fine, tt)
