-- ===== src/Config.antt =====
-- config/config.go: a struct that is filled from environment variables. A struct is the list of its
-- fields with their tags; texts are lists of bytes. The parsers of package strconv for other numbers
-- than int64, those of durations and patterns, and the functions of strings are parameters.
pub mod Constraints
pub mod Required
pub mod Tests
use chassis_go.Prelude.{
  ℕ, Bool, true, false, ◌==◌, ◌&&◌, ◌||◌, not, nat_comparable, text_comparable, text, is_empty,
  Option, none, some, List, [], ◌∷◌, ◌++◌, lookup, ℤ, parse_int64, split_on, if◌then◌else◌,
}

-- The types of fields.
pub data Kind : Type 0 where
  duration strings string integer float boolean other : Kind

-- The tags of a field; the default is none if there is no such tag.
pub record Tags : Type 0 where
  pub kind : Kind
  pub env_key : List ℕ
  pub default : Option (List ℕ)
  pub required : List ℕ
  pub validate : List ℕ

-- A field is not exported, is a struct, or is plain.
mutual
  pub data Field : Type 0 where
    unexported : Field
    struct : Fields → Field
    plain : Tags → Field

  pub data Fields : Type 0 where
    no_fields : Fields
    and_field : Field → Fields → Fields

pub data Value (F D : Type 0) : Type 0 where
  of_duration : D → Value F D
  of_texts : List (List ℕ) → Value F D
  of_text : List ℕ → Value F D
  of_integer : ℤ → Value F D
  of_float : F → Value F D
  of_boolean : Bool → Value F D

pub record Ops (F D : Type 0) : Type 0 where
  pub parse_duration : List ℕ → Option D
  pub parse_float : List ℕ → Option F
  pub parse_bool : List ℕ → Option Bool
  pub trim_space : List ℕ → List ℕ
  pub words : List ℕ → List (List ℕ)
  pub show : Value F D → List ℕ
  pub as_float : Value F D → F
  pub less : F → F → Bool
  pub matcher : List ℕ → Option (List ℕ → Bool)

-- The panics.
pub data Panic : Type 0 where
  not_set not_parsed bad_minimum below_minimum bad_maximum above_maximum : Panic
  not_allowed bad_pattern not_matching : Panic

-- `strings.Cut(s, "=")`.
cons_first : ℕ → List ℕ × List ℕ → List ℕ × List ℕ
cons_first c (key, value) = (c ∷ key, value)

pub cut_equals : List ℕ → List ℕ × List ℕ
unfolding cons_first
cut_equals [] = ([], [])
cut_equals (c ∷ s) = let rest = cut_equals s in if c == b'=' then ([], s) else cons_first c rest

one_of : List ℕ → List (List ℕ) → Bool
one_of s [] = false
one_of s (t ∷ ts) = t == s || one_of s ts

as_value : {A F D : Type 0} → (A → Value F D) → Option A → Option (Value F D)
as_value f none = none
as_value f (some a) = some (f a)

-- What a plain field is given: nothing, a value, or a panic.
pub data Loaded (F D : Type 0) : Type 0 where
  untouched : Loaded F D
  loaded : Value F D → Loaded F D
  panicked : Panic → Loaded F D

or_nothing : Option (List ℕ) → List ℕ
or_nothing none = []
or_nothing (some s) = s

-- The text of a field: that of the environment, or the default if that is empty.
pub raw_of : Tags → List (List ℕ × List ℕ) → List ℕ
unfolding or_nothing
raw_of tags env =
    let raw = or_nothing (lookup tags.env_key env) in
    if is_empty raw then or_nothing tags.default else raw

module _ {F D : Type 0} (ops : Ops F D) where
  trim_all : List (List ℕ) → List (List ℕ)
  trim_all [] = []
  trim_all (s ∷ ss) = ops.trim_space s ∷ trim_all ss

  -- `setField`: the value of the field; none is its error.
  pub set_field : Kind → List ℕ → Option (Value F D)
  unfolding trim_all as_value
  set_field duration raw = as_value of_duration (ops.parse_duration raw)
  set_field strings raw = some (of_texts (trim_all (split_on b',' raw)))
  set_field string raw = some (of_text raw)
  set_field integer raw = as_value of_integer (parse_int64 raw)
  set_field float raw = as_value of_float (ops.parse_float raw)
  set_field boolean raw = as_value of_boolean (ops.parse_bool raw)
  set_field other raw = none

  check_minimum : Value F D → Option F → Option Panic
  check_minimum v none = some bad_minimum
  check_minimum v (some m) = if ops.less (ops.as_float v) m then some below_minimum else none

  check_maximum : Value F D → Option F → Option Panic
  check_maximum v none = some bad_maximum
  check_maximum v (some m) = if ops.less m (ops.as_float v) then some above_maximum else none

  check_pattern : Value F D → Option (List ℕ → Bool) → Option Panic
  check_pattern v none = some bad_pattern
  check_pattern v (some matches) = if matches (ops.show v) then none else some not_matching

  -- One constraint; none is no panic.
  pub check_part : Value F D → List ℕ × List ℕ → Option Panic
  unfolding check_minimum check_maximum check_pattern one_of
  check_part v (key, value) =
      if key == text "min"
      then check_minimum v (ops.parse_float value)
      else if key == text "max"
      then check_maximum v (ops.parse_float value)
      else if key == text "oneof"
      then (if one_of (ops.show v) (ops.words value) then none else some not_allowed)
      else if key == text "pattern"
      then check_pattern v (ops.matcher value)
      else none

  or_next : Option Panic → Option Panic → Option Panic
  or_next none next = next
  or_next (some p) next = some p

  pub check_parts : Value F D → List (List ℕ) → Option Panic
  unfolding or_next
  check_parts v [] = none
  check_parts v (part ∷ parts) =
      or_next (check_part v (cut_equals (ops.trim_space part))) (check_parts v parts)

  -- `validateField`, of a tag that is not empty.
  pub validate_field : Value F D → List ℕ → Option Panic
  unfolding check_parts
  validate_field v tag = if is_empty tag then none else check_parts v (split_on b',' tag)

  checked : Value F D → Option Panic → Loaded F D
  checked v none = loaded v
  checked v (some p) = panicked p

  set_value : Tags → Option (Value F D) → Loaded F D
  unfolding checked
  set_value tags none = panicked not_parsed
  set_value tags (some v) = checked v (validate_field v tags.validate)

  -- A plain field.
  pub load_field : Tags → List (List ℕ × List ℕ) → Loaded F D
  unfolding set_value raw_of
  load_field tags env =
      let raw = raw_of tags env in
      if is_empty tags.env_key
      then untouched
      else if is_empty raw
      then (if tags.required == text "false" then untouched else panicked not_set)
      else set_value tags (set_field tags.kind raw)

  -- What the fields hold after one that has been loaded, or the panic.
  go_on : Loaded F D → List (Loaded F D) × Option Panic → List (Loaded F D) × Option Panic
  go_on (panicked p) rest = ([], some p)
  go_on untouched (done, p) = (untouched ∷ done, p)
  go_on (loaded v) (done, p) = (loaded v ∷ done, p)

  pub then_fields :
      List (Loaded F D) × Option Panic
      → List (Loaded F D) × Option Panic
      → List (Loaded F D) × Option Panic
  then_fields (before, some p) rest = (before, some p)
  then_fields (before, none) (after, p) = (before ++ after, p)

  -- `loadFields`: what each field is given in their order, and the panic.
  mutual
    unfolding go_on then_fields

    pub load_one : Field → List (List ℕ × List ℕ) → List (Loaded F D) × Option Panic
    load_one unexported env = (untouched ∷ [], none)
    load_one (struct fields) env = load_fields fields env
    load_one (plain tags) env = go_on (load_field tags env) ([], none)

    pub load_fields : Fields → List (List ℕ × List ℕ) → List (Loaded F D) × Option Panic
    load_fields no_fields env = ([], none)
    load_fields (and_field f fs) env = then_fields (load_one f env) (load_fields fs env)
