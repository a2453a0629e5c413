-- ===== src/Phasekit.antt =====
-- phasekit/phasekit.go: the environment from the secrets that the phase CLI exports. Texts are lists of
-- bytes. The file system, the subprocess, JSON, the trimming of spaces, the sorting of texts and the
-- setting of a variable are parameters; the environment is a map.
pub mod Apply
pub mod Secrets
pub mod Tests
use chassis_go.Prelude.{
  ℕ, zero, suc, Bool, true, false, ltb, ◌==◌, ◌&&◌, ◌||◌, not, nat_comparable, text_comparable,
  text, is_empty, Option, none, some, List, [], ◌∷◌, ◌++◌, lookup, insert, ℤ, pos, negsuc,
  if◌then◌else◌,
}

abbrev pub Env : Type 0
Env = List (List ℕ × List ℕ)

-- `Config`; the timeout is in nanoseconds.
pub record Config : Type 0 where
  pub service_token : List ℕ
  pub app : List ℕ
  pub env : List ℕ
  pub path : List ℕ
  pub all_paths : Bool
  pub required_keys : List (List ℕ)
  pub overwrite_existing : Bool
  pub allow_redacted : Bool
  pub binary_path : List ℕ
  pub host : List ℕ
  pub timeout : ℤ

pub data Source : Type 0 where
  phase_cli env_fallback : Source

-- `Result`.
pub record Report : Type 0 where
  pub set_keys : List (List ℕ)
  pub skipped : List (List ℕ)
  pub source : Source

pub data PhaseError : Type 0 where
  binary_missing binary_unavailable no_app no_env no_token : PhaseError
  timed_out cli_failed bad_json not_object not_text redacted : PhaseError
  missing_keys : List (List ℕ) → PhaseError
  empty_key key_with_equals value_with_nul not_set : PhaseError

pub data Outcome (A : Type 0) : Type 0 where
  ok : A → Outcome A
  err : PhaseError → Outcome A

pub bind : {A B : Type 0} → Outcome A → (A → Outcome B) → Outcome B
bind (ok a) f = f a
bind (err e) f = err e

-- `os.Stat`.
pub data Stat : Type 0 where
  found absent unavailable : Stat

-- The end of the subprocess.
pub data Cli : Type 0 where
  late failed : Cli
  output : List ℕ → Cli

-- What the standard library and the system do, on JSON values `V`; the object is none for null.
pub record System (V : Type 0) : Type 0 where
  pub trim_space : List ℕ → List ℕ
  pub look_path : List ℕ → Option (List ℕ)
  pub stat : List ℕ → Stat
  pub run : List ℕ → List (List ℕ) → Env → ℤ → Cli
  pub parse_object : List ℕ → Option (Option (List (List ℕ × V)))
  pub as_text : V → Option (List ℕ)
  pub sort : List (List ℕ) → List (List ℕ)
  pub setenv : List ℕ → List ℕ → Env → Option Env

is_positive : ℤ → Bool
is_positive (pos n) = ltb 0 n
is_positive (negsuc n) = false

-- `applyDefaults`.
pub apply_defaults : Config → Config
unfolding is_positive
apply_defaults cfg = record cfg {
  host = if is_empty cfg.host then text "https://console.phase.dev" else cfg.host;
  path = if is_empty cfg.path then text "/" else cfg.path;
  timeout = if is_positive cfg.timeout then cfg.timeout else pos 10000000000;
}

pub contains_byte : ℕ → List ℕ → Bool
contains_byte b [] = false
contains_byte b (c ∷ s) = c == b || contains_byte b s

-- `phasePath`.
phase_path : Config → List ℕ
phase_path cfg = if cfg.all_paths then [] else cfg.path

args_of : Config → List (List ℕ)
unfolding phase_path
args_of cfg =
    text "secrets"
    ∷ text "export"
    ∷ text "--app"
    ∷ cfg.app
    ∷ text "--env"
    ∷ cfg.env
    ∷ text "--path"
    ∷ phase_path cfg
    ∷ text "--format"
    ∷ text "json"
    ∷ text "--generate-leases=false"
    ∷ []

inherited : List (List ℕ) → Env → Env
inherited [] env = []
inherited (key ∷ keys) env = elim (lookup key env) [
  | some val ↦ (key, val) ∷ inherited keys env
  | none ↦ inherited keys env
]

-- `phaseEnv`, as pairs.
pub phase_env : Config → Env → Env
unfolding inherited
phase_env cfg env =
    (text "PHASE_SERVICE_TOKEN", cfg.service_token)
    ∷ (text "PHASE_HOST", cfg.host)
    ∷ inherited
        (text "HTTP_PROXY"
          ∷ text "HTTPS_PROXY"
          ∷ text "NO_PROXY"
          ∷ text "SSL_CERT_FILE"
          ∷ text "SSL_CERT_DIR"
          ∷ [])
        env

-- `validateEnvPair`; none is the nil error.
pub validate_env_pair : List ℕ → List ℕ → Option PhaseError
unfolding contains_byte
validate_env_pair key value =
    if is_empty key
    then some empty_key
    else if contains_byte b'=' key
    then some key_with_equals
    else if contains_byte 0 value
    then some value_with_nul
    else none

pub keys_of : {V : Type 0} → List (List ℕ × V) → List (List ℕ)
keys_of [] = []
keys_of ((k, v) ∷ m) = k ∷ keys_of m

-- `secrets[key]`.
pub value_of : Env → List ℕ → List ℕ
value_of secrets key = elim (lookup key secrets) [ none ↦ [] | some v ↦ v ]

-- `_, ok := m[key]`, as in `os.LookupEnv`.
pub is_set : List ℕ → Env → Bool
is_set key env = elim (lookup key env) [ none ↦ false | some _ ↦ true ]

missing : Env → List (List ℕ) → List (List ℕ)
unfolding is_set
missing secrets [] = []
missing secrets (key ∷ keys) =
    let rest = missing secrets keys in if is_set key secrets then rest else key ∷ rest

from_look : Option (List ℕ) → Outcome (List ℕ)
from_look none = err binary_missing
from_look (some path) = ok path

from_stat : List ℕ → Stat → Outcome (List ℕ)
from_stat path found = ok path
from_stat path absent = err binary_missing
from_stat path unavailable = err binary_unavailable

from_cli : Cli → Outcome (List ℕ)
from_cli late = err timed_out
from_cli failed = err cli_failed
from_cli (output out) = ok out

skip_key : List ℕ → List (List ℕ) × List (List ℕ) → Outcome (List (List ℕ) × List (List ℕ))
skip_key key (chosen, kept) = ok (chosen, key ∷ kept)

set_key : List ℕ → List (List ℕ) × List (List ℕ) → Outcome (List (List ℕ) × List (List ℕ))
set_key key (chosen, kept) = ok (key ∷ chosen, kept)

-- A key that is not skipped, after its validation.
checked :
    Option PhaseError
    → List ℕ
    → Outcome (List (List ℕ) × List (List ℕ))
    → Outcome (List (List ℕ) × List (List ℕ))
unfolding set_key
checked (some e) key rest = err e
checked none key rest = bind rest (set_key key)

-- The first loop of `applyEnv`: the keys to set and those that are skipped.
pub choose : List (List ℕ) → Env → Bool → Env → Outcome (List (List ℕ) × List (List ℕ))
unfolding checked skip_key is_set
choose [] secrets overwrite env = ok ([], [])
choose (key ∷ keys) secrets overwrite env =
    let rest = choose keys secrets overwrite env in
    if not overwrite && is_set key env
    then bind rest (skip_key key)
    else checked (validate_env_pair key (value_of secrets key)) key rest

-- `errors.Is(err, errPhaseBinaryMissing)`.
pub is_missing : PhaseError → Bool
is_missing binary_missing = true
is_missing _ = false

abbrev pub fallback : Report
fallback = record { set_keys = []; skipped = []; source = env_fallback }

module _ {V : Type 0} (sys : System V) where
  continue_set : Option Env → Env → (Env → Env × Option PhaseError) → Env × Option PhaseError
  continue_set none env rest = (env, some not_set)
  continue_set (some next) env rest = rest next

  -- The second loop: the environment, and the error that ended it.
  pub set_all : List (List ℕ) → Env → Env → Env × Option PhaseError
  unfolding continue_set
  set_all [] secrets env = (env, none)
  set_all (key ∷ keys) secrets env =
      continue_set (sys.setenv key (value_of secrets key) env) env (set_all keys secrets)

  finish : List (List ℕ) × List (List ℕ) → Env × Option PhaseError → Env × Outcome Report
  finish lists (env, some e) = (env, err e)
  finish (chosen, kept) (env, none) =
      (env, ok (record { set_keys = chosen; skipped = kept; source = phase_cli }))

  apply_chosen : Outcome (List (List ℕ) × List (List ℕ)) → Env → Env → Env × Outcome Report
  unfolding finish
  apply_chosen (err e) secrets env = (env, err e)
  apply_chosen (ok lists) secrets env = finish lists (set_all lists.0 secrets env)

  -- `applyEnv`.
  pub apply_env : Env → Bool → Env → Env × Outcome Report
  unfolding apply_chosen keys_of
  apply_env secrets overwrite env =
      apply_chosen (choose (sys.sort (keys_of secrets)) secrets overwrite env) secrets env

  -- `resolveBinary`.
  pub resolve_binary : List ℕ → Outcome (List ℕ)
  unfolding from_look from_stat
  resolve_binary path =
      if is_empty path
      then from_look (sys.look_path (text "phase"))
      else if contains_byte b'/' path
      then from_stat path (sys.stat path)
      else from_look (sys.look_path path)

  is_blank : List ℕ → Bool
  is_blank s = is_empty (sys.trim_space s)

  -- `validate`, with the check of the token that follows it.
  pub validate : Config → List ℕ → Outcome (List ℕ)
  unfolding is_blank
  validate cfg binary =
      if is_blank cfg.app
      then err no_app
      else if is_blank cfg.env
      then err no_env
      else if is_blank cfg.service_token
      then err no_token
      else ok binary

  -- `exportSecrets`, with the environment of the process.
  pub export_secrets : Config → Env → Outcome (List ℕ)
  unfolding from_cli args_of
  export_secrets cfg env = bind (resolve_binary cfg.binary_path) (λ binary.
      bind (validate cfg binary)
        (λ path. from_cli (sys.run path (args_of cfg) (phase_env cfg env) cfg.timeout)))

  read_value : Bool → List ℕ → Option (List ℕ) → Outcome Env → Outcome Env
  read_value allowed key none rest = err not_text
  read_value allowed key (some val) rest =
      if (val == text "[REDACTED]") && not allowed
      then err redacted
      else bind rest (λ secrets. ok ((key, val) ∷ secrets))

  -- The loop over the object, in the order in which the map is ranged over.
  pub read_values : Bool → List (List ℕ × V) → Outcome Env
  unfolding read_value
  read_values allowed [] = ok []
  read_values allowed ((key, raw) ∷ object) =
      read_value allowed key (sys.as_text raw) (read_values allowed object)

  read_object : Bool → Option (Option (List (List ℕ × V))) → Outcome Env
  read_object allowed none = err bad_json
  read_object allowed (some none) = err not_object
  read_object allowed (some (some object)) = read_values allowed object

  -- `parseSecrets`.
  pub parse_secrets : List ℕ → Bool → Outcome Env
  unfolding read_object
  parse_secrets out allowed = read_object allowed (sys.parse_object out)

  -- `validateRequiredKeys`.
  pub validate_required_keys : List (List ℕ) → Env → Outcome Env
  unfolding missing
  validate_required_keys required secrets =
      let absent_keys = missing secrets required in
      if is_empty absent_keys then ok secrets else err (missing_keys (sys.sort absent_keys))

  -- The secrets of an export, if they can be read and hold the required keys.
  pub secrets_of : Config → List ℕ → Outcome Env
  secrets_of cfg out =
      bind (parse_secrets out cfg.allow_redacted) (validate_required_keys cfg.required_keys)

  apply_secrets : Bool → Outcome Env → Env → Env × Outcome Report
  apply_secrets overwrite (err e) env = (env, if is_missing e then ok fallback else err e)
  apply_secrets overwrite (ok secrets) env = apply_env secrets overwrite env

  -- `Hydrate`.
  pub hydrate : Config → Env → Env × Outcome Report
  unfolding apply_secrets is_missing
  hydrate config env =
      let cfg = apply_defaults config in
      apply_secrets cfg.overwrite_existing (bind (export_secrets cfg env) (secrets_of cfg)) env
