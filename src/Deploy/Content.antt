-- ===== src/Deploy/Content.antt =====
-- deploy/deploy.go: what the files of the directory say, and its hooks.
pub mod Hooks
pub mod Defaults
use chassis_go.Prelude.{
  ℕ, zero, suc, ◌+◌, Bool, true, false, leb, ◌==◌, ◌&&◌, ◌||◌, not, nat_comparable, text_comparable,
  text, is_empty, has_prefix, Option, none, some, List, [], ◌∷◌, ◌++◌, lookup, insert,
  if◌then◌else◌,
}
use chassis_go.Deploy.{Texts, Deploy, System, Endpoint, Dependency, TlsPaths, deploy_file}

-- Whether a hook's name has only the characters that are allowed.
unfoldable pub is_hook_name : List ℕ → Bool
is_hook_name [] = true
is_hook_name (c ∷ s) =
    ((leb b'a' c && leb c b'z')
      || (leb b'A' c && leb c b'Z')
      || (leb b'0' c && leb c b'9')
      || c == b'-'
      || c == b'_')
    && is_hook_name s

pub data Hook : Type 0 where
  nothing invalid_name : Hook
  executed : List ℕ → Hook

default_endpoint : Endpoint → Endpoint
default_endpoint ep = if is_empty ep.protocol then record ep { protocol = text "http" } else ep

default_endpoints : List (List ℕ × Endpoint) → List (List ℕ × Endpoint)
unfolding default_endpoint
default_endpoints [] = []
default_endpoints ((name, ep) ∷ eps) = (name, default_endpoint ep) ∷ default_endpoints eps

or_required : Option Bool → Option Bool
or_required none = some true
or_required (some b) = some b

default_dependencies : List Dependency → List Dependency
unfolding or_required
default_dependencies [] = []
default_dependencies (d ∷ ds) =
    record d {
      required = or_required d.required;
      protocol = if is_empty d.protocol then text "tcp" else d.protocol;
    }
    ∷ default_dependencies ds

module _ (sys : System) where
  spec_of : Option (List ℕ) → List ℕ
  spec_of none = []
  spec_of (some chassis) = if is_empty chassis then text "8.0" else chassis

  -- `Spec`.
  pub spec : Deploy → List ℕ
  unfolding spec_of
  spec d = elim (deploy_file sys d (text "deploy.json")) [
    | none ↦ []
    | some content ↦ spec_of (sys.json_chassis content)
  ]

  -- `TLS`.
  pub tls : Deploy → Option TlsPaths
  tls d =
      let cert = sys.join (sys.join d.dir (text "tls")) (text "cert.pem") in
      let key = sys.join (sys.join d.dir (text "tls")) (text "key.pem") in
      let ca = sys.join (sys.join d.dir (text "tls")) (text "ca.pem") in
      if d.found && sys.exists cert && sys.exists key
      then some (record { cert = cert; key = key; ca = if sys.exists ca then ca else [] })
      else none

  endpoints_of : Option (Option (List (List ℕ × Endpoint))) → List (List ℕ × Endpoint)
  unfolding default_endpoints
  endpoints_of none = []
  endpoints_of (some none) = []
  endpoints_of (some (some eps)) = default_endpoints eps

  -- `Endpoints` and `Endpoint`.
  pub endpoints : Deploy → List (List ℕ × Endpoint)
  unfolding endpoints_of
  endpoints d = elim (deploy_file sys d (text "deploy.json")) [
    | none ↦ []
    | some content ↦ endpoints_of (sys.json_endpoints content)
  ]

  pub endpoint_of : Deploy → List ℕ → Option Endpoint
  endpoint_of d name = lookup name (endpoints d)

  dependencies_of : Option (Option (List Dependency)) → List Dependency
  unfolding default_dependencies
  dependencies_of none = []
  dependencies_of (some none) = []
  dependencies_of (some (some ds)) = default_dependencies ds

  dependencies_in : Option (List ℕ) → List Dependency
  unfolding dependencies_of
  dependencies_in none = []
  dependencies_in (some content) = dependencies_of (sys.json_dependencies content)

  -- `Dependencies`.
  pub dependencies : Deploy → List Dependency
  unfolding dependencies_in
  dependencies d = dependencies_in (deploy_file sys d (text "deploy.json"))

  -- `FlagSource` and its `Lookup`.
  pub flag_lookup : Deploy → List ℕ → Option (List ℕ)
  flag_lookup d name = elim (deploy_file sys d (text "flags.json")) [
    | none ↦ none
    | some content ↦ elim (sys.json_flags content) [ none ↦ none | some flags ↦ lookup name flags ]
  ]

  -- `RunHook`, up to the execution of the hook.
  unfoldable pub run_hook : Deploy → List ℕ → Hook
  unfolding is_hook_name
  run_hook d name =
      let hooks = sys.join d.dir (text "hooks") in
      let hook = sys.join hooks name in
      if not d.found
      then nothing
      else if not (is_hook_name name)
      then invalid_name
      else if has_prefix hook (hooks ++ b'/' ∷ [])
      then (if sys.exists hook then executed hook else nothing)
      else nothing
