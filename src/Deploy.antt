-- ===== src/Deploy.antt =====
-- deploy/deploy.go: the deploy directory of a service and what is read from it. Texts are lists of
-- bytes. The file system, paths, the trimming and scanning of texts and JSON are parameters; the
-- environment is a map, and a map is ranged over in the order of its list.
pub mod Runtime
pub mod Directory
pub mod Tests
pub mod EnvFile
pub mod Content
use chassis_go.Prelude.{
  ℕ, zero, suc, ◌+◌, Bool, true, false, leb, ◌==◌, ◌&&◌, ◌||◌, not, nat_comparable, text_comparable,
  text, is_empty, has_prefix, Option, none, some, List, [], ◌∷◌, ◌++◌, lookup, insert,
  if◌then◌else◌,
}

abbrev pub Texts : Type 0
Texts = List (List ℕ × List ℕ)

-- `Deploy`, less the time of its creation.
pub record Deploy : Type 0 where
  pub dir : List ℕ
  pub found : Bool
  pub name : List ℕ

pub record Endpoint : Type 0 where
  pub port : ℕ
  pub protocol : List ℕ
  pub path : List ℕ

-- `Dependency`; a nil pointer is none.
pub record Dependency : Type 0 where
  pub service : List ℕ
  pub endpoint : List ℕ
  pub protocol : List ℕ
  pub port : ℕ
  pub required : Option Bool

pub record TlsPaths : Type 0 where
  pub cert : List ℕ
  pub key : List ℕ
  pub ca : List ℕ

-- The block `environment` of deploy.json.
pub record EnvBlock : Type 0 where
  pub env : List ℕ
  pub provider : List ℕ
  pub region : List ℕ
  pub cluster : List ℕ

-- What the library and the system do: `os.Stat`, `os.ReadFile`, `os.UserHomeDir`, `os.Hostname`,
-- `filepath.Join`, the functions of strings, the lines of a file, `os.Setenv`, and what JSON finds in
-- a file: the field `chassis`, the fields that a nil map or slice leaves none, the version.
pub record System : Type 0 where
  pub exists : List ℕ → Bool
  pub is_dir : List ℕ → Bool
  pub read_file : List ℕ → Option (List ℕ)
  pub home : Option (List ℕ)
  pub hostname : Option (List ℕ)
  pub join : List ℕ → List ℕ → List ℕ
  pub trim_space : List ℕ → List ℕ
  pub to_lower : List ℕ → List ℕ
  pub contains : List ℕ → List ℕ → Bool
  pub lines : List ℕ → List (List ℕ)
  pub setenv : List ℕ → List ℕ → Texts → Option Texts
  pub json_chassis : List ℕ → Option (List ℕ)
  pub json_version : List ℕ → Option (List ℕ)
  pub json_env : List ℕ → Option EnvBlock
  pub json_endpoints : List ℕ → Option (Option (List (List ℕ × Endpoint)))
  pub json_dependencies : List ℕ → Option (Option (List Dependency))
  pub json_flags : List ℕ → Option Texts

-- `os.Getenv`.
pub getenv : List ℕ → Texts → List ℕ
getenv key env = elim (lookup key env) [ none ↦ [] | some v ↦ v ]

module _ (sys : System) where
  first_dir : List (List ℕ) → List ℕ → Deploy
  first_dir [] name = record { dir = []; found = false; name = name }
  first_dir (dir ∷ dirs) name =
      if sys.is_dir dir
      then record { dir = dir; found = true; name = name }
      else first_dir dirs name

  -- The directories that `Discover` tries, in its order.
  pub candidates : List ℕ → Texts → List (List ℕ)
  candidates name env =
      let chosen = getenv (text "CHASSIS_DEPLOY_DIR") env in
      (if is_empty chosen then [] else chosen ∷ [])
      ++ sys.join (text "/app/deploy") name ∷ elim sys.home [
        | none ↦ []
        | some home ↦ sys.join (sys.join home (text "deploy")) name ∷ []
      ]
      ++ sys.join (text "/deploy") name ∷ []

  -- `Discover`.
  pub discover : List ℕ → Texts → Deploy
  unfolding first_dir
  discover name env = first_dir (candidates name env) name

  -- `Path`.
  pub path_of : Deploy → List ℕ → List ℕ
  path_of d rel = if d.found then sys.join d.dir rel else []

  -- The content of a file of the directory; none if there is no directory or it cannot be read.
  pub deploy_file : Deploy → List ℕ → Option (List ℕ)
  deploy_file d file_name =
      let content = sys.read_file (sys.join d.dir file_name) in if d.found then content else none
